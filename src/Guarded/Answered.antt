-- ===== src/Guarded/Answered.antt =====
-- A guarded call from its start to its answer.
use msgrpc.Base.{
  ℕ, suc, ◌<◌, ◌≡◌, ◌≢◌, refl, sym, ap, ◌∙◌, true, false, none, some, [], ◌∷◌, ◌++◌, Run, ok,
  ==_self, ==_ne, length, ltb_of_le, lt→ltb, arith,
}
use msgrpc.Msg.{Bytes, RspMsgHeader, succeeded, failed, timeout}
use msgrpc.Msg.Wire.{put_rsp_header, sizeof_rsp_header, Fits, IsCanonical}
use msgrpc.Msg.Wire.Laws.{get_rsp_header-put_rsp_header, length-put_rsp_header}
use msgrpc.World.{Cell, cell, guarded, Guard, guard_rpc, action, World, Host, cancel_timer}
use msgrpc.World.Store.{put_cell, timer_call}
use msgrpc.SeqTable.{erase_handler, reset_sequential_id, delete_rsp_handler_if_exist}
use msgrpc.Cell.{decode, set_rpc_rsp, set_value, set_failed_reason, set_timeout}
use msgrpc.Cell.Listener.{set_value-one, set_failed_reason-one}
use msgrpc.RspMsgHandler.{deliver, handle_rpc_rsp, on_rsp_handler_timeout}
use msgrpc.Guarded.{on_rpc_cell}
use msgrpc.Guarded.Reactions.{takes_value, gives_up, on_rpc_cell-Reacts}
use msgrpc.Notify.{notify, update_object, update_action, run_logic}

module _ {V : Type 0} (host : Host V) (k p rpc a seq : ℕ) (c r : Cell V) (g : Guard V) (w : World V)
    (at : w.objects p ≡ some (cell c))
    (at_rpc : w.objects rpc ≡ some (cell (record r { updatables = a ∷ [] })))
    (at_a : w.objects a
      ≡ some (action (record { is_final_action = false; cell = none; logic = guard_rpc p rpc })))
    (known : w.id_func_map seq ≡ some rpc) (ne : p ≢ rpc) (ne_a : a ≢ rpc)
    (kind : c.kind ≡ guarded g) (quiet : c.updatables ≡ []) (waits : r.has_seq_id ≡ true) where
  -- The action runs the reaction.
  notify-on_rpc_cell :
      (w1 w2 : World V)
      → w1.objects a
        ≡ some (action (record { is_final_action = false; cell = none; logic = guard_rpc p rpc }))
      → on_rpc_cell host (notify host k) p rpc w1 ≡ ok w2
      → notify host (suc k) a w1 ≡ ok w2
  unfolding notify update_object update_action run_logic
  notify-on_rpc_cell w1 w2 at_a' e = rw at_a' (rw e refl)

  -- The world in which the rpc cell is `r'`, and the guarded cell is `c'`.
  abbrev both : Cell V → Cell V → World V → World V
  both c' r' w1 = put_cell p c' (put_cell rpc r' w1)

  -- The rpc cell takes the value, the timer is cancelled, and the guarded cell takes the value.
  set_value-guarded :
      (v : V)
      → r.status ≡ succeeded
      → set_value (notify host (suc k)) rpc v w
        ≡ ok (
            put_cell p
              (record c { value = some v })
              (timer_call
                (cancel_timer r.seq_id)
                (put_cell rpc (record r { value = some v; updatables = a ∷ [] }) w)))
  set_value-guarded v good =
      let r' : Cell V = record r { value = some v; updatables = a ∷ [] } in
      let w1 : World V = put_cell rpc r' w in
      set_value-one (notify host (suc k)) rpc a r w _ at_rpc v (
        notify-on_rpc_cell w1 _ (rw (==_ne a rpc ne_a) at_a) (
          on_rpc_cell-Reacts host (notify host k) p rpc c r' g w1 (rw (==_ne p rpc ne) at)
            (rw ==_self refl) kind quiet (takes_value v good refl waits)))

  -- The rpc cell and the guarded cell after a response with a value, and the timer's end.
  abbrev valued_world : V → World V
  valued_world v =
      put_cell p (record c { value = some v })
        (timer_call (cancel_timer r.seq_id)
          (put_cell rpc (record r { value = some v; updatables = a ∷ [] }) w))

  set_rpc_rsp-guarded :
      (h : RspMsgHeader) (payload : Bytes) (v : V)
      → h.rpc_result ≡ succeeded
      → 0 < length payload
      → decode r.struct payload ≡ some v
      → r.status ≡ succeeded
      → set_rpc_rsp (notify host (suc k)) rpc h payload w ≡ ok (valued_world v)
  unfolding set_rpc_rsp
  set_rpc_rsp-guarded h payload v won long good fresh =
      let n = notify host (suc k) in
      let decoded : (elim (decode r.struct payload) as (λ x. Run (World V)) [
        | none ↦ set_failed_reason n rpc failed w
        | some u ↦ set_value n rpc u w
      ])
          ≡ ok (valued_world v) =
        rw good (set_value-guarded v fresh) in
      rw (won, lt→ltb 0 (length payload) long, at_rpc) decoded

  abbrev answered_world : V → World V
  answered_world v = erase_handler seq (
      put_cell rpc (record r { value = some v; updatables = a ∷ []; has_seq_id = false })
        (valued_world v))

  -- The id is free again.
  delete_rsp_handler_if_exist-guarded :
      (v : V) → delete_rsp_handler_if_exist seq (valued_world v) ≡ ok (answered_world v)
  unfolding delete_rsp_handler_if_exist reset_sequential_id
  delete_rsp_handler_if_exist-guarded v =
      rw (known, delete_rsp_handler_if_exist) (rw (==_ne rpc p (λ e. ne (sym e)), ==_self) refl)

  -- The response to the call of a guarded cell: the guarded cell has its value, the timer of the call
  -- is cancelled, and the id is free.
  pub handle_rpc_rsp-guarded :
      (h : RspMsgHeader) (payload : Bytes) (v : V)
      → Fits h.header
      → IsCanonical h.rpc_result
      → h.header.sequence_id ≡ seq
      → h.rpc_result ≡ succeeded
      → 0 < length payload
      → decode r.struct payload ≡ some v
      → r.status ≡ succeeded
      → (w2 : World V) × (handle_rpc_rsp (notify host (suc k)) (some (put_rsp_header h payload)) w
          ≡ ok w2)
        × (w2.objects p ≡ some (cell (record c { value = some v })))
        × (w2.timers ≡ w.timers ++ cancel_timer r.seq_id ∷ [])
        × (w2.id_func_map seq ≡ none)
  unfolding handle_rpc_rsp deliver
  handle_rpc_rsp-guarded h payload v fits canonical same won long good fresh =
      let found : w.id_func_map h.header.sequence_id ≡ some rpc = ap w.id_func_map same ∙ known in
      (
        answered_world v,
        rw
            (
              ltb_of_le (length (put_rsp_header h payload)) sizeof_rsp_header
                  (omega (arith, length-put_rsp_header h payload)),
              get_rsp_header-put_rsp_header h payload fits canonical,
            )
            (rw (found, deliver, set_rpc_rsp-guarded h payload v won long good fresh)
              (ap (λ q. delete_rsp_handler_if_exist q (valued_world v)) same
                ∙ delete_rsp_handler_if_exist-guarded v)),
        rw (==_ne p rpc ne, ==_self) refl,
        refl,
        rw ==_self refl,
      )

  -- The timeout of a guarded call without a retry: the guarded cell fails, and the id is free.
  pub on_rsp_handler_timeout-guarded :
      g.retry_times ≡ 0
      → g.timeout_cell ≡ none
      → (w2 : World V) × (on_rsp_handler_timeout (notify host (suc k)) seq w ≡ ok w2)
        × (w2.objects p ≡ some (cell (record c { status = timeout })))
        × (w2.id_func_map seq ≡ none)
  unfolding on_rsp_handler_timeout set_timeout reset_sequential_id
  on_rsp_handler_timeout-guarded no_retry no_cell =
      let r1 : Cell V = record r { has_seq_id = false; updatables = a ∷ [] } in
      let r2 : Cell V = record r { has_seq_id = false; updatables = a ∷ []; status = timeout } in
      let w1 : World V = erase_handler seq (put_cell rpc r1 w) in
      let w2 : World V = put_cell rpc r2 w1 in
      (
        put_cell p (record c { status = timeout }) w2,
        rw (known, on_rsp_handler_timeout, at_rpc)
            (set_failed_reason-one (notify host (suc k)) rpc a (record r { has_seq_id = false }) w1
              _ (rw ==_self refl) timeout
              (notify-on_rpc_cell w2 _ (rw (==_ne a rpc ne_a) at_a) (
                on_rpc_cell-Reacts host (notify host k) p rpc c r2 g w2 (rw (==_ne p rpc ne) at)
                  (rw ==_self refl) kind quiet (gives_up refl no_retry no_cell)))),
        rw ==_self refl,
        rw ==_self refl,
      )
