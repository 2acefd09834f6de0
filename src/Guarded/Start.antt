-- ===== src/Guarded/Start.antt =====
-- The start of a guarded call: the request, the timer, and who listens to whom.
use msgrpc.Base.{
  ℕ, ◌+◌, ◌≡◌, refl, true, false, Option, none, some, List, [], ◌∷◌, ◌++◌, Run, ok, ◌==◌, ==_self,
  ==_ne, arith,
}
use msgrpc.Msg.{Bytes, ServiceId, succeeded}
use msgrpc.World.{
  Ptr, Cell, cell, guarded, Guard, View, guard_rpc, Action, action, Context, RpcCall, ThriftStruct,
  World, Host, set_timer,
}
use msgrpc.World.Store.{put_cell, new_cell, alloc_object, put_context, timer_call, track}
use msgrpc.Cell.{register_listener}
use msgrpc.Stub.Sending.{
  seq, waiting, request, packet, IsPrepared, under_way, encode_request_and_send-under_way,
}
use msgrpc.Guarded.{bind_timeout_cell, watch, put_guard, get_guard, views, invoke_rpc_once}
use msgrpc.Derive.{derive_rpc_cell}

module _ {V : Type 0} (host : Host V) (notify : Ptr → World V → Run (World V)) where
  abbrev reaction : Ptr → Ptr → Action
  reaction p rpc = record { is_final_action = false; cell = none; logic = guard_rpc p rpc }

  -- The guarded cell has started, the timer runs, and a new action listens to the call.
  abbrev watched : Ptr → Cell V → Guard V → Ptr → Cell V → Context → World V → World V
  watched p c g rpc r x w =
      put_context g.ctxt (some (record x { release_list = x.release_list ++ w.next_ptr ∷ [] })) (
        put_cell rpc (record r { updatables = r.updatables ++ w.next_ptr ∷ [] })
          (alloc_object (action (reaction p rpc)) (
            timer_call (set_timer g.timeout_ms r.seq_id)
              (put_cell p (record c { kind = guarded (record g { is_rpc_started = true }) }) w))))

  watch-watched :
      (p rpc : Ptr) (c r : Cell V) (g : Guard V) (x : Context) (w : World V)
      → w.objects p ≡ some (cell c)
      → w.objects rpc ≡ some (cell r)
      → (rpc == p) ≡ false
      → (rpc == w.next_ptr) ≡ false
      → w.contexts g.ctxt ≡ some x
      → r.status ≡ succeeded
      → r.value ≡ none
      → r.has_seq_id ≡ true
      → watch host notify p g rpc w ≡ ok (watched p c g rpc r x w)
  unfolding watch bind_timeout_cell put_guard register_listener track
  watch-watched p rpc c r g x w at rpc_at ne ne' at_ctxt fresh empty id =
      rw (at, watch) (rw (ne, rpc_at) (rw (fresh, id) (rw (ne', empty) (rw at_ctxt refl))))

  module _ (ctxt : Ptr) (s : ThriftStruct V) (timeout_ms retry_times : ℕ)
      (calls : List (View V) → Option (RpcCall V)) (w : World V) where
    abbrev pub guard : Guard V
    guard = record {
      ctxt = ctxt;
      timeout_ms = timeout_ms;
      retry_times = retry_times;
      call = calls;
      args = [];
      is_rpc_started = false;
      timeout_cell = none;
    }

    -- The world with the new guarded cell, in which the call is made.
    abbrev pub with_guard : World V
    with_guard = alloc_object (cell (new_cell s (guarded guard))) w

    abbrev rpc : Ptr
    rpc = w.next_ptr + 1

    module _ (call : RpcCall V) (buf : Bytes) (x : Context)
        (h : IsPrepared host ctxt call with_guard buf x) (id : ServiceId) where
      abbrev sent_call : World V
      sent_call = under_way host ctxt call with_guard buf x h id

      abbrev holding : Context
      holding = record x { release_list = x.release_list ++ rpc ∷ [] }

      abbrev watching : World V
      watching =
          watched w.next_ptr (new_cell s (guarded guard)) guard rpc
            (waiting host ctxt call with_guard) holding sent_call

      invoke_rpc_once-watching :
          calls [] ≡ some call
          → host.resolve (w.ticks + 1) call.service_name (request host ctxt call with_guard buf)
            ≡ some id
          → host.send_msg (w.ticks + 1 + 1) (packet host ctxt call with_guard id buf) ≡ true
          → invoke_rpc_once host notify w.next_ptr with_guard ≡ ok watching
      unfolding invoke_rpc_once get_guard views
      invoke_rpc_once-watching made resolved accepted =
          rw (==_self, made)
            (rw
              (encode_request_and_send-under_way host ctxt call with_guard buf x h id resolved
                accepted)
              (watch-watched w.next_ptr rpc (new_cell s (guarded guard))
                (waiting host ctxt call with_guard) guard holding sent_call
                (rw (==_ne w.next_ptr rpc (omega arith), ==_self) refl) (rw ==_self refl)
                (==_ne rpc w.next_ptr (omega arith)) (==_ne rpc sent_call.next_ptr (omega arith))
                (rw ==_self refl) refl refl refl))

      -- A guarded call that waits for no cell, prepared, resolved and taken by the channel: exactly
      -- one packet goes out and exactly one timer is set, with the limit and the id of the call. The
      -- call's cell is the handler of that id, the reaction of the guarded cell listens to it, and
      -- the context owns the call's cell, the reaction and the guarded cell, in this order.
      pub derive_rpc_cell-Starts :
          calls [] ≡ some call
          → host.resolve (w.ticks + 1) call.service_name (request host ctxt call with_guard buf)
            ≡ some id
          → host.send_msg (w.ticks + 1 + 1) (packet host ctxt call with_guard id buf) ≡ true
          → (w' : World V) × (derive_rpc_cell host notify ctxt s timeout_ms retry_times calls [] w
              ≡ ok (w.next_ptr, w'))
            × (w'.sent ≡ w.sent ++ packet host ctxt call with_guard id buf ∷ [])
            × (w'.timers ≡ w.timers ++ set_timer timeout_ms (seq host ctxt call with_guard) ∷ [])
            × (w'.id_func_map (seq host ctxt call with_guard) ≡ some (w.next_ptr + 1))
            × (w'.objects w.next_ptr
                ≡ some (cell (new_cell s (guarded (record guard { is_rpc_started = true })))))
            × (w'.objects (w.next_ptr + 1)
                ≡ some (
                    cell (record (waiting host ctxt call with_guard) {
                      updatables = (w.next_ptr + 1 + 1) ∷ [];
                    })))
            × (w'.objects (w.next_ptr + 1 + 1)
                ≡ some (
                    action (record {
                      is_final_action = false;
                      cell = none;
                      logic = guard_rpc w.next_ptr (w.next_ptr + 1);
                    })))
            × (w'.contexts ctxt
                ≡ some (record x {
                  release_list =
                      ((x.release_list ++ (w.next_ptr + 1) ∷ []) ++ (w.next_ptr + 1 + 1) ∷ [])
                      ++ w.next_ptr ∷ [];
                }))
      unfolding derive_rpc_cell track
      derive_rpc_cell-Starts made resolved accepted =
          let p = w.next_ptr in
          let a = w.next_ptr + 1 + 1 in
          (
            put_context ctxt
                (some
                  (record x { release_list = ((x.release_list ++ rpc ∷ []) ++ a ∷ []) ++ p ∷ [] }))
                watching,
            rw (derive_rpc_cell, invoke_rpc_once-watching made resolved accepted) (rw ==_self refl),
            refl,
            refl,
            rw ==_self refl,
            rw (==_ne p rpc (omega arith), ==_ne p a (omega arith), ==_self) refl,
            rw ==_self refl,
            rw (==_ne a rpc (omega arith), ==_self) refl,
            rw ==_self refl,
          )
