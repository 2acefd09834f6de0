-- ===== src/RspMsgHandler/Delivery.antt =====
-- What a response and a timeout do to the cell that waits for them, where nothing listens to it.
use msgrpc.Base.{
  ℕ, ◌<◌, ◌≡◌, refl, false, none, some, [], Run, ok, length, ltb_of_le, lt→ltb, arith, ==_self,
}
use msgrpc.Msg.{RpcResult, succeeded, failed, timeout, is_succeeded, RspMsgHeader, Bytes}
use msgrpc.Msg.Wire.{put_rsp_header, sizeof_rsp_header, Fits, IsCanonical}
use msgrpc.Msg.Wire.Laws.{get_rsp_header-put_rsp_header, length-put_rsp_header}
use msgrpc.World.{Ptr, Cell, cell, World}
use msgrpc.World.Store.{put_cell}
use msgrpc.SeqTable.{erase_handler, reset_sequential_id, delete_rsp_handler_if_exist}
use msgrpc.Cell.{decode, set_rpc_rsp, set_failed_reason, set_value, set_timeout}
use msgrpc.RspMsgHandler.{deliver, handle_rpc_rsp, on_rsp_handler_timeout}

module _ {V : Type 0} where
  -- What a response makes of the cell that waits for it.
  pub data Answers (c : Cell V) (h : RspMsgHeader) (payload : Bytes) : Cell V → Type 0 where
    refused :
        is_succeeded h.rpc_result ≡ false → Answers c h payload (record c { status = h.rpc_result })
    garbled :
        h.rpc_result ≡ succeeded
        → 0 < length payload
        → decode c.struct payload ≡ none
        → Answers c h payload (record c { status = failed })
    valued :
        (v : V)
        → h.rpc_result ≡ succeeded
        → 0 < length payload
        → decode c.struct payload ≡ some v
        → Answers c h payload (record c { value = some v })

  -- The cell at `p` becomes `c`, and gives up the id `seq`.
  abbrev pub settled : Ptr → ℕ → Cell V → World V → World V
  settled p seq c w =
      erase_handler seq (put_cell p (record c { has_seq_id = false }) (put_cell p c w))

module _ {V : Type 0} (notify : Ptr → World V → Run (World V)) where
  pub set_failed_reason_quiet :
      (p : Ptr) (c : Cell V) (r : RpcResult) (w : World V)
      → w.objects p ≡ some (cell c)
      → c.updatables ≡ []
      → set_failed_reason notify p r w ≡ ok (put_cell p (record c { status = r }) w)
  unfolding set_failed_reason
  set_failed_reason_quiet p c r w at quiet = rw (at, ==_self, quiet)

  pub set_value_quiet :
      (p : Ptr) (c : Cell V) (v : V) (w : World V)
      → w.objects p ≡ some (cell c)
      → c.updatables ≡ []
      → set_value notify p v w ≡ ok (put_cell p (record c { value = some v }) w)
  unfolding set_value
  set_value_quiet p c v w at quiet = rw (at, ==_self, quiet)

  set_rpc_rsp-Answers :
      {c' : Cell V} (p : Ptr) (c : Cell V) (h : RspMsgHeader) (payload : Bytes) (w : World V)
      → w.objects p ≡ some (cell c)
      → c.updatables ≡ []
      → Answers c h payload c'
      → set_rpc_rsp notify p h payload w ≡ ok (put_cell p c' w)
  unfolding set_rpc_rsp
  set_rpc_rsp-Answers p c h payload w at quiet (refused e) =
      rw e (set_failed_reason_quiet p c h.rpc_result w at quiet)
  set_rpc_rsp-Answers p c h payload w at quiet (garbled e long bad) =
      rw (e, lt→ltb 0 (length payload) long)
        (ground (arith, set_failed_reason_quiet p c failed w at quiet))
  set_rpc_rsp-Answers p c h payload w at quiet (valued v e long good) =
      rw (e, lt→ltb 0 (length payload) long) (ground (arith, set_value_quiet p c v w at quiet))

  deliver-Answers :
      {c' : Cell V} (p : Ptr) (c : Cell V) (h : RspMsgHeader) (payload : Bytes) (w : World V)
      → w.id_func_map h.header.sequence_id ≡ some p
      → w.objects p ≡ some (cell c)
      → c.updatables ≡ []
      → Answers c h payload c'
      → deliver notify h payload w ≡ ok (settled p h.header.sequence_id c' w)
  unfolding deliver delete_rsp_handler_if_exist
  deliver-Answers p c h payload w known at quiet a =
      rw (known, deliver, set_rpc_rsp-Answers p c h payload w at quiet a)
        (rw (known, delete_rsp_handler_if_exist) (rw ==_self refl))

  -- The response to a waiting cell: it takes the answer, and its id is free again. Any response whose
  -- header is in range is answered so: a failure, a payload that decodes, and one that does not.
  pub handle_rpc_rsp-Answers :
      {c' : Cell V} (p : Ptr) (c : Cell V) (h : RspMsgHeader) (payload : Bytes) (w : World V)
      → Fits h.header
      → IsCanonical h.rpc_result
      → w.id_func_map h.header.sequence_id ≡ some p
      → w.objects p ≡ some (cell c)
      → c.updatables ≡ []
      → Answers c h payload c'
      → handle_rpc_rsp notify (some (put_rsp_header h payload)) w
        ≡ ok (settled p h.header.sequence_id c' w)
  unfolding handle_rpc_rsp deliver delete_rsp_handler_if_exist reset_sequential_id
  handle_rpc_rsp-Answers p c h payload w fits canonical known at quiet a =
      rw
        (
          ltb_of_le (length (put_rsp_header h payload)) sizeof_rsp_header
              (omega (arith, length-put_rsp_header h payload)),
          get_rsp_header-put_rsp_header h payload fits canonical,
        )
        (deliver-Answers p c h payload w known at quiet a)

  -- A timeout: the cell fails with `timeout`, and its id is free again, so that a response which comes
  -- too late finds no handler.
  pub on_rsp_handler_timeout_waiting :
      (p : Ptr) (c : Cell V) (seq : ℕ) (w : World V)
      → w.id_func_map seq ≡ some p
      → w.objects p ≡ some (cell c)
      → c.updatables ≡ []
      → (w' : World V) × (on_rsp_handler_timeout notify seq w ≡ ok w')
        × (w'.objects p ≡ some (cell (record c { status = timeout; has_seq_id = false })))
        × (w'.id_func_map seq ≡ none)
  unfolding on_rsp_handler_timeout set_timeout
  on_rsp_handler_timeout_waiting p c seq w known at quiet =
      let c1 : Cell V = record c { has_seq_id = false } in
      let w1 : World V = erase_handler seq (put_cell p c1 w) in
      (
        put_cell p (record c1 { status = timeout }) w1,
        rw (known, on_rsp_handler_timeout, at)
            (set_failed_reason_quiet p c1 timeout w1 (rw ==_self) quiet),
        rw ==_self,
        rw ==_self,
      )
