-- ===== src/RspMsgHandler/Once.antt =====
-- A response counts once: whatever it sets off, its handler is gone afterwards.
use msgrpc.Base.{
  ℕ, ◌≡◌, refl, inl, inr, Option, none, some, Option-cases, Bool-cases, Run, ok, >>=-eq-ok, length,
  ltb, arith,
}
use msgrpc.Msg.{RspMsgHeader, Bytes}
use msgrpc.Msg.Wire.{get_rsp_header, sizeof_rsp_header}
use msgrpc.World.{Ptr, World}
use msgrpc.SeqTable.{erase_handler, reset_sequential_id, delete_rsp_handler_if_exist}
use msgrpc.Cell.{set_rpc_rsp}
use msgrpc.RspMsgHandler.{deliver, handle_rpc_rsp}

module _ {V : Type 0} where
  deleted-none :
      (seq : ℕ) (w w' : World V)
      → delete_rsp_handler_if_exist seq w ≡ ok w'
      → w'.id_func_map seq ≡ none
  unfolding delete_rsp_handler_if_exist
  deleted-none seq w w' h = elim (Option-cases (w.id_func_map seq)) [
    | inl e ↦ ground arith
    | inr (p, e) ↦
        let (w1, _, done) =
          >>=-eq-ok (reset_sequential_id p w) (λ x. ok (erase_handler seq x))
            (rw (e, delete_rsp_handler_if_exist) at h) in
        ground arith
  ]

module _ {V : Type 0} (notify : Ptr → World V → Run (World V)) where
  deliver_unknown :
      (h : RspMsgHeader) (payload : Bytes) (w : World V)
      → w.id_func_map h.header.sequence_id ≡ none
      → deliver notify h payload w ≡ ok w
  unfolding deliver
  deliver_unknown h payload w e = rw (e, deliver)

  deliver-none :
      (h : RspMsgHeader) (payload : Bytes) (w w' : World V)
      → deliver notify h payload w ≡ ok w'
      → w'.id_func_map h.header.sequence_id ≡ none
  unfolding deliver
  deliver-none h payload w w' run = elim (Option-cases (w.id_func_map h.header.sequence_id)) [
    | inl e ↦ let same : ok w ≡ ok w' = rw (e, deliver) at run in ground arith
    | inr (p, e) ↦
        let (w1, _, done) =
          >>=-eq-ok (set_rpc_rsp notify p h payload w)
            (delete_rsp_handler_if_exist h.header.sequence_id) (rw (e, deliver) at run) in
        deleted-none h.header.sequence_id w1 w' done
  ]

  -- A response that was handled once changes nothing when it comes again, whatever its listeners did
  -- in between; so with a message that is too short, null or unknown.
  pub handle_rpc_rsp_twice :
      (msg : Option Bytes) (w w' : World V)
      → handle_rpc_rsp notify msg w ≡ ok w'
      → handle_rpc_rsp notify msg w' ≡ ok w'
  unfolding handle_rpc_rsp
  handle_rpc_rsp_twice none w w' run = refl
  handle_rpc_rsp_twice (some msg) w w' run =
      elim (Bool-cases (ltb (length msg) sizeof_rsp_header)) [
        | inl short ↦ rw short
        | inr long ↦ rw long (elim (Option-cases (get_rsp_header msg)) [
          | inl e ↦ rw e
          | inr ((h, payload), e) ↦
              rw e
                (deliver_unknown h payload w' (deliver-none h payload w w' (rw (long, e) at run)))
        ])
      ]
