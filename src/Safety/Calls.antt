-- ===== src/Safety/Calls.antt =====
-- The calls of remote methods: the cell that waits for the response is registered under a new id.
use msgrpc.Base.{
  ◌+◌, ◌≡◌, refl, inl, inr, Bool, true, false, some, Option-cases, Bool-cases, ok, Ensures, normal,
  Ensures-bind, Ensures-bind_eq, Ensures-assert, deref, ==_self, length,
}
use msgrpc.Msg.{RpcResult, Bytes, failed}
use msgrpc.Msg.Wire.{sizeof_req_header}
use msgrpc.SequenceId
use msgrpc.World.{Ptr, Cell, ThriftStruct, RpcCall, Object, cell, plain, World, Host}
use msgrpc.World.Store.{alloc_object, new_cell}
use msgrpc.SeqTable.Linked.{IsLinked, alloc_object-IsLinked, register_rsp_handler-Ensures}
use msgrpc.Cell.{new_instance, encode}
use msgrpc.Stub.{
  failed_cell_with_reason, resolve_and_send, send_rpc_request_buf, keep_or_fail,
  encode_request_and_send,
}
use msgrpc.Safety.Cells.{track-Keeps}
use msgrpc.Safety.Destructors.{destroy-Keeps}

-- The world beside a result is linked.
abbrev pub Beside : {A : Type 0} {V : Type 0} → A × World V → Type 0
Beside r = IsLinked r.1

module _ {V : Type 0} where
  failed_cell-Ensures :
      (ctxt : Ptr) (s : ThriftStruct V) (r : RpcResult) (w : World V)
      → IsLinked w
      → Ensures Beside (failed_cell_with_reason ctxt s r w)
  unfolding failed_cell_with_reason new_instance
  failed_cell-Ensures ctxt s r w l =
      let o : Object V = cell (new_instance s r) in
      Ensures-bind (λ w'. ok (w.next_ptr, w'))
        (track-Keeps ctxt w.next_ptr (alloc_object o w) (alloc_object-IsLinked w o l refl))
        λ w' l'. normal {a = (w.next_ptr, w')} l'

module _ {V : Type 0} (host : Host V) where
  resolve_and_send-Beside :
      (name msg : Bytes) (w : World V) → IsLinked w → Beside (resolve_and_send host name msg w)
  unfolding resolve_and_send
  resolve_and_send-Beside name msg w l = elim (Option-cases (host.resolve w.ticks name msg)) [
    | inl e ↦ rw (e, resolve_and_send) l
    | inr (id, e) ↦ rw (e, resolve_and_send) l
  ]

  send_rpc_request_buf-Ensures :
      (ctxt : Ptr) (call : RpcCall V) (buf : Bytes) (p : Ptr) (c : Cell V) (w : World V)
      → IsLinked w
      → w.objects p ≡ some (cell c)
      → c.has_seq_id ≡ false
      → Ensures Beside (send_rpc_request_buf host ctxt call buf p w)
  unfolding send_rpc_request_buf
  send_rpc_request_buf-Ensures ctxt call buf p c w l at e =
      elim (Bool-cases (host.malloc w.ticks (sizeof_req_header + length buf))) [
        | inr no_memory ↦ rw no_memory (normal l)
        | inl memory ↦ rw memory (
            Ensures-bind _
              (register_rsp_handler-Ensures _ (SequenceId.get w.sequence_id) p c l at e)
              λ w1 l1. Ensures-bind_eq (deref (w1.contexts ctxt)) _ λ x _.
                Ensures-assert x.has_service_resolver
                  λ _. normal (resolve_and_send-Beside call.service_name _ w1 l1))
      ]

  keep_or_fail-Ensures :
      (ctxt : Ptr) (call : RpcCall V) (p : Ptr) (r : Bool × World V)
      → Beside r
      → Ensures Beside (keep_or_fail host ctxt call p r)
  unfolding keep_or_fail
  keep_or_fail-Ensures ctxt call p (true, w) l =
      Ensures-bind (λ w'. ok (p, w')) (track-Keeps ctxt p w l) λ w' l'. normal {a = (p, w')} l'
  keep_or_fail-Ensures ctxt call p (false, w) l =
      Ensures-bind _ (destroy-Keeps 1 p w l)
        λ w' l'. failed_cell-Ensures ctxt call.rsp_struct failed w' l'

  -- A call of a remote method keeps the world linked, sent or not.
  pub encode_request_and_send-Ensures :
      (ctxt : Ptr) (call : RpcCall V) (w : World V)
      → IsLinked w
      → Ensures Beside (encode_request_and_send host ctxt call w)
  unfolding encode_request_and_send
  encode_request_and_send-Ensures ctxt call w l =
      elim (Option-cases (encode call.req_struct call.request)) [
        | inl e ↦
            rw (e, encode_request_and_send) (failed_cell-Ensures ctxt call.rsp_struct failed w l)
        | inr (buf, e) ↦
            rw (e, encode_request_and_send)
              (Ensures-bind _
                (send_rpc_request_buf-Ensures ctxt call buf w.next_ptr
                  (new_cell call.rsp_struct plain) _ (alloc_object-IsLinked w _ l refl) (rw ==_self)
                  refl)
                (keep_or_fail-Ensures ctxt call w.next_ptr))
      ]
