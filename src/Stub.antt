-- ===== src/Stub.antt =====
-- core/iface_stub/iface_stub_base.h, .cpp and iface_impl_utility.h: a call of a remote method.
pub mod Sending
use msgrpc.Base.{
  ℕ, ◌+◌, Bool, true, false, none, some, Run, ok, ◌>>=◌, ◌>>◌, length, if◌then◌else◌, deref, assert,
}
use msgrpc.Msg.{RpcResult, failed, Bytes, ReqMsgHeader, Packet}
use msgrpc.Msg.Wire.{put_header, sizeof_req_header}
use msgrpc.SequenceId
use msgrpc.World.{Ptr, World, Host, RpcCall, ThriftStruct, plain, cell}
use msgrpc.World.Store.{new_cell, alloc_object, track, tick, sent_packet}
use msgrpc.SeqTable.{register_rsp_handler}
use msgrpc.Cell.{new_instance, encode}
use msgrpc.Destroy.{destroy}

module _ {V : Type 0} where
  -- `failed_cell_with_reason`.
  unfoldable pub failed_cell_with_reason :
      Ptr → ThriftStruct V → RpcResult → World V → Run (Ptr × World V)
  unfolding new_instance track
  failed_cell_with_reason ctxt s reason w = do
    w' ← track ctxt w.next_ptr (alloc_object (cell (new_instance s reason)) w)
    ok (w.next_ptr, w')

  abbrev pub request_header : RpcCall V → ℕ → ReqMsgHeader
  request_header call seq = record {
    msgrpc_version = 0;
    method_index_in_interface = call.method_index;
    iface_index_in_service = call.iface_index;
    sequence_id = seq;
  }

module _ {V : Type 0} (host : Host V) where
  -- The service is resolved, and the message goes out.
  unfoldable pub resolve_and_send : Bytes → Bytes → World V → Bool × World V
  resolve_and_send name msg w = elim (host.resolve w.ticks name msg) [
    | none ↦ (false, tick w)
    | some id ↦
        let packet : Packet = record { to = id; msg_id = host.ids.request_msg_id; buf = msg } in
        (host.send_msg (w.ticks + 1) packet, sent_packet packet (tick w))
  ]

  unfoldable pub send_rpc_request_buf :
      Ptr → RpcCall V → Bytes → Ptr → World V → Run (Bool × World V)
  unfolding resolve_and_send register_rsp_handler put_header SequenceId.get
  send_rpc_request_buf ctxt call buf sink w =
      if host.malloc w.ticks (sizeof_req_header + length buf)
      then (do
        let seq = SequenceId.get w.sequence_id
        w1 ← register_rsp_handler seq sink (record w { sequence_id = seq; ticks = w.ticks + 1 })
        c ← deref (w1.contexts ctxt)
        assert c.has_service_resolver
        ok (resolve_and_send call.service_name (put_header (request_header call seq) buf) w1))
      else ok (false, tick w)

  -- What follows the attempt to send.
  unfoldable pub keep_or_fail : Ptr → RpcCall V → Ptr → Bool × World V → Run (Ptr × World V)
  unfolding failed_cell_with_reason destroy track
  keep_or_fail ctxt call p (true, w) = do w' ← track ctxt p w; ok (p, w')
  keep_or_fail ctxt call p (false, w) = do
    w' ← destroy 1 p w
    failed_cell_with_reason ctxt call.rsp_struct failed w'

  unfoldable pub encode_request_and_send : Ptr → RpcCall V → World V → Run (Ptr × World V)
  unfolding failed_cell_with_reason send_rpc_request_buf keep_or_fail encode
  encode_request_and_send ctxt call w = elim (encode call.req_struct call.request) [
    | none ↦ failed_cell_with_reason ctxt call.rsp_struct failed w
    | some buf ↦ (do
      let p = w.next_ptr
      r ←
          send_rpc_request_buf ctxt call buf p
            (alloc_object (cell (new_cell call.rsp_struct plain)) w)
      keep_or_fail ctxt call p r)
  ]
