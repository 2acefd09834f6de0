-- ===== src/RoundTrip.antt =====
-- A call of a remote method from end to end: the stub of the caller, the service, and the way back
-- into the cell of the caller. Two processes, each with its own host and world.
use msgrpc.Base.{
  Run, ℕ, ◌+◌, ◌<◌, ◌^◌, ◌≡◌, refl, true, false, none, some, [], ◌∷◌, ◌++◌, ok, length, arith,
  ==_self,
}
use msgrpc.Msg.{succeeded, ServiceId, Bytes, MsgHeader}
use msgrpc.Msg.Wire.{put_header, put_rsp_header, sizeof_rsp_header, Fits, IsCanonical}
use msgrpc.SequenceId.Laws.{get-IsValidId}
use msgrpc.World.{Ptr, Cell, cell, Context, RpcCall, World, Host}
use msgrpc.World.Store.{put_object, sent_packet, tick}
use msgrpc.Cell.{decode, encode}
use msgrpc.Stub.{request_header, encode_request_and_send}
use msgrpc.Stub.Sending.{IsPrepared, seq, waiting, request, packet, encode_request_and_send_sent}
use msgrpc.Notify.{response}
use msgrpc.Server.{Method, Repository, response_header, on_rpc_req_msg}
use msgrpc.Server.Requests.{Names, IsBare, on_rpc_req_msg-ready, encode-pos}
use msgrpc.RspMsgHandler.{handle_rpc_rsp}
use msgrpc.RspMsgHandler.Delivery.{valued, settled, handle_rpc_rsp-Answers}

succeeded-IsCanonical : IsCanonical succeeded
succeeded-IsCanonical = tt

-- The caller's side: the call is prepared, resolved and sent.
pub record CallerSends {V : Type 0} (host : Host V) (ctxt : Ptr) (call : RpcCall V) (w : World V)
    : Type 0 where
  pub buf : Bytes
  pub context : Context
  pub service : ServiceId
  pub prepared : IsPrepared host ctxt call w buf context
  pub resolved :
      host.resolve (w.ticks + 1) call.service_name (request host ctxt call w buf) ≡ some service
  pub accepted : host.send_msg (w.ticks + 1 + 1) (packet host ctxt call w service buf) ≡ true
  pub iface_fits : call.iface_index < 2 ^ 16
  pub method_fits : call.method_index < 2 ^ 8

-- The service's side: the method is there, reads the request, and gives a bare cell with a value.
pub record ServiceAnswers {V : Type 0} (host : Host V) (repository : Repository V) (h : MsgHeader)
    (req : Bytes) (w : World V) : Type 0 where
  pub method : Method V
  pub names : Names repository h method
  pub argument : V
  pub read : decode method.req_struct req ≡ some argument
  pub result : Ptr
  pub after : World V
  pub runs : method.method_impl argument w ≡ ok (some result, after)
  pub result_cell : Cell V
  pub at : after.objects result ≡ some (cell result_cell)
  pub bare : IsBare result_cell
  pub answer : V
  pub full : result_cell.value ≡ some answer
  pub rsp : Bytes
  pub encoded : encode result_cell.struct answer ≡ some rsp
  pub memory : host.malloc after.ticks (sizeof_rsp_header + length rsp) ≡ true

module _ {V : Type 0} (caller : Host V) (ctxt : Ptr) (call : RpcCall V) (w : World V)
    (s : CallerSends caller ctxt call w) where
  abbrev pub call_header : MsgHeader
  call_header = request_header call (seq caller ctxt call w)

  request_header-Fits : Fits call_header
  request_header-Fits =
      let v = get-IsValidId w.sequence_id in
      record { version = omega arith; method = s.method_fits; iface = s.iface_fits; seq = v.1 }

  -- The call as it should run: the caller's packet, handled by the service, makes it send one packet
  -- back to the caller; that packet, handled by the caller, leaves the answer `y` in the cell that the
  -- call returned, and the id free again.
  pub record Completes (service : Host V) (fuel : ℕ) (repository : Repository V) (ws : World V)
      (me : ServiceId) (y : V) (a : ServiceAnswers service repository call_header s.buf ws)
      (notify : Ptr → World V → Run (World V)) : Type 0 where
    pub sending : World V
    pub served : World V
    pub done : World V
    pub calls : encode_request_and_send caller ctxt call w ≡ ok (w.next_ptr, sending)
    pub request_sent : sending.sent ≡ w.sent ++ packet caller ctxt call w s.service s.buf ∷ []
    pub serves :
        on_rpc_req_msg service fuel repository service.ids.request_msg_id
          (put_header call_header s.buf)
          me
          ws
        ≡ ok served
    pub reply_sent :
        served.sent
        ≡ a.after.sent ++ response service me (response_header call_header succeeded) a.rsp ∷ []
    pub receives :
        handle_rpc_rsp notify
          (some (put_rsp_header (response_header call_header succeeded) a.rsp))
          sending
        ≡ ok done
    pub answered :
        done.objects w.next_ptr
        ≡ some (cell (record (waiting caller ctxt call w) { value = some y; has_seq_id = false }))
    pub id_free : done.id_func_map (seq caller ctxt call w) ≡ none

  -- A call that is prepared, resolved and accepted, and whose method gives a bare cell with a value,
  -- completes, if the caller can decode what the service encoded.
  pub round_trip :
      (service : Host V) (fuel : ℕ) (repository : Repository V) (ws : World V) (me : ServiceId)
      (y : V) (a : ServiceAnswers service repository call_header s.buf ws)
      (notify : Ptr → World V → Run (World V))
      → 0 < fuel
      → decode call.rsp_struct a.rsp ≡ some y
      → Completes service fuel repository ws me y a notify
  round_trip service fuel repository ws me y a notify enough back =
      let (w1, called, out, known, at, _) =
        encode_request_and_send_sent caller ctxt call w s.buf s.context s.prepared s.service
          s.resolved s.accepted in
      record {
        sending = w1;
        served = put_object a.result none (
            sent_packet (response service me (response_header call_header succeeded) a.rsp)
              (tick a.after));
        done =
            settled w.next_ptr (seq caller ctxt call w)
              (record (waiting caller ctxt call w) { value = some y }) w1;
        calls = called;
        request_sent = out;
        serves =
            on_rpc_req_msg-ready service fuel repository a.method a.argument a.answer a.rsp a.result
              a.result_cell a.after call_header s.buf me ws enough request_header-Fits a.names
              a.read a.runs a.at a.bare a.full a.encoded a.memory;
        reply_sent = refl;
        receives =
            handle_rpc_rsp-Answers notify w.next_ptr (waiting caller ctxt call w)
              (response_header call_header succeeded) a.rsp w1 request_header-Fits
              succeeded-IsCanonical known at refl
              (valued y refl (encode-pos a.result_cell.struct a.answer a.encoded) back);
        answered = rw ==_self;
        id_free = rw ==_self;
      }
