-- ===== src/Examples/Calls.antt =====
-- The theorems on calls and messages at concrete inputs.
use msgrpc.Base.{ℕ, ◌≡◌, ◌≢◌, refl, inl, true, none, some, [], ◌∷◌, ok, arith, if◌then◌else◌, ◌==◌}
use msgrpc.Msg.{succeeded, failed, method_not_found, MsgHeader}
use msgrpc.Msg.Wire.{put_header, put_rsp_header, Fits, IsCanonical}
use msgrpc.SequenceId.{get_nth}
use msgrpc.SequenceId.Laws.{get_nth-ne}
use msgrpc.World.{Cell, cell, plain, World, Host}
use msgrpc.World.Store.{sent_packet, put_object, tick, alloc_object, new_cell}
use msgrpc.Cell.{decode, encode}
use msgrpc.Stub.{request_header, encode_request_and_send}
use msgrpc.Stub.Sending.{
  IsPrepared, IsFailedCall, seq, waiting, packet, encode_request_and_send_sent,
  encode_request_and_send_failed,
}
use msgrpc.Notify.{response}
use msgrpc.Server.{response_header, on_rpc_req_msg, find_method}
use msgrpc.Server.Requests.{Names, Refused, no_method, on_rpc_req_msg-Refused, on_rpc_req_msg-ready}
use msgrpc.RspMsgHandler.{handle_rpc_rsp}
use msgrpc.RspMsgHandler.Delivery.{refused, settled, handle_rpc_rsp-Answers}
use msgrpc.RspMsgHandler.Once.{handle_rpc_rsp_twice}
use msgrpc.RoundTrip.{CallerSends, ServiceAnswers, call_header, Completes, round_trip}
use msgrpc.Examples.{byte, host, lonely_host, start, call, result_cell, double, services}

prepared :
    (h : Host ℕ)
    → h.malloc 0 9 ≡ true
    → IsPrepared h 0 call start
        (21 ∷ [])
        (record { release_list = []; has_service_resolver = true })
unfolding encode
prepared h memory = record {
  encoded = refl;
  memory = memory;
  unused = refl;
  context = refl;
  resolver = refl;
}

caller : CallerSends host 0 call start
caller = record {
  buf = 21 ∷ [];
  context = record { release_list = []; has_service_resolver = true };
  service = (127, 7777);
  prepared = prepared host refl;
  resolved = refl;
  accepted = refl;
  iface_fits = omega arith;
  method_fits = omega arith;
}

double_named : Names services (request_header call 7) double
unfolding find_method
double_named = record { iface = (1, double) ∷ []; registered = refl; found = refl }

service : ServiceAnswers host services (call_header host 0 call start caller) caller.buf start
unfolding caller encode decode find_method
service = record {
  method = double;
  names = record { iface = (1, double) ∷ []; registered = refl; found = refl };
  argument = 21;
  read = refl;
  result = 1;
  after = alloc_object (cell (result_cell 42)) start;
  runs = refl;
  result_cell = result_cell 42;
  at = refl;
  bare = record { is_plain = refl; no_context = refl; no_id = refl };
  answer = 42;
  full = refl;
  rsp = 42 ∷ [];
  encoded = refl;
  memory = refl;
}

round_trip_example :
    Completes host 0 call start caller host 1 services start (127, 6666) 42 service (λ p w. ok w)
unfolding decode service
round_trip_example =
    round_trip host 0 call start caller host 1 services start (127, 6666) 42 service (λ p w. ok w)
      (omega arith) refl

abbrev header : MsgHeader
header = request_header call 7

header-Fits : Fits header
header-Fits = omega arith

succeeded-fits : IsCanonical succeeded
succeeded-fits = tt

failed-fits : IsCanonical failed
failed-fits = tt

get_nth-ne_example : get_nth 2 4294967294 ≢ get_nth 5 4294967294
get_nth-ne_example = get_nth-ne 2 5 4294967294 (omega arith) (omega arith) (omega arith)

-- Method 9 is not there.
unknown_method :
    Refused host 1 services
      (record header { method_index_in_interface = 9 })
      []
      start
      method_not_found
      start
unfolding find_method
unknown_method = no_method ((1, double) ∷ []) refl refl

on_rpc_req_msg-Refused_example :
    let h : MsgHeader = record header { method_index_in_interface = 9 } in
    on_rpc_req_msg host 1 services 1 (put_header h []) (127, 6666) start
    ≡ ok (sent_packet (response host (127, 6666) (response_header h method_not_found) []) start)
on_rpc_req_msg-Refused_example =
    on_rpc_req_msg-Refused host 1 services (record header { method_index_in_interface = 9 }) []
      (127, 6666) start (omega arith) unknown_method

on_rpc_req_msg-ready_example :
    on_rpc_req_msg host 1 services 1 (put_header header (21 ∷ [])) (127, 6666) start
    ≡ ok (
        put_object 1 none (
          sent_packet
            (response host (127, 6666) (response_header header succeeded) (42 ∷ []))
            (tick (alloc_object (cell (result_cell 42)) start))))
unfolding decode encode
on_rpc_req_msg-ready_example =
    on_rpc_req_msg-ready host 1 services double 21 42 (42 ∷ []) 1 (result_cell 42)
      (alloc_object (cell (result_cell 42)) start) header (21 ∷ []) (127, 6666) start (omega arith)
      header-Fits double_named refl refl refl
      (record { is_plain = refl; no_context = refl; no_id = refl }) refl refl refl

encode_request_and_send_sent_example :
    (w' : World ℕ) × (encode_request_and_send host 0 call start ≡ ok (1, w'))
    × (w'.sent ≡ packet host 0 call start (127, 7777) (21 ∷ []) ∷ [])
    × (w'.id_func_map (seq host 0 call start) ≡ some 1)
    × (w'.objects 1 ≡ some (cell (waiting host 0 call start)))
    × (w'.contexts 0 ≡ some (record { release_list = 1 ∷ []; has_service_resolver = true }))
encode_request_and_send_sent_example =
    encode_request_and_send_sent host 0 call start (21 ∷ [])
      (record { release_list = []; has_service_resolver = true }) (prepared host refl) (127, 7777)
      refl refl

encode_request_and_send_failed_example :
    (w' : World ℕ) × (encode_request_and_send lonely_host 0 call start ≡ ok (2, w'))
    × IsFailedCall lonely_host 0 call start
        (21 ∷ [])
        (record { release_list = []; has_service_resolver = true })
        (prepared lonely_host refl)
        w'
encode_request_and_send_failed_example =
    encode_request_and_send_failed lonely_host 0 call start (21 ∷ [])
      (record { release_list = []; has_service_resolver = true }) (prepared lonely_host refl)
      (inl refl)

-- Cell 1 waits for the response to request 7.
abbrev patient : Cell ℕ
patient = record (new_cell byte plain) { seq_id = 7; has_seq_id = true }

abbrev expecting : World ℕ
expecting = record start {
  objects = λ p. if p == 1 then some (cell patient) else none;
  id_func_map = λ s. if s == 7 then some 1 else none;
  next_ptr = 2;
}

handle_rpc_rsp-Answers_example :
    handle_rpc_rsp
      (λ p w. ok w)
      (some (put_rsp_header (response_header header failed) []))
      expecting
    ≡ ok (settled 1 7 (record patient { status = failed }) expecting)
handle_rpc_rsp-Answers_example =
    handle_rpc_rsp-Answers (λ p w. ok w) 1 patient (response_header header failed) [] expecting
      header-Fits failed-fits refl refl refl (refused refl)

handle_rpc_rsp_twice_example :
    handle_rpc_rsp
      (λ p w. ok w)
      (some (put_rsp_header (response_header header failed) []))
      (settled 1 7 (record patient { status = failed }) expecting)
    ≡ ok (settled 1 7 (record patient { status = failed }) expecting)
handle_rpc_rsp_twice_example =
    handle_rpc_rsp_twice (λ p w. ok w) (some (put_rsp_header (response_header header failed) []))
      expecting (settled 1 7 (record patient { status = failed }) expecting)
      handle_rpc_rsp-Answers_example
