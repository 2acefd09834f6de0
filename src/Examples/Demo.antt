-- ===== src/Examples/Demo.antt =====
-- service_x calls service_y: the theorems on calls at this program.
use msgrpc.Base.{
  ◌^◌, ◌<◌, ◌≡◌, refl, true, Option, none, some, [], ◌∷◌, Run, ok, arith, length, if◌then◌else◌,
  ◌==◌,
}
use msgrpc.Msg.{Bytes}
use msgrpc.World.{Ptr, World, Host, ThriftStruct, Context}
use msgrpc.Cell.{encode}
use msgrpc.Server.{Repository}
use msgrpc.RoundTrip.{CallerSends, Completes}
use msgrpc.Thrift.{Fields, Object, default}
use msgrpc.Thrift.Codec.{write}
use msgrpc.Thrift.Codec.Writable.{AreWritable}
use msgrpc.Thrift.Structs.{struct_codec}
use msgrpc.Server.{Repository, add_iface_impl}
use msgrpc.Api.{InterfaceDecl, MethodDecl, stub_call, register_interfaces, impl_methods}
use msgrpc.Api.EndToEnd.{IsCodec, ServiceRuns, answers, stub_call-Completes}
use msgrpc.Demo.{two_numbers, y_req, y_rsp, iy, iy_f1m1, service_y, iy_impl}
use msgrpc.Demo.Calls.{y_req-AreFields, f1m1_runs, f1m1-Completes}
use msgrpc.Examples.Thrift.{plain_protocol, less, unset}
use msgrpc.Examples.Thrift.Codec.{plain_protocol-Lawful}

-- The cells of this program hold a number and an optional number.
abbrev V : Type 0
V = Object two_numbers

abbrev codec : Bytes → Fields → ThriftStruct V
codec name fs = struct_codec plain_protocol less name two_numbers (λ o. o) (λ o. some o)

abbrev as_req : IsCodec plain_protocol plain_protocol-Lawful less codec iy_f1m1.req_name y_req
as_req = record {
  embed = λ o. o;
  project = λ o. some o;
  project_embed = λ o. refl;
  is_struct = refl;
}

abbrev as_rsp : IsCodec plain_protocol plain_protocol-Lawful less codec iy_f1m1.rsp_name y_rsp
as_rsp = record {
  embed = λ o. o;
  project = λ o. some o;
  project_embed = λ o. refl;
  is_struct = refl;
}

abbrev host : Host V
host = record {
  ids = record {
    request_msg_id = 101;
    response_msg_id = 102;
    set_timer_msg_id = 103;
    timeout_msg_id = 104;
    schedule_task_msg_id = 105;
  };
  malloc = λ t size. true;
  send_msg = λ t p. true;
  resolve = λ t name request. some (127, 7777);
  truth = (1, (unset 0, tt));
}

abbrev resolving : Context
resolving = record { release_list = []; has_service_resolver = true }

-- One context, at pointer 0, and nothing else.
abbrev start : World V
start = record {
  objects = λ p. none;
  contexts = λ p. if p == 0 then some resolving else none;
  next_ptr = 1;
  id_func_map = λ s. none;
  sequence_id = 6;
  sent = [];
  timers = [];
  ticks = 0;
}

abbrev request : V
request = (100, (unset 0, tt))

caller : CallerSends host 0 (stub_call codec service_y iy iy_f1m1 request) start
unfolding encode struct_codec write
caller = record {
  buf = 1 ∷ 8 ∷ 1 ∷ 100 ∷ 0 ∷ [];
  context = resolving;
  service = (127, 7777);
  prepared = record {
    encoded = refl;
    memory = refl;
    unused = refl;
    context = refl;
    resolver = refl;
  };
  resolved = refl;
  accepted = refl;
  iface_fits = omega arith;
  method_fits = omega arith;
}

abbrev service_impl : InterfaceDecl → MethodDecl → V → World V → Run (Option Ptr × World V)
service_impl = iy_impl codec (λ o. o) (λ o. some o) (λ o. request) (λ o. some o) host (λ p w. ok w)

request-AreWritable : AreWritable less y_req request
unfolding default
request-AreWritable = ground arith

caller_small : length caller.buf < 2 ^ 32
unfolding caller
caller_small = omega arith

abbrev repository : Repository V
repository = λ ii. if ii == 2 then some (impl_methods codec (service_impl iy) iy.methods) else none

registered :
    register_interfaces codec service_impl service_y.interfaces (λ ii. none) ≡ ok repository
unfolding register_interfaces add_iface_impl
registered = refl

abbrev doubled : Object y_rsp
doubled = (200, (unset 0, tt))

abbrev rsp_bytes : Bytes
rsp_bytes = 1 ∷ 8 ∷ 1 ∷ 200 ∷ 0 ∷ []

encoded : encode (codec iy_f1m1.rsp_name y_rsp) doubled ≡ some rsp_bytes
unfolding encode struct_codec write
encoded = refl

abbrev runs :
    ServiceRuns plain_protocol plain_protocol-Lawful less codec service_y iy iy_f1m1 service_impl
      as_req as_rsp host repository request doubled start
runs =
    f1m1_runs plain_protocol plain_protocol-Lawful less codec as_req as_rsp (λ o. request)
      (λ o. some o) host (λ p w. ok w) host 0 start request caller repository start rsp_bytes refl
      registered encoded refl

f1m1-Completes_example :
    Completes host 0
      (stub_call codec service_y iy iy_f1m1 request)
      start
      caller
      host
      1
      repository
      start
      (127, 6666)
      (200, (unset 0, tt))
      (answers plain_protocol plain_protocol-Lawful less codec service_y iy iy_f1m1 service_impl
        as_req as_rsp host 0 start request caller host repository doubled start runs y_req-AreFields
        request-AreWritable caller_small)
      (λ p w. ok w)
f1m1-Completes_example =
    f1m1-Completes plain_protocol plain_protocol-Lawful less codec as_req as_rsp (λ o. request)
      (λ o. some o) host (λ p w. ok w) host 0 start request caller repository start rsp_bytes refl
      registered encoded refl 1 (127, 6666) (λ p w. ok w) request-AreWritable caller_small
      (omega arith) (omega arith)

doubled-AreWritable : AreWritable less y_rsp doubled
unfolding default
doubled-AreWritable = ground arith

stub_call-Completes_example :
    Completes host 0
      (stub_call codec service_y iy iy_f1m1 request)
      start
      caller
      host
      1
      repository
      start
      (127, 6666)
      doubled
      (answers plain_protocol plain_protocol-Lawful less codec service_y iy iy_f1m1 service_impl
        as_req as_rsp host 0 start request caller host repository doubled start runs y_req-AreFields
        request-AreWritable caller_small)
      (λ p w. ok w)
unfolding f1m1_runs
stub_call-Completes_example =
    stub_call-Completes plain_protocol plain_protocol-Lawful less codec service_y iy iy_f1m1
      service_impl as_req as_rsp host 0 start request caller host repository doubled start runs 1
      (127, 6666) (λ p w. ok w) y_req-AreFields y_req-AreFields request-AreWritable
      doubled-AreWritable caller_small (omega arith) (omega arith)
