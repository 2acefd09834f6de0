-- ===== src/Demo/Calls.antt =====
-- service_x calls `IY::___f1m1` of service_y.
use msgrpc.Base.{
  ℕ, ◌*◌, ◌%◌, ok, ◌+◌, ◌^◌, ◌<◌, ◌≡◌, refl, true, Option, none, some, Run, ok, arith, length, Bool,
  false, ==_self,
}
use msgrpc.Msg.{ServiceId, Bytes}
use msgrpc.Msg.Wire.{sizeof_rsp_header}
use msgrpc.World.{Ptr, cell, plain, World, Host, ThriftStruct}
use msgrpc.World.Store.{alloc_object, new_cell}
use msgrpc.Cell.{encode}
use msgrpc.Server.{Repository}
use msgrpc.RoundTrip.{CallerSends, Completes}
use msgrpc.Thrift.{TypeT, Value, Fields, Object}
use msgrpc.Thrift.Protocol.{Protocol}
use msgrpc.Thrift.Protocol.Laws.{Lawful}
use msgrpc.Thrift.Codec.Writable.{AreFields, AreWritable}
use msgrpc.Api.{InterfaceDecl, MethodDecl, stub_call, register_interfaces}
use msgrpc.Api.Calls.{first}
use msgrpc.Api.EndToEnd.{IsCodec, ServiceRuns, answers, stub_call-Completes}
use msgrpc.Demo.{
  y_req, y_rsp, z_req, z_rsp, iy, iy_f1m1, service_y, can_double, twice, f1m1_rsp, f1m1, iy_impl,
  cell_with_value,
}

pub y_req-AreFields : AreFields y_req
y_req-AreFields = omega arith

-- A `YRsp` with a number in `yrspa`, and no other.
abbrev pub rsp_of : ℕ → Object y_rsp
rsp_of n = (n, (record { value = 0; isset = false }, tt))

pub f1m1_rsp-can_double :
    (o : Object y_req) → can_double o.0 ≡ true → f1m1_rsp o ≡ ok (rsp_of (o.0 * 2 % 2 ^ 32))
unfolding f1m1_rsp twice
f1m1_rsp-can_double (yreqa, rest) small = rw small refl

rsp_of-AreWritable :
    (less : (t : TypeT) → Value t → Value t → Bool) (n : ℕ)
    → AreWritable less y_rsp (rsp_of (n % 2 ^ 32))
unfolding msgrpc.Thrift.default
rsp_of-AreWritable less n = (omega arith, ((λ e. omega arith, λ e. refl), tt))

module _ {V : Type 0} (p : Protocol) (lawful : Lawful p)
    (less : (t : TypeT) → Value t → Value t → Bool) (codec : Bytes → Fields → ThriftStruct V)
    (as_req : IsCodec p lawful less codec iy_f1m1.req_name y_req)
    (as_rsp : IsCodec p lawful less codec iy_f1m1.rsp_name y_rsp) (of_z_req : Object z_req → V)
    (to_z_rsp : V → Option (Object z_rsp)) (host : Host V) (notify : Ptr → World V → Run (World V))
    (caller : Host V) (ctxt : Ptr) (w : World V) (req : Object y_req)
    (s : CallerSends caller ctxt (stub_call codec service_y iy iy_f1m1 (as_req.embed req)) w)
    (repository : Repository V) (ws : World V) (bytes : Bytes)
    (small_req : can_double req.0 ≡ true) where
  -- The response holds the double, as its 32 bits.
  abbrev pub rsp : Object y_rsp
  rsp = rsp_of (req.0 * 2 % 2 ^ 32)

  abbrev pub impl : InterfaceDecl → MethodDecl → V → World V → Run (Option Ptr × World V)
  impl = iy_impl codec as_rsp.embed as_req.project of_z_req to_z_rsp host notify

  unfoldable pub f1m1_runs :
      register_interfaces codec impl service_y.interfaces (λ ii. none) ≡ ok repository
      → encode (codec iy_f1m1.rsp_name y_rsp) (as_rsp.embed rsp) ≡ some bytes
      → host.malloc ws.ticks (sizeof_rsp_header + length bytes) ≡ true
      → ServiceRuns p lawful less codec service_y iy iy_f1m1 impl as_req as_rsp host repository req
          rsp ws
  unfolding iy_impl f1m1 cell_with_value
  f1m1_runs registered encoded memory = record {
    registered = registered;
    interface = first;
    iface_fits = omega arith;
    method_fits = omega arith;
    distinct = omega arith;
    declared = first;
    result = ws.next_ptr;
    after =
        alloc_object
          (cell (record (new_cell (codec iy_f1m1.rsp_name y_rsp) plain) {
            value = some (as_rsp.embed rsp);
          }))
          ws;
    runs = rw (f1m1, as_req.project_embed req) (rw (f1m1_rsp-can_double req small_req) refl);
    result_cell = record (new_cell (codec iy_f1m1.rsp_name y_rsp) plain) {
      value = some (as_rsp.embed rsp);
    };
    at = rw ==_self refl;
    bare = record { is_plain = refl; no_context = refl; no_id = refl };
    full = refl;
    typed = refl;
    bytes = bytes;
    encoded = encoded;
    memory = memory;
  }

  -- A call of `IY::___f1m1` with a number in `yreqa` whose double is an `int32_t` ends with the double
  -- in `yrspa` of the cell that the caller got, both as their 32 bits: the call is prepared, resolved
  -- and sent, service_y has registered its interface, the request can be written, the response
  -- encodes and there is memory for it, both encodings are shorter than 2^32 bytes, and the protocol
  -- reads back what it writes.
  pub f1m1-Completes :
      (registered : register_interfaces codec impl service_y.interfaces (λ ii. none)
        ≡ ok repository)
      → (encoded : encode (codec iy_f1m1.rsp_name y_rsp) (as_rsp.embed rsp) ≡ some bytes)
      → (memory : host.malloc ws.ticks (sizeof_rsp_header + length bytes) ≡ true)
      → (fuel : ℕ) (me : ServiceId) (back : Ptr → World V → Run (World V))
        (ok_req : AreWritable less y_req req) (small : length s.buf < 2 ^ 32)
      → length bytes < 2 ^ 32
      → 0 < fuel
      → Completes caller ctxt
          (stub_call codec service_y iy iy_f1m1 (as_req.embed req))
          w
          s
          host
          fuel
          repository
          ws
          me
          (as_rsp.embed rsp)
          (answers p lawful less codec service_y iy iy_f1m1 impl as_req as_rsp caller ctxt w req s
            host repository rsp ws
            (f1m1_runs registered encoded memory)
            y_req-AreFields
            ok_req
            small)
          back
  unfolding f1m1_runs
  f1m1-Completes registered encoded memory fuel me back ok_req small small' enough =
      stub_call-Completes p lawful less codec service_y iy iy_f1m1 impl as_req as_rsp caller ctxt w
        req s host repository rsp ws (f1m1_runs registered encoded memory) fuel me back
        y_req-AreFields y_req-AreFields ok_req (rsp_of-AreWritable less (req.0 * 2)) small small'
        enough
