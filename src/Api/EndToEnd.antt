-- ===== src/Api/EndToEnd.antt =====
-- A call of a stub's method from end to end, with the structs that the macros declare.
use msgrpc.Base.{ℕ, ◌<◌, ◌+◌, ◌^◌, ◌≡◌, refl, Option, some, Run, ok, length}
use msgrpc.Base.{true, Bool, none}
use msgrpc.Msg.{ServiceId, Bytes}
use msgrpc.Msg.Wire.{sizeof_rsp_header}
use msgrpc.World.{Ptr, Cell, cell, World, Host, ThriftStruct}
use msgrpc.Cell.{decode, encode}
use msgrpc.Server.{Repository}
use msgrpc.Server.Requests.{IsBare}
use msgrpc.RoundTrip.{CallerSends, ServiceAnswers, call_header, Completes, round_trip}
use msgrpc.Thrift.{TypeT, Value, Fields, Object}
use msgrpc.Thrift.Protocol.{Protocol}
use msgrpc.Thrift.Protocol.Laws.{Lawful}
use msgrpc.Thrift.Codec.Writable.{AreFields, AreWritable}
use msgrpc.Thrift.Structs.{struct_codec, decode-encode}
use msgrpc.Api.{ServiceDecl, InterfaceDecl, MethodDecl, stub_call, impl_method, register_interfaces}
use msgrpc.Api.Calls.{Among, Distinct, stub_call-Names}

module _ {V : Type 0} (p : Protocol) (lawful : Lawful p)
    (less : (t : TypeT) → Value t → Value t → Bool) (codec : Bytes → Fields → ThriftStruct V) where
  -- The codec of a struct is the one that the macros write. A cell holds values of one type for all
  -- structs: `embed` and `project` say how the objects of this struct stand among them.
  pub record IsCodec (name : Bytes) (fs : Fields) : Type 0 where
    pub embed : Object fs → V
    pub project : V → Option (Object fs)
    pub project_embed : (o : Object fs) → project (embed o) ≡ some o
    pub is_struct : codec name fs ≡ struct_codec p less name fs embed project

  pub decode_encoded :
      (name : Bytes) (fs : Fields) (c : IsCodec name fs) (o : Object fs) (bs : Bytes)
      → AreFields fs
      → AreWritable less fs o
      → length bs < 2 ^ 32
      → encode (codec name fs) (c.embed o) ≡ some bs
      → decode (codec name fs) bs ≡ some (c.embed o)
  decode_encoded name fs c o bs form ok_o small e = rw c.is_struct (
      decode-encode p less name fs c.embed c.project lawful form (c.embed o) o bs
        (c.project_embed o) refl ok_o small (rw c.is_struct at e))

  module _ (service : ServiceDecl) (i : InterfaceDecl) (method : MethodDecl)
      (impl : InterfaceDecl → MethodDecl → V → World V → Run (Option Ptr × World V))
      (as_req : IsCodec method.req_name method.req)
      (as_rsp : IsCodec method.rsp_name method.rsp) where
    -- The service has the interface among those that it registered, with indices that differ and are
    -- in range, its method runs on the request
    -- and gives a bare cell that holds the response, and there is memory for the message.
    pub record ServiceRuns (host : Host V) (repository : Repository V) (req : Object method.req)
        (rsp : Object method.rsp) (w : World V) : Type 0 where
      pub registered :
          register_interfaces codec impl service.interfaces (λ ii. none) ≡ ok repository
      pub interface : Among i service.interfaces
      pub iface_fits : i.iface_id < 2 ^ 16
      pub method_fits : method.method_index < 2 ^ 8
      pub distinct : Distinct i.methods
      pub declared : Among method i.methods
      pub result : Ptr
      pub after : World V
      pub runs : impl i method (as_req.embed req) w ≡ ok (some result, after)
      pub result_cell : Cell V
      pub at : after.objects result ≡ some (cell result_cell)
      pub bare : IsBare result_cell
      pub full : result_cell.value ≡ some (as_rsp.embed rsp)
      pub typed : result_cell.struct ≡ codec method.rsp_name method.rsp
      pub bytes : Bytes
      pub encoded : encode (codec method.rsp_name method.rsp) (as_rsp.embed rsp) ≡ some bytes
      pub memory : host.malloc after.ticks (sizeof_rsp_header + length bytes) ≡ true

    module _ (caller : Host V) (ctxt : Ptr) (w : World V) (req : Object method.req)
        (s : CallerSends caller ctxt (stub_call codec service i method (as_req.embed req)) w)
        (host : Host V) (repository : Repository V) (rsp : Object method.rsp) (ws : World V)
        (r : ServiceRuns host repository req rsp ws) where
      abbrev pub answers :
          AreFields method.req
          → AreWritable less method.req req
          → length s.buf < 2 ^ 32
          → ServiceAnswers host repository
              (call_header caller ctxt (stub_call codec service i method (as_req.embed req)) w s)
              s.buf
              ws
      answers form ok_req small = record {
        method = impl_method codec (impl i) method;
        names =
            stub_call-Names codec impl service i method (as_req.embed req) _ (λ ii. none) repository
              r.registered r.interface r.iface_fits r.method_fits r.distinct r.declared;
        argument = as_req.embed req;
        read =
            decode_encoded method.req_name method.req as_req req s.buf form ok_req small
              s.prepared.encoded;
        result = r.result;
        after = r.after;
        runs = r.runs;
        result_cell = r.result_cell;
        at = r.at;
        bare = r.bare;
        answer = as_rsp.embed rsp;
        full = r.full;
        rsp = r.bytes;
        encoded = rw r.typed r.encoded;
        memory = r.memory;
      }

      -- A call of a stub's method completes: the service that implements the interface reads the
      -- request that the stub wrote, and the response that its method gave is what the cell of the
      -- caller holds in the end. The call is prepared, resolved and sent; the interface is
      -- registered, its id and the indices of its methods are in their ranges, and the indices
      -- differ; the method gives a bare cell with a value, and there is memory for the response; the
      -- ids of the fields of each struct differ and are below 2^15, the request and the response can
      -- be written, their encodings are shorter than 2^32 bytes, and the protocol reads back what it
      -- writes.
      pub stub_call-Completes :
          (fuel : ℕ) (me : ServiceId) (notify : Ptr → World V → Run (World V))
          (form : AreFields method.req)
          → AreFields method.rsp
          → (ok_req : AreWritable less method.req req) → AreWritable less method.rsp rsp
          → (small : length s.buf < 2 ^ 32) → length r.bytes < 2 ^ 32
          → 0 < fuel
          → Completes caller ctxt
              (stub_call codec service i method (as_req.embed req))
              w
              s
              host
              fuel
              repository
              ws
              me
              (as_rsp.embed rsp)
              (answers form ok_req small)
              notify
      stub_call-Completes fuel me notify form form' ok_req ok_rsp small small' enough =
          round_trip caller ctxt (stub_call codec service i method (as_req.embed req)) w s host fuel
            repository ws me (as_rsp.embed rsp) (answers form ok_req small) notify enough
            (decode_encoded method.rsp_name method.rsp as_rsp rsp r.bytes form' ok_rsp small'
              r.encoded)
