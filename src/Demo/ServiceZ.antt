-- ===== src/Demo/ServiceZ.antt =====
-- demo_services/service_z/src/api/service_z/z_api_interface_impl_define.cpp, and the method of service_k
-- that it calls, each with the structs of its own copy of the .api files.
use msgrpc.Base.{Option, none, some, List, [], ◌∷◌, Run, ok, ◌>>=◌, if◌then◌else◌, ◌==◌}
use msgrpc.Msg.{Bytes}
use msgrpc.World.{Ptr, World, Host, ThriftStruct, View, Decision, leave, give_failure, RpcCall}
use msgrpc.Thrift.{t_i32, Fields, end, required, Object, default_object}
use msgrpc.Thrift.Objects.{set_field}
use msgrpc.Derive.{derive_cell, derive_rpc_cell, run_si}
use msgrpc.Api.{MethodDecl, InterfaceDecl, ServiceDecl, stub_call}
use msgrpc.Demo.{
  first_number, twice, give, z_rsp, k_req, k_rsp, iz_f1m1, z_f1m1_rsp, k_f1m1_rsp, cell_with_value,
}

-- KRsp as service_z declares it: without krspb.
abbrev pub k_rsp_in_z : Fields
k_rsp_in_z = required 1 [] t_i32 end

-- `IK`, and "service_k" with the version "1.0.0".
abbrev ik_f1m1 : MethodDecl
ik_f1m1 = record {
  method_index = 1;
  rsp_name = 75 ∷ 82 ∷ 115 ∷ 112 ∷ [];
  rsp = k_rsp_in_z;
  req_name = 75 ∷ 82 ∷ 101 ∷ 113 ∷ [];
  req = k_req;
}

abbrev ik : InterfaceDecl
ik = record { iface_id = 1; methods = ik_f1m1 ∷ [] }

abbrev service_k : ServiceDecl
service_k = record {
  name = 115 ∷ 101 ∷ 114 ∷ 118 ∷ 105 ∷ 99 ∷ 101 ∷ 95 ∷ 107 ∷ [];
  version = 49 ∷ 46 ∷ 48 ∷ 46 ∷ 48 ∷ [];
  interfaces = ik ∷ [];
}

-- `zrsp.__set_zrspa(krsp.value().krspa * 2)` on a fresh `ZRsp`.
unfoldable zrsp_of_krsp : Object k_rsp_in_z → Run (Object z_rsp)
unfolding set_field default_object twice
zrsp_of_krsp (krspa, rest) = do
  n ← twice krspa
  ok (set_field first_number n (default_object z_rsp))

-- As for service_y: `codec` reads and writes the structs, and the functions say how their objects stand
-- among the values of cells.
module _ {V : Type 0} (codec : Bytes → Fields → ThriftStruct V) (of_z_rsp : Object z_rsp → V)
    (of_k_req : Object k_req → V) (of_k_rsp : Object k_rsp → V)
    (to_k_rsp : V → Option (Object k_rsp_in_z)) where
  abbrev z_struct : ThriftStruct V
  z_struct = codec iz_f1m1.rsp_name z_rsp

  -- `IK_impl::___k_f1m1`.
  unfoldable k_f1m1 : V → World V → Run (Option Ptr × World V)
  unfolding cell_with_value
  k_f1m1 req w = cell_with_value (codec ik_f1m1.rsp_name k_rsp) (of_k_rsp k_f1m1_rsp) w

  -- `IZ_impl::___z_f1m1`.
  unfoldable z_f1m1 : V → World V → Run (Option Ptr × World V)
  unfolding cell_with_value
  z_f1m1 req w = cell_with_value z_struct (of_z_rsp z_f1m1_rsp) w

  -- `map_krsp_to_zrsp`, bound to the one cell of the call.
  unfoldable map_krsp_to_zrsp : List (View V) → Decision V
  unfolding zrsp_of_krsp
  map_krsp_to_zrsp [] = leave
  map_krsp_to_zrsp (krsp ∷ others) = elim krsp.value [
    | none ↦ give_failure krsp.status
    | some v ↦ elim (to_k_rsp v) [ none ↦ leave | some k ↦ give of_z_rsp (zrsp_of_krsp k) ]
  ]

  -- The call that `call_k_f1m1` makes, with a fresh `KReq`.
  unfoldable call_k_f1m1 : List (View V) → Option (RpcCall V)
  unfolding default_object
  call_k_f1m1 views = some (stub_call codec service_k ik ik_f1m1 (of_k_req (default_object k_req)))

  module _ (host : Host V) (notify : Ptr → World V → Run (World V)) where
    -- `SI_call_k_async`; the request is captured and not used.
    unfoldable si_call_k_async : V → Ptr → World V → Run (Ptr × World V)
    unfolding map_krsp_to_zrsp call_k_f1m1 derive_rpc_cell derive_cell
    si_call_k_async req ctxt w = do
      (p1, w1) ←
          derive_rpc_cell host notify ctxt (codec ik_f1m1.rsp_name k_rsp_in_z) 5000 0 call_k_f1m1 []
            w
      derive_cell host notify ctxt z_struct map_krsp_to_zrsp (p1 ∷ []) w1

    -- `IZ_impl::___z_async_f1m1`.
    unfoldable z_async_f1m1 : V → World V → Run (Option Ptr × World V)
    unfolding run_si si_call_k_async
    z_async_f1m1 req w = do (p, w') ← run_si si_call_k_async req w; ok (some p, w')

    -- The methods of `IZ_impl` by their index.
    unfoldable iz_impl : InterfaceDecl → MethodDecl → V → World V → Run (Option Ptr × World V)
    unfolding z_f1m1 z_async_f1m1
    iz_impl i m = if m.method_index == 1 then z_f1m1 else z_async_f1m1
