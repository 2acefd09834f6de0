-- ===== src/Demo.antt =====
-- demo_services/service_y/src/api/service_y/y_api_interface_impl_define.cpp, demo_services/service_z/
-- src/api/service_z/z_api_interface_impl_define.cpp and demo_services/service_k/src/api/service_k/
-- k_api_interface_impl_define.cpp, with the structs of their .api files (names of fields are left out:
-- the binary protocol does not write them).
pub mod Calls
pub mod TestRunner
pub mod ServiceX
pub mod ServiceZ
use msgrpc.Base.{
  ℕ, ◌*◌, ◌-◌, ◌%◌, ◌^◌, Bool, ◌||◌, ltb, not, assert, ◌>>◌, fault, out_of_fuel, if◌then◌else◌,
  ◌==◌, Option, none, some, List, [], ◌∷◌, Run, ok, ◌>>=◌,
}
use msgrpc.Msg.{Bytes}
use msgrpc.World.{
  Ptr, World, Host, ThriftStruct, cell, plain, View, Decision, leave, give_value, give_failure,
  undefined_behaviour, RpcCall,
}
use msgrpc.World.Store.{alloc_object, new_cell}
use msgrpc.Thrift.{t_i32, t_string, Fields, end, required, optional, Object, default_object}
use msgrpc.Thrift.Objects.{first_required, FieldOf, first_optional, behind_required, set_field}
use msgrpc.Derive.{derive_cell, derive_rpc_cell, run_si}
use msgrpc.Api.{MethodDecl, InterfaceDecl, ServiceDecl, stub_call}

abbrev pub two_numbers : Fields
two_numbers = required 1 [] t_i32 (optional 2 [] t_i32 end)

abbrev pub text_and_number : Fields
text_and_number = required 1 [] t_string (optional 2 [] t_i32 end)

-- YReq, YRsp, ZReq, ZRsp, KReq and KRsp, the last as service_k declares it.
abbrev pub y_req : Fields
y_req = two_numbers

abbrev pub y_rsp : Fields
y_rsp = two_numbers

abbrev pub z_req : Fields
z_req = text_and_number

abbrev pub z_rsp : Fields
z_rsp = two_numbers

abbrev pub k_req : Fields
k_req = text_and_number

abbrev pub k_rsp : Fields
k_rsp = two_numbers

abbrev pub first_number : FieldOf two_numbers t_i32
first_number = first_required

abbrev second_number : FieldOf two_numbers t_i32
second_number = behind_required first_optional

-- Half of the numbers of an `int32_t`, given as their bits: those whose product with 2 is one, too.
abbrev pub can_double : ℕ → Bool
can_double n = ltb n (2 ^ 30) || not (ltb n (2 ^ 32 - 2 ^ 30))

-- The product of an `int32_t` and 2, as its bits. An overflow is undefined in C++, a `fault` here.
unfoldable pub twice : ℕ → Run ℕ
twice n = do assert (can_double n); ok (n * 2 % 2 ^ 32)

-- `rsp.__set_yrspa(req.yreqa * 2)` on a fresh `YRsp`, and the same of a `ZRsp` in `map_zrsp_to_yrsp`.
unfoldable pub f1m1_rsp : Object y_req → Run (Object y_rsp)
unfolding set_field default_object twice
f1m1_rsp (yreqa, rest) = do n ← twice yreqa; ok (set_field first_number n (default_object y_rsp))

unfoldable pub yrsp_of_zrsp : Object z_rsp → Run (Object y_rsp)
unfolding set_field default_object twice
yrsp_of_zrsp (zrspa, rest) = do
  n ← twice zrspa
  ok (set_field first_number n (default_object y_rsp))

-- What a derived cell does with a value that is computed.
abbrev pub give : {A V : Type 0} → (A → V) → Run A → Decision V
give f (ok a) = give_value (f a)
give f fault = undefined_behaviour
give f out_of_fuel = undefined_behaviour

-- The responses of `IZ_impl::___z_f1m1` and `IK_impl::___k_f1m1`, whatever the request is.
unfoldable pub z_f1m1_rsp : Object z_rsp
unfolding set_field default_object
z_f1m1_rsp = set_field first_number 7 (default_object z_rsp)

unfoldable pub k_f1m1_rsp : Object k_rsp
unfolding set_field default_object
k_f1m1_rsp = set_field second_number 2017 (set_field first_number 2016 (default_object k_rsp))

-- `Cell::cell_with_value`.
unfoldable pub cell_with_value :
    {V : Type 0} → ThriftStruct V → V → World V → Run (Option Ptr × World V)
cell_with_value s v w =
    ok (some w.next_ptr, alloc_object (cell (record (new_cell s plain) { value = some v })) w)

-- The interfaces of service_y and service_z that this code uses; "service_y" and "service_z".
abbrev pub iy_f1m1 : MethodDecl
iy_f1m1 = record {
  method_index = 1;
  rsp_name = 89 ∷ 82 ∷ 115 ∷ 112 ∷ [];
  rsp = y_rsp;
  req_name = 89 ∷ 82 ∷ 101 ∷ 113 ∷ [];
  req = y_req;
}

abbrev pub iy_async_f1m2 : MethodDecl
iy_async_f1m2 = record iy_f1m1 { method_index = 2 }

abbrev pub iy : InterfaceDecl
iy = record { iface_id = 2; methods = iy_f1m1 ∷ iy_async_f1m2 ∷ [] }

abbrev pub service_y : ServiceDecl
service_y = record {
  name = 115 ∷ 101 ∷ 114 ∷ 118 ∷ 105 ∷ 99 ∷ 101 ∷ 95 ∷ 121 ∷ [];
  version = 49 ∷ 46 ∷ 48 ∷ 46 ∷ 48 ∷ [];
  interfaces = iy ∷ [];
}

abbrev pub iz_f1m1 : MethodDecl
iz_f1m1 = record {
  method_index = 1;
  rsp_name = 90 ∷ 82 ∷ 115 ∷ 112 ∷ [];
  rsp = z_rsp;
  req_name = 90 ∷ 82 ∷ 101 ∷ 113 ∷ [];
  req = z_req;
}

abbrev pub iz : InterfaceDecl
iz = record { iface_id = 1; methods = iz_f1m1 ∷ [] }

abbrev pub service_z : ServiceDecl
service_z = record {
  name = 115 ∷ 101 ∷ 114 ∷ 118 ∷ 105 ∷ 99 ∷ 101 ∷ 95 ∷ 122 ∷ [];
  version = 49 ∷ 46 ∷ 48 ∷ 46 ∷ 48 ∷ [];
  interfaces = iz ∷ [];
}

-- `codec` reads and writes the structs; the functions between values and objects say how the
-- objects of the structs stand among the values of cells.
module _ {V : Type 0} (codec : Bytes → Fields → ThriftStruct V) (of_y_rsp : Object y_rsp → V)
    (to_y_req : V → Option (Object y_req)) (of_z_req : Object z_req → V)
    (to_z_rsp : V → Option (Object z_rsp)) where
  -- `map_zrsp_to_yrsp`, bound to the one cell of the call. A value of another struct has no type in C++.
  unfoldable pub map_zrsp_to_yrsp : List (View V) → Decision V
  unfolding yrsp_of_zrsp
  map_zrsp_to_yrsp [] = leave
  map_zrsp_to_yrsp (zrsp ∷ others) = elim zrsp.value [
    | none ↦ give_failure zrsp.status
    | some v ↦ elim (to_z_rsp v) [ none ↦ leave | some z ↦ give of_y_rsp (yrsp_of_zrsp z) ]
  ]

  abbrev pub y_struct : ThriftStruct V
  y_struct = codec iy_f1m1.rsp_name y_rsp

  -- `IY_impl::___f1m1`.
  unfoldable pub f1m1 : V → World V → Run (Option Ptr × World V)
  unfolding cell_with_value f1m1_rsp
  f1m1 req w = elim (to_y_req req) [
    | none ↦ ok (none, w)
    | some o ↦ (do rsp ← f1m1_rsp o; cell_with_value y_struct (of_y_rsp rsp) w)
  ]

  -- The call that `call_z_f1m1` makes, with a fresh `ZReq`.
  unfoldable pub call_z_f1m1 : List (View V) → Option (RpcCall V)
  unfolding default_object
  call_z_f1m1 views = some (stub_call codec service_z iz iz_f1m1 (of_z_req (default_object z_req)))

  module _ (host : Host V) (notify : Ptr → World V → Run (World V)) where
    -- `SI_call_z_async`; the request is captured and not used.
    unfoldable pub si_call_z_async : V → Ptr → World V → Run (Ptr × World V)
    unfolding map_zrsp_to_yrsp call_z_f1m1 derive_rpc_cell derive_cell
    si_call_z_async req ctxt w = do
      (p1, w1) ←
          derive_rpc_cell host notify ctxt (codec iz_f1m1.rsp_name z_rsp) 5000 0 call_z_f1m1 [] w
      derive_cell host notify ctxt y_struct map_zrsp_to_yrsp (p1 ∷ []) w1

    -- `IY_impl::____async_f1m2`.
    unfoldable pub async_f1m2 : V → World V → Run (Option Ptr × World V)
    unfolding run_si si_call_z_async
    async_f1m2 req w = do (p, w') ← run_si si_call_z_async req w; ok (some p, w')

    -- The methods of `IY_impl`; the interface has no others.
    unfoldable pub iy_impl : InterfaceDecl → MethodDecl → V → World V → Run (Option Ptr × World V)
    unfolding f1m1 async_f1m2
    iy_impl i m = if m.method_index == 1 then f1m1 else async_f1m2
