-- ===== src/Api.antt =====
-- msgrpc/include/msgrpc/api/: what the macros write for the interfaces of a service, the stub on the
-- caller's side and the table of methods on the service's side.
pub mod Calls
pub mod EndToEnd
use msgrpc.Base.{
  ℕ, ◌%◌, ◌^◌, ◌≡◌, ◌≢◌, Bool, Option, none, some, List, [], ◌∷◌, map, Run, ok, ◌>>=◌, ◌>>◌, assert,
  is_some,
}
use msgrpc.Msg.{Bytes}
use msgrpc.World.{Ptr, World, ThriftStruct, RpcCall}
use msgrpc.Server.{Method, Iface, Repository, add_iface_impl}
use msgrpc.Thrift.{Fields}
use msgrpc.Discovery.Zookeeper.{Zookeeper, Client, register_service}

-- One entry of `___methods_of_interface___…`: the index, and the structs of the response and of the
-- request, each with its name.
pub record MethodDecl : Type 0 where
  pub method_index : ℕ
  pub rsp_name : Bytes
  pub rsp : Fields
  pub req_name : Bytes
  pub req : Fields

-- `___as_interface(iface_name_, iface_id_)` with the methods of the interface.
pub record InterfaceDecl : Type 0 where
  pub iface_id : ℕ
  pub methods : List MethodDecl

-- `___def_service(service_name_, version_)`: `k_name`, `k_version` and the interfaces behind it.
pub record ServiceDecl : Type 0 where
  pub name : Bytes
  pub version : Bytes
  pub interfaces : List InterfaceDecl

-- `codec` is the `write` and `read` of a struct of the macros, by its name and fields.
module _ {V : Type 0} (codec : Bytes → Fields → ThriftStruct V) where
  -- The body of a stub's method, `encode_request_and_send<req, rsp>(k_name, iface_id, index, req)`:
  -- the parameters are an `iface_index_t` and a `method_index_t`.
  abbrev pub stub_call : ServiceDecl → InterfaceDecl → MethodDecl → V → RpcCall V
  stub_call service iface method req = record {
    service_name = service.name;
    iface_index = iface.iface_id % 2 ^ 16;
    method_index = method.method_index % 2 ^ 8;
    request = req;
    req_struct = codec method.req_name method.req;
    rsp_struct = codec method.rsp_name method.rsp;
  }

  -- `onRpcInvoke` of an interface whose methods are `impl`.
  module _ (impl : MethodDecl → V → World V → Run (Option Ptr × World V)) where
    abbrev pub impl_method : MethodDecl → Method V
    impl_method m = record { req_struct = codec m.req_name m.req; method_impl = impl m }

    unfoldable pub impl_methods : List MethodDecl → Iface V
    impl_methods [] = []
    impl_methods (m ∷ ms) = (m.method_index, impl_method m) ∷ impl_methods ms

  -- The global objects whose constructors register the interfaces, in turn.
  unfoldable pub register_interfaces :
      (InterfaceDecl → MethodDecl → V → World V → Run (Option Ptr × World V))
      → List InterfaceDecl
      → Repository V
      → Run (Repository V)
  unfolding impl_methods add_iface_impl
  register_interfaces impl [] m = ok m
  register_interfaces impl (i ∷ is) m = do
    m' ← add_iface_impl i.iface_id (impl_methods (impl i) i.methods) m
    register_interfaces impl is m'

-- `msgrpc_register_service`; `has_register` says that `Config` has a service register, and what that
-- returns is not looked at.
unfoldable pub msgrpc_register_service :
    Zookeeper → ℕ → Bool → ServiceDecl → Option Bytes → Client → Run Client
unfolding register_service
msgrpc_register_service lib rounds has_register service endpoint c = do
  assert has_register
  (registered, c') ←
      register_service lib rounds (some service.name) (some service.version) endpoint c
  ok c'
