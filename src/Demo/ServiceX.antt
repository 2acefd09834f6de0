-- ===== src/Demo/ServiceX.antt =====
-- demo_services/service_x/src/service_x_main.cpp: the interactions that its test cases run.
use msgrpc.Base.{ℕ, Option, some, List, [], Run}
use msgrpc.Msg.{Bytes}
use msgrpc.World.{Ptr, World, Host, ThriftStruct, View, RpcCall}
use msgrpc.Thrift.{Fields}
use msgrpc.Derive.{derive_rpc_cell}
use msgrpc.Api.{InterfaceDecl, MethodDecl, ServiceDecl, stub_call}
use msgrpc.Demo.{iy, iy_f1m1, iy_async_f1m2, iz, iz_f1m1, service_y, service_z}

module _ {V : Type 0} (codec : Bytes → Fields → ThriftStruct V) where
  -- A function that captures its request and calls a method of a stub.
  abbrev call_method :
      ServiceDecl → InterfaceDecl → MethodDecl → V → List (View V) → Option (RpcCall V)
  call_method s i m req views = some (stub_call codec s i m req)

  module _ (host : Host V) (notify : Ptr → World V → Run (World V)) where
    -- `___rpc(___ms(limit), …)` on a method of a stub: no retry, and no cell to wait for.
    abbrev rpc_with_limit :
        ServiceDecl → InterfaceDecl → MethodDecl → ℕ → V → Ptr → World V → Run (Ptr × World V)
    rpc_with_limit s i m limit req ctxt w =
        derive_rpc_cell host notify ctxt (codec m.rsp_name m.rsp) limit 0 (call_method s i m req) []
          w

    abbrev si_call_y_f1m1 : V → Ptr → World V → Run (Ptr × World V)
    si_call_y_f1m1 = rpc_with_limit service_y iy iy_f1m1 10

    abbrev si_call_z_f1m1 : V → Ptr → World V → Run (Ptr × World V)
    si_call_z_f1m1 = rpc_with_limit service_z iz iz_f1m1 10

    abbrev si_call_y_async_f1m2 : V → Ptr → World V → Run (Ptr × World V)
    si_call_y_async_f1m2 = rpc_with_limit service_y iy iy_async_f1m2 10000
