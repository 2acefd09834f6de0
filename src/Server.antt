-- ===== src/Server.antt =====
-- core/iface_impl/ (iface_repository.cpp, iface_impl_base_t.h), api/api_interface_impl_define.h and
-- core/msg/msg_handlers/req_msg_handler.cpp: a request finds its method, and its caller is answered.
pub mod Requests
use msgrpc.Base.{
  ℕ, zero, suc, ◌+◌, Bool, true, false, not, Option, none, some, List, [], ◌∷◌, Run, ok, fault,
  ◌>>=◌, ◌>>◌, assert, is_some, if◌then◌else◌, ◌==◌, ltb, length,
}
use msgrpc.Msg.{
  RpcResult, succeeded, failed, timeout, iface_not_found, method_not_found, other, MsgHeader,
  ReqMsgHeader, RspMsgHeader, ServiceId, Bytes, Packet,
}
use msgrpc.Msg.Wire.{get_header, sizeof_req_header}
use msgrpc.World.{Ptr, World, Host, ThriftStruct}
use msgrpc.World.Store.{update, get_cell, sent_packet}
use msgrpc.Cell.{has_value, decode}
use msgrpc.Destroy.{destroy}
use msgrpc.Notify.{response, send_msg_with_header, send_rsp_cell_value, notify}
use msgrpc.Derive.{derive_final_action}

-- One method of an interface: how its request is read, and the code that a service supplies,
-- which returns a cell or a null pointer.
pub record Method (V : Type 0) : Type 0 where
  pub req_struct : ThriftStruct V
  pub method_impl : V → World V → Run (Option Ptr × World V)

-- The methods of `___methods_of_interface___…` with their indices, in order.
abbrev pub Iface : Type 0 → Type 0
Iface V = List (ℕ × Method V)

abbrev pub Repository : Type 0 → Type 0
Repository V = ℕ → Option (Iface V)

-- The header of a response starts as a copy of the request's.
abbrev pub response_header : ReqMsgHeader → RpcResult → RspMsgHeader
response_header h r = record { header = h; rpc_result = r }

module _ {V : Type 0} where
  -- `IfaceRepository::add_iface_impl`: an index is registered once.
  unfoldable pub add_iface_impl : ℕ → Iface V → Repository V → Run (Repository V)
  add_iface_impl ii iface m = do assert (not (is_some (m ii))); ok (update m ii (some iface))

  abbrev pub get_iface_impl_by : ℕ → Repository V → Option (Iface V)
  get_iface_impl_by ii m = m ii

  -- The chain of `if (method_index_in_interface_ == index) … else`.
  unfoldable pub find_method : ℕ → Iface V → Option (Method V)
  find_method index [] = none
  find_method index ((i, m) ∷ ms) = if index == i then some m else find_method index ms

-- `fuel` bounds the depth of updates and of nested contexts.
module _ {V : Type 0} (host : Host V) (fuel : ℕ) where
  -- `invoke_templated_method` behind the call of the method.
  unfoldable pub answer :
      ServiceId → RspMsgHeader → Option Ptr × World V → Run (RpcResult × World V)
  answer id h (none, w) = ok (failed, w)
  answer id h (some p, w) = do
    c ← get_cell p w
    if has_value c
        then (do
          let (ret, w1) = send_rsp_cell_value host id h c w
          w2 ← destroy fuel p w1
          ok (ret, w2))
        else (do w1 ← derive_final_action host (notify host fuel) id h p w; ok (succeeded, w1))

  unfoldable pub invoke_templated_method :
      Method V → Bytes → ServiceId → RspMsgHeader → World V → Run (RpcResult × World V)
  invoke_templated_method m payload id h w = elim (decode m.req_struct payload) [
    | none ↦ ok (failed, w)
    | some req ↦ (do r ← m.method_impl req w; answer id h r)
  ]

  -- `rsp_header` is an argument by reference: the result has its new value too.
  unfoldable pub on_rpc_invoke :
      Iface V
      → ReqMsgHeader
      → Bytes
      → RspMsgHeader
      → ServiceId
      → World V
      → Run (RpcResult × RspMsgHeader × World V)
  on_rpc_invoke iface req payload h id w = elim (find_method req.method_index_in_interface iface) [
    | none ↦ ok (method_not_found, record h { rpc_result = method_not_found }, w)
    | some m ↦ (do
      (ret, w') ← invoke_templated_method m payload id h w
      ok (ret, elim ret [ failed ↦ record h { rpc_result = failed } | _ ↦ h ], w'))
  ]

  abbrev pub send_header : ServiceId → RspMsgHeader → World V → World V
  send_header id h w = sent_packet (response host id h []) w

  -- The end of `on_rpc_req_msg`: a call that failed is answered by a bare header.
  abbrev pub answer_failure : ServiceId → RpcResult × RspMsgHeader × World V → World V
  answer_failure id (failed, h, w) = send_msg_with_header host id h [] w
  answer_failure id (method_not_found, h, w) = send_msg_with_header host id h [] w
  answer_failure id (_, h, w) = w

  -- `on_rpc_req_msg` behind its checks.
  unfoldable pub dispatch :
      Repository V → ReqMsgHeader → Bytes → ServiceId → World V → Run (World V)
  dispatch repository req payload id w =
      elim (get_iface_impl_by req.iface_index_in_service repository) [
        | none ↦ ok (send_header id (response_header req iface_not_found) w)
        | some iface ↦ (do
          r ← on_rpc_invoke iface req payload (response_header req succeeded) id w
          ok (answer_failure id r))
      ]

  unfoldable pub on_rpc_req_msg : Repository V → ℕ → Bytes → ServiceId → World V → Run (World V)
  on_rpc_req_msg repository msg_id msg id w = do
    assert (msg_id == host.ids.request_msg_id)
    if ltb (length msg) sizeof_req_header then ok w else elim (get_header msg) [
      | none ↦ ok w
      | some (req, payload) ↦ dispatch repository req payload id w
    ]
