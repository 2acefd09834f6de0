-- ===== src/Msg.antt =====
-- rpc_result.h, types.h: result codes and message headers, and the bytes in which a header travels.
-- The code sends a header by copying the struct: the layout is that of a little-endian host,
-- with the natural alignment (8 bytes of common fields; then the result and two bytes of padding).
pub mod Wire
use msgrpc.Base.{ℕ, Bool, true, false, List}

pub data RpcResult : Type 0 where
  succeeded failed timeout iface_not_found method_not_found : RpcResult
  -- Any other value of the underlying `unsigned short`, as a peer may send it.
  other : ℕ → RpcResult

-- The enumeration's underlying values.
abbrev pub result_code : RpcResult → ℕ
result_code succeeded = 0
result_code failed = 1
result_code timeout = 2
result_code iface_not_found = 3
result_code method_not_found = 4
result_code (other c) = c

abbrev pub is_succeeded : RpcResult → Bool
is_succeeded succeeded = true
is_succeeded _ = false

abbrev pub is_timeout_result : RpcResult → Bool
is_timeout_result timeout = true
is_timeout_result _ = false

abbrev pub k_invalid_rpc_sequence_id : ℕ
k_invalid_rpc_sequence_id = 0

pub record MsgHeader : Type 0 where
  pub msgrpc_version : ℕ
  pub method_index_in_interface : ℕ
  pub iface_index_in_service : ℕ
  pub sequence_id : ℕ

-- `ReqMsgHeader` adds no field.
abbrev pub ReqMsgHeader : Type 0
ReqMsgHeader = MsgHeader

pub record RspMsgHeader : Type 0 where
  pub header : MsgHeader
  pub rpc_result : RpcResult

abbrev pub Bytes : Type 0
Bytes = List ℕ

-- A `udp::endpoint`: address and port.
abbrev pub ServiceId : Type 0
ServiceId = ℕ × ℕ

-- What `MsgChannel::send_msg` is called with.
pub record Packet : Type 0 where
  pub to : ServiceId
  pub msg_id : ℕ
  pub buf : Bytes
