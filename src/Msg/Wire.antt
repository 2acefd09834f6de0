-- ===== src/Msg/Wire.antt =====
-- The bytes of the headers of types.h, as the casts between `char*` and header pointers see them.
pub mod Laws
use msgrpc.Base.{ℕ, ◌+◌, ◌*◌, ◌/◌, ◌%◌, ◌^◌, ◌<◌, ◌≡◌, ◌∷◌, Option, none, some, if◌then◌else◌, ◌==◌}
use msgrpc.Msg.{
  RpcResult, succeeded, failed, timeout, iface_not_found, method_not_found, other, result_code,
  MsgHeader, RspMsgHeader, Bytes,
}

-- sizeof(ReqMsgHeader) and sizeof(RspMsgHeader).
abbrev pub sizeof_req_header : ℕ
sizeof_req_header = 8

abbrev pub sizeof_rsp_header : ℕ
sizeof_rsp_header = 12

put_u16 : ℕ → Bytes → Bytes
put_u16 n rest = (n % 256) ∷ (n / 256 % 256) ∷ rest

put_u32 : ℕ → Bytes → Bytes
put_u32 n rest = (n % 256) ∷ (n / 256 % 256) ∷ (n / 65536 % 256) ∷ (n / 16777216 % 256) ∷ rest

unfoldable pub put_header : MsgHeader → Bytes → Bytes
unfolding put_u16 put_u32
put_header h rest =
    (h.msgrpc_version % 256)
    ∷ (h.method_index_in_interface % 256)
    ∷ put_u16 h.iface_index_in_service (put_u32 h.sequence_id rest)

-- Two bytes of padding close the struct; their contents are left open, and are 0 here.
unfoldable pub put_rsp_header : RspMsgHeader → Bytes → Bytes
unfolding put_header
put_rsp_header h rest = put_header h.header (put_u16 (result_code h.rpc_result) (0 ∷ 0 ∷ rest))

-- A cast of `msg` to a header pointer, and `msg + sizeof(header)`: none where the bytes end early.
unfoldable pub get_header : Bytes → Option (MsgHeader × Bytes)
get_header (v ∷ m ∷ i0 ∷ i1 ∷ s0 ∷ s1 ∷ s2 ∷ s3 ∷ rest) = some (
  record {
    msgrpc_version = v;
    method_index_in_interface = m;
    iface_index_in_service = i0 + 256 * i1;
    sequence_id = s0 + 256 * s1 + 65536 * s2 + 16777216 * s3;
  },
  rest,
)
get_header _ = none

unfoldable pub result_of_code : ℕ → RpcResult
result_of_code c =
    if c == 0
    then succeeded
    else if c == 1
    then failed
    else if c == 2
    then timeout
    else if c == 3
    then iface_not_found
    else if c == 4
    then method_not_found
    else other c

get_result : MsgHeader → Bytes → Option (RspMsgHeader × Bytes)
unfolding result_of_code
get_result h (r0 ∷ r1 ∷ p0 ∷ p1 ∷ rest) =
    some (record { header = h; rpc_result = result_of_code (r0 + 256 * r1) }, rest)
get_result h _ = none

unfoldable pub get_rsp_header : Bytes → Option (RspMsgHeader × Bytes)
unfolding get_header get_result
get_rsp_header bytes = elim (get_header bytes) [ none ↦ none | some (h, rest) ↦ get_result h rest ]

-- The ranges of the fields: uint8_t, uint8_t, uint16_t, uint32_t.
pub record Fits (h : MsgHeader) : Type 0 where
  pub version : h.msgrpc_version < 2 ^ 8
  pub method : h.method_index_in_interface < 2 ^ 8
  pub iface : h.iface_index_in_service < 2 ^ 16
  pub seq : h.sequence_id < 2 ^ 32

-- A result without an enumerator has a value that no enumerator has, and fits an `unsigned short`.
abbrev pub IsCanonical : RpcResult → Type 0
IsCanonical succeeded = Unit
IsCanonical failed = Unit
IsCanonical timeout = Unit
IsCanonical iface_not_found = Unit
IsCanonical method_not_found = Unit
IsCanonical (other c) = (4 < c) × (c < 2 ^ 16)
