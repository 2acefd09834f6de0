-- ===== src/Msg/Wire/Laws.antt =====
-- Headers survive the copy through the bytes of a message; too few bytes are no header.
use msgrpc.Base.{ℕ, ◌+◌, ◌*◌, ◌/◌, ◌%◌, ◌^◌, ◌≤◌, ◌<◌, ◌≡◌, refl, ◌∷◌, some, arith, length}
use msgrpc.Msg.{
  MsgHeader, RspMsgHeader, Bytes, result_code, RpcResult, succeeded, failed, timeout,
  iface_not_found, method_not_found, other,
}
use msgrpc.Msg.Wire.{
  put_u16, put_header, put_rsp_header, get_header, get_rsp_header, Fits, IsCanonical,
  result_of_code, sizeof_req_header, sizeof_rsp_header,
}

u16_bytes : (n : ℕ) → n < 2 ^ 16 → n % 256 + 256 * (n / 256 % 256) ≡ n
u16_bytes n h = omega arith

u32_bytes :
    (n : ℕ)
    → n < 2 ^ 32
    → n % 256 + 256 * (n / 256 % 256) + 65536 * (n / 65536 % 256) + 16777216 * (n / 16777216 % 256)
      ≡ n
u32_bytes n h = omega arith

-- A header whose fields are in range is read back from its bytes, with the payload behind it.
pub get_header-put_header :
    (h : MsgHeader) (payload : Bytes)
    → Fits h
    → get_header (put_header h payload) ≡ some (h, payload)
unfolding get_header put_header
get_header-put_header h payload f =
    ground (arith, u16_bytes h.iface_index_in_service, u32_bytes h.sequence_id)

-- The value of a result says which result it is.
result_code-bound : (r : RpcResult) → IsCanonical r → result_code r < 2 ^ 16
result_code-bound succeeded c = omega arith
result_code-bound failed c = omega arith
result_code-bound timeout c = omega arith
result_code-bound iface_not_found c = omega arith
result_code-bound method_not_found c = omega arith
result_code-bound (other n) c = c.1

result_of_code-result_code : (r : RpcResult) → IsCanonical r → result_of_code (result_code r) ≡ r
unfolding result_of_code
result_of_code-result_code succeeded c = refl
result_of_code-result_code failed c = refl
result_of_code-result_code timeout c = refl
result_of_code-result_code iface_not_found c = refl
result_of_code-result_code method_not_found c = refl
result_of_code-result_code (other n) (large, small) = ground arith

-- A response header is read back as well, with its result code.
pub get_rsp_header-put_rsp_header :
    (h : RspMsgHeader) (payload : Bytes)
    → Fits h.header
    → IsCanonical h.rpc_result
    → get_rsp_header (put_rsp_header h payload) ≡ some (h, payload)
unfolding get_rsp_header put_rsp_header put_u16
get_rsp_header-put_rsp_header h payload f c = ground (
  arith,
  u16_bytes (result_code h.rpc_result),
  result_code-bound h.rpc_result c,
  result_of_code-result_code h.rpc_result c,
  u16_bytes h.header.iface_index_in_service,
  u32_bytes h.header.sequence_id,
)

pub length-put_header :
    (h : MsgHeader) (payload : Bytes)
    → length (put_header h payload) ≡ sizeof_req_header + length payload
unfolding put_header
length-put_header h payload = omega arith

pub length-put_rsp_header :
    (h : RspMsgHeader) (payload : Bytes)
    → length (put_rsp_header h payload) ≡ sizeof_rsp_header + length payload
unfolding put_rsp_header
length-put_rsp_header h payload = omega arith

-- Enough bytes make a header.
pub get_header-enough :
    (bytes : Bytes)
    → sizeof_req_header ≤ length bytes
    → (h : MsgHeader) × (rest : Bytes) × (get_header bytes ≡ some (h, rest))
      × (length bytes ≡ sizeof_req_header + length rest)
unfolding get_header
get_header-enough (v ∷ m ∷ i0 ∷ i1 ∷ s0 ∷ s1 ∷ s2 ∷ s3 ∷ rest) e = (_, rest, refl, omega arith)
get_header-enough _ e = absurd (omega arith)

pub get_rsp_header-enough :
    (bytes : Bytes)
    → sizeof_rsp_header ≤ length bytes
    → (h : RspMsgHeader) × (rest : Bytes) × (get_rsp_header bytes ≡ some (h, rest))
unfolding get_rsp_header
get_rsp_header-enough (v ∷ m ∷ i0 ∷ i1 ∷ s0 ∷ s1 ∷ s2 ∷ s3 ∷ r0 ∷ r1 ∷ p0 ∷ p1 ∷ rest) e =
    (_, rest, refl)
get_rsp_header-enough _ e = absurd (omega arith)
