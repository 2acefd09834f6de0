-- ===== src/Thrift/Buffers/Reference.antt =====
-- What the encoder and the decoder of a thread keep from call to call.
use msgrpc.Base.{
  Option, none, some, ◌+◌, ◌≡◌, refl, inl, inr, Bool-cases, Option-cases, List, [], ◌∷◌, ◌++◌, ℕ,
}
use msgrpc.Msg.{Bytes}
use msgrpc.Cell.{encode, decode}
use msgrpc.Thrift.Buffers.{
  MemoryBuffer, ThriftEncoder, ThriftDecoder, StructAt, Thrown, write_struct, reset, do_encode,
  do_decode, CodecCall, encode_call, decode_call, CodecResult, encoded, decoded, run_calls,
}

-- A reset empties the buffer, observed bytes are its content, and a write goes to the end.
pub record IsBuffer {B : Type 0} (lib : MemoryBuffer B) : Type 0 where
  pub reset_empties : (b : B) → lib.get_buffer (lib.reset_buffer b) ≡ []
  pub reset_to_empties : (n : ℕ) (b : B) → lib.get_buffer (lib.reset_buffer_to n b) ≡ []
  pub observe_shows : (bs : Bytes) (b : B) → lib.get_buffer (lib.observe bs b) ≡ bs
  pub append_appends :
      (bs : Bytes) (b : B) → lib.get_buffer (lib.append bs b) ≡ lib.get_buffer b ++ bs

-- A call that throws raises the count.
abbrev pub counted : {A : Type 0} → Option A → (raised depth : ℕ) → ℕ
counted none raised depth = depth + raised
counted (some a) raised depth = depth

-- What the calls give without any buffer: `encode` and `decode` of each call alone, at the counts of
-- the two protocols' trackers, which only an exception changes.
unfoldable pub reference : {V : Type 0} → List (CodecCall V) → (out in_ : ℕ) → List (CodecResult V)
reference [] out in_ = []
reference (encode_call s thrown v ∷ calls) out in_ =
    encoded (encode (s out) v) ∷ reference calls (counted ((s out).write v) thrown.raised out) in_
reference (decode_call s raised bytes ∷ calls) out in_ =
    decoded (decode (s in_) bytes) ∷ reference calls out (counted ((s in_).read bytes) raised in_)

reset-empty :
    {B : Type 0} (lib : MemoryBuffer B)
    → IsBuffer lib
    → (e : ThriftEncoder B) → lib.get_buffer (reset lib e) ≡ []
unfolding reset
reset-empty lib is_buffer e = elim (Bool-cases e.should_reset_to_default_size) [
  | inl large ↦ rw (reset, large) (is_buffer.reset_to_empties lib.default_size e.mem_buf)
  | inr small ↦ rw (reset, small) (is_buffer.reset_empties e.mem_buf)
]

module _ {B V : Type 0} (lib : MemoryBuffer B) (is_buffer : IsBuffer lib) where
  do_encode-encode :
      (s : StructAt V) (thrown : Thrown) (v : V) (e : ThriftEncoder B)
      → ((do_encode lib s thrown v e).0 ≡ encode (s e.output_depth) v)
        × ((do_encode lib s thrown v e).1.output_depth
            ≡ counted ((s e.output_depth).write v) thrown.raised e.output_depth)
  unfolding do_encode write_struct encode
  do_encode-encode s thrown v e = elim (Option-cases ((s e.output_depth).write v)) [
    | inl failed ↦ (
      rw (encode, do_encode, write_struct, failed) refl,
      rw (do_encode, write_struct, failed) refl,
    )
    | inr (bytes, written) ↦ (
      rw (encode, do_encode, write_struct, written)
          (rw (is_buffer.append_appends bytes (reset lib e), reset-empty lib is_buffer e) refl),
      rw (do_encode, write_struct, written) refl,
    )
  ]

  do_decode-decode :
      (s : StructAt V) (raised : ℕ) (bytes : Bytes) (d : ThriftDecoder B)
      → ((do_decode lib s raised bytes d).0 ≡ decode (s d.input_depth) bytes)
        × ((do_decode lib s raised bytes d).1.input_depth
            ≡ counted ((s d.input_depth).read bytes) raised d.input_depth)
  unfolding do_decode decode
  do_decode-decode s raised bytes d = elim (Option-cases ((s d.input_depth).read bytes)) [
    | inl failed ↦ (
      rw (decode, do_decode, is_buffer.observe_shows bytes d.mem_buf, failed) refl,
      rw (do_decode, is_buffer.observe_shows bytes d.mem_buf, failed) refl,
    )
    | inr (r, done) ↦ (
      rw (decode, do_decode, is_buffer.observe_shows bytes d.mem_buf, done) refl,
      rw (do_decode, is_buffer.observe_shows bytes d.mem_buf, done) refl,
    )
  ]

  -- Whatever a thread encoded and decoded before: each call gives what `encode` and `decode` give for
  -- it alone, at the counts of the trackers of recursion, which only an exception raises; nothing else
  -- is left of the calls before. A reset empties the memory buffer, bytes that it observes are its
  -- content, and a write goes to its end.
  pub run_calls-reference :
      (calls : List (CodecCall V)) (e : ThriftEncoder B) (d : ThriftDecoder B)
      → run_calls lib calls e d ≡ reference calls e.output_depth d.input_depth
  unfolding run_calls reference
  run_calls-reference [] e d = refl
  run_calls-reference (encode_call s thrown v ∷ calls) e d =
      let (same, depth) = do_encode-encode s thrown v e in
      rw (same, run_calls-reference calls (do_encode lib s thrown v e).1 d, depth) refl
  run_calls-reference (decode_call s raised bytes ∷ calls) e d =
      let (same, depth) = do_decode-decode s raised bytes d in
      rw (same, run_calls-reference calls e (do_decode lib s raised bytes d).1, depth) refl
