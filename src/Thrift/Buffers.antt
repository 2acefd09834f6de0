-- ===== src/Thrift/Buffers.antt =====
-- thrift/thrift_codec.h: ThriftEncoder and ThriftDecoder, the objects of a thread that every call of the
-- thread encodes and decodes with, each on a memory buffer and a protocol that it keeps.
pub mod Reference
use msgrpc.Base.{
  ℕ, ◌+◌, Bool, true, false, ◌||◌, Option, none, some, List, [], ◌∷◌, length, if◌then◌else◌, ltb,
}
use msgrpc.Msg.{Bytes}
use msgrpc.World.{ThriftStruct}

-- Apache Thrift's `TMemoryBuffer`: `resetBuffer()`, `resetBuffer(size)`, `resetBuffer(buf, len, OBSERVE)`,
-- what a write appends, `getBuffer`, and `defaultSize`.
pub record MemoryBuffer (B : Type 0) : Type 0 where
  pub reset_buffer : B → B
  pub reset_buffer_to : (size : ℕ) → B → B
  pub observe : Bytes → B → B
  pub append : Bytes → B → B
  pub get_buffer : B → Bytes
  pub default_size : ℕ

-- `output_depth` and `input_depth` are what the trackers of recursion have counted in `protocol_`: a
-- tracker that throws when it is made has counted, and is not there to count back.
pub record ThriftEncoder (B : Type 0) : Type 0 where
  pub mem_buf : B
  pub output_depth : ℕ
  pub should_reset_to_default_size : Bool

pub record ThriftDecoder (B : Type 0) : Type 0 where
  pub mem_buf : B
  pub input_depth : ℕ

unfoldable pub reset : {B : Type 0} → MemoryBuffer B → ThriftEncoder B → B
reset lib e =
    if e.should_reset_to_default_size
    then lib.reset_buffer_to lib.default_size e.mem_buf
    else lib.reset_buffer e.mem_buf

-- A struct's `write` and `read` on a protocol whose trackers have counted so far.
abbrev pub StructAt : Type 0 → Type 0
StructAt V = (depth : ℕ) → ThriftStruct V

-- What an exception leaves behind: what was written before it, and how many trackers have counted and
-- will not count back.
pub record Thrown : Type 0 where
  pub partial : Bytes
  pub raised : ℕ

module _ {B V : Type 0} (lib : MemoryBuffer B) where
  -- `___struct.write(protocol_.get())`; before an exception it has written `partial`. Whether it threw
  -- none, and the buffer.
  unfoldable pub write_struct : ThriftStruct V → (partial : Bytes) → V → B → Bool × B
  write_struct s partial v b = elim (s.write v) [
    | none ↦ (false, lib.append partial b)
    | some bytes ↦ (true, lib.append bytes b)
  ]

  -- `ThriftEncoder::do_encode`: the buffer that it gives where it returns true.
  unfoldable pub do_encode :
      StructAt V → Thrown → V → ThriftEncoder B → Option Bytes × ThriftEncoder B
  unfolding write_struct reset
  do_encode s thrown v e =
      let (done, b) = write_struct (s e.output_depth) thrown.partial v (reset lib e) in
      let bytes = lib.get_buffer b in
      if done
      then (
        if ltb 0 (length bytes) then some bytes else none,
        record e {
          mem_buf = b;
          should_reset_to_default_size =
              ltb lib.default_size (length bytes) || e.should_reset_to_default_size;
        },
      )
      else (none, record e { mem_buf = b; output_depth = e.output_depth + thrown.raised })

  -- `ThriftDecoder::decode`, What the read leaves in the buffer is not looked at again.
  unfoldable pub do_decode :
      StructAt V → (raised : ℕ) → Bytes → ThriftDecoder B → Option V × ThriftDecoder B
  do_decode s raised bytes d =
      let b = lib.observe bytes d.mem_buf in
      elim ((s d.input_depth).read (lib.get_buffer b)) [
        | none ↦ (none, record { mem_buf = b; input_depth = d.input_depth + raised })
        | some (v, count) ↦ (if ltb 0 count then some v else none, record d { mem_buf = b })
      ]

-- The calls of one thread, with what an exception would leave behind, and what they give.
pub data CodecCall (V : Type 0) : Type 0 where
  encode_call : StructAt V → Thrown → V → CodecCall V
  decode_call : StructAt V → (raised : ℕ) → Bytes → CodecCall V

pub data CodecResult (V : Type 0) : Type 0 where
  encoded : Option Bytes → CodecResult V
  decoded : Option V → CodecResult V

module _ {B V : Type 0} (lib : MemoryBuffer B) where
  unfoldable pub run_calls :
      List (CodecCall V) → ThriftEncoder B → ThriftDecoder B → List (CodecResult V)
  unfolding do_encode do_decode
  run_calls [] e d = []
  run_calls (encode_call s thrown v ∷ calls) e d =
      let (r, e') = do_encode lib s thrown v e in encoded r ∷ run_calls calls e' d
  run_calls (decode_call s raised bytes ∷ calls) e d =
      let (r, d') = do_decode lib s raised bytes d in decoded r ∷ run_calls calls e d'
