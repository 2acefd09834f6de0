-- ===== src/Thrift/Structs.antt =====
-- A struct type of the macros as the rest of the library uses it, with `ThriftEncoder` and
-- `ThriftDecoder` of thrift/thrift_codec.h.
use msgrpc.Base.{
  ℕ, ◌%◌, ◌^◌, ◌<◌, ◌≡◌, ap, ◌∙◌, Bool, Option, none, some, [], Run, ok, fault, out_of_fuel, length,
  arith, append-nil,
}
use msgrpc.Msg.{Bytes}
use msgrpc.World.{ThriftStruct}
use msgrpc.Cell.{encode, decode}
use msgrpc.Thrift.{TypeT, t_struct, Fields, Value, Object, default_object, default}
use msgrpc.Thrift.Protocol.{Protocol}
use msgrpc.Thrift.Protocol.Laws.{Lawful}
use msgrpc.Thrift.Codec.{write, read}
use msgrpc.Thrift.Codec.Writable.{AreFields, AreWritable}
use msgrpc.Thrift.Codec.RoundTrip.{read-write}

abbrev pub to_option : Run Bytes → Option Bytes
to_option (ok bs) = some bs
to_option fault = none
to_option out_of_fuel = none

to_option-eq-some : (r : Run Bytes) {bs : Bytes} → to_option r ≡ some bs → r ≡ ok bs
to_option-eq-some (ok x) e = cc
to_option-eq-some fault e = cc
to_option-eq-some out_of_fuel e = cc

encode-eq-some :
    {V : Type 0} (s : ThriftStruct V) (v : V) {bs : Bytes}
    → encode s v ≡ some bs
    → (s.write v ≡ some bs) × (0 < length bs)
unfolding encode
encode-eq-some s v e = ground arith

decode-eq-some :
    {V : Type 0} (s : ThriftStruct V) (bs : Bytes) {v : V} {n : ℕ}
    → s.read bs ≡ some (v, n)
    → 0 < n
    → decode s bs ≡ some v
unfolding decode
decode-eq-some s bs e long = ground arith

module _ {V : Type 0} (p : Protocol) (less : (t : TypeT) → Value t → Value t → Bool) (name : Bytes)
    (fs : Fields) (embed : Object fs → V) (project : V → Option (Object fs)) where
  abbrev pub read_result : Run (Object fs × ℕ × Bytes) → Option (V × ℕ)
  read_result (ok (o, n, rest)) = some (embed o, n)
  read_result fault = none
  read_result out_of_fuel = none

  -- The `write` and the `read` of a struct. A cell holds values of one type for all structs: `embed`
  -- and `project` find the objects of this struct among them.
  unfoldable pub struct_codec : ThriftStruct V
  struct_codec = record {
    write =
        λ v. elim (project v) [ none ↦ none | some o ↦ to_option (write p (t_struct name fs) 0 o) ];
    read = λ bs. read_result (read p less (t_struct name fs) 0 (default_object fs) bs);
  }

  -- An object that encode turns into fewer than 2^32 bytes is what decode gives for these bytes, over a
  -- protocol that reads back what it writes, if the ids of the fields differ and are below 2^15, and
  -- the object can be written: its numbers in range, its sets and maps in order and shorter than
  -- 2^31, its unset fields at their defaults.
  pub decode-encode :
      Lawful p
      → AreFields fs
      → (v : V) (o : Object fs) (bs : Bytes) → project v ≡ some o
      → embed o ≡ v
      → AreWritable less fs o
      → length bs < 2 ^ 32
      → encode struct_codec v ≡ some bs
      → decode struct_codec bs ≡ some v
  unfolding struct_codec default
  decode-encode lawful form v o bs there back ok_o small e =
      let (written, long) = encode-eq-some struct_codec v e in
      let out : write p (t_struct name fs) 0 o ≡ ok bs =
        to_option-eq-some _ (rw there at written) in
      let back_again : read p less (t_struct name fs) 0 (default_object fs) bs
          ≡ ok (o, length bs % 2 ^ 32, []) =
        rw (append-nil bs) at
          (read-write p lawful less (t_struct name fs) 0 o bs [] form ok_o out) in
      let counted : 0 < length bs % 2 ^ 32 = omega arith in
      decode-eq-some struct_codec bs
        (ap read_result back_again ∙ ap (λ x. some (x, length bs % 2 ^ 32)) back) counted
