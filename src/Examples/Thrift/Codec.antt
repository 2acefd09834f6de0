-- ===== src/Examples/Thrift/Codec.antt =====
-- The codec's theorems with a concrete protocol.
use msgrpc.Base.{
  ℕ, zero, suc, ◌+◌, ◌%◌, ◌^◌, ◌<◌, ◌≡◌, refl, ap, ◌∙◌, Bool, true, false, some, [], ◌∷◌, ◌++◌, Run,
  ok, fault, out_of_fuel, length, arith, ◌==◌,
}
use msgrpc.Msg.{Bytes}
use msgrpc.Cell.{encode, decode}
use msgrpc.Thrift.{t_struct, default}
use msgrpc.Thrift.Protocol.{stop, field}
use msgrpc.Thrift.Protocol.Laws.{Reads, Lawful}
use msgrpc.Thrift.Codec.{read, write, write_all}
use msgrpc.Thrift.Codec.Writable.{AreFields, AreWritable}
use msgrpc.Thrift.Codec.Ends.{Within, reads, throws, Ends, Advances}
use msgrpc.Thrift.Codec.Total.{read-Ends}
use msgrpc.Thrift.Codec.RoundTrip.{read-write}
use msgrpc.Thrift.Structs.{struct_codec, decode-encode}
use msgrpc.Examples.Thrift.{
  plain_protocol, read_text, read_truth, write_truth, read_unit, take_text, less, pet, a_pet,
  read_nothing, read_two, read_three, read_header, skip_unit,
}

truth-Reads : (b : Bool) → Reads read_truth (write_truth b) b
truth-Reads true rest = refl
truth-Reads false rest = refl

take_text_reads :
    (s rest : Bytes) → take_text (length s) (s ++ rest) ≡ ok (s, (length s + 1) % 2 ^ 32, rest)
take_text_reads [] rest = refl
take_text_reads (b ∷ s) rest =
    rw (take_text_reads s rest) (ap (λ n. ok (b ∷ s, n, rest)) (omega arith))

text-Reads : (s : Bytes) → Reads read_text (length s ∷ s) s
text-Reads s rest = take_text_reads s rest ∙ ap (λ n. ok (s, n, rest)) (omega arith)

pub plain_protocol-Lawful : Lawful plain_protocol
plain_protocol-Lawful = record {
  bool_reads = truth-Reads;
  byte_reads = λ n h rest. refl;
  i16_reads = λ n h rest. refl;
  i32_reads = λ n h rest. refl;
  i64_reads = λ n h rest. refl;
  double_reads = λ n h rest. refl;
  string_reads = λ s h. text-Reads s;
  binary_reads = λ s h. text-Reads s;
  list_begin_reads = λ t n ht h rest. refl;
  set_begin_reads = λ t n ht h rest. refl;
  map_begin_reads = λ k t n hk ht h rest. refl;
  list_end_reads = λ rest. refl;
  set_end_reads = λ rest. refl;
  map_end_reads = λ rest. refl;
  struct_begin_reads = λ name rest. refl;
  struct_end_reads = λ rest. refl;
  field_begin_reads = λ name t f h rest. refl;
  field_end_reads = λ rest. refl;
  field_stop_reads = λ rest. refl;
  field_begin_pos = λ name t f. omega arith;
  field_stop_pos = omega arith;
}

unit-Ends : Ends read_unit
unit-Ends [] = throws
unit-Ends (x ∷ rest) = reads x 1 rest (omega arith)

truth-Ends : Ends read_truth
truth-Ends [] = throws
truth-Ends (x ∷ rest) = reads (x == 1) 1 rest (omega arith)

two-Ends : Ends read_two
two-Ends [] = throws
two-Ends (x ∷ []) = throws
two-Ends (x ∷ y ∷ rest) = reads (x, y) 2 rest (omega arith)

three-Ends : Ends read_three
three-Ends [] = throws
three-Ends (x ∷ []) = throws
three-Ends (x ∷ y ∷ []) = throws
three-Ends (x ∷ y ∷ z ∷ rest) = reads (x, y, z) 3 rest (omega arith)

nothing-Ends : Ends read_nothing
nothing-Ends bs = reads tt 0 bs (omega arith)

pub take_text_ends : (n most : ℕ) (bs : Bytes) → length bs < most + 1 → Within most (take_text n bs)
take_text_ends zero most bs h = reads [] 1 bs (omega arith)
take_text_ends (suc n) most [] h = throws
take_text_ends (suc n) most (b ∷ bs) h =
    longer b (take_text n bs) (take_text_ends n most bs (omega arith))
  where
    longer :
        {most : ℕ} (b : ℕ) (r : Run (Bytes × ℕ × Bytes))
        → Within most r
        → Within most (elim r [
          | ok (s, c, rest) ↦ ok (b ∷ s, (c + 1) % 2 ^ 32, rest)
          | fault ↦ fault
          | out_of_fuel ↦ out_of_fuel
        ])
    longer b r (reads s c rest small) = reads (b ∷ s) _ rest small
    longer b r throws = throws

text-Ends : Ends read_text
text-Ends [] = throws
text-Ends (n ∷ rest) = take_text_ends n (suc (length rest)) rest (omega arith)

header_ends : (b : ℕ) (bs : Bytes) → Within (length bs) (read_header (b ∷ bs))
header_ends zero bs = reads stop 1 bs (omega arith)
header_ends (suc k) [] = throws
header_ends (suc k) (t ∷ []) = throws
header_ends (suc k) (t ∷ f ∷ rest) = reads (field t f) 3 rest (omega arith)

skip-Ends : (ftype : ℕ) → Ends (skip_unit ftype)
skip-Ends ftype [] = throws
skip-Ends ftype (x ∷ rest) = reads tt 1 rest (omega arith)

pub plain_protocol-Advances : Advances plain_protocol
plain_protocol-Advances = record {
  bool_ends = truth-Ends;
  byte_ends = unit-Ends;
  i16_ends = unit-Ends;
  i32_ends = unit-Ends;
  i64_ends = unit-Ends;
  double_ends = unit-Ends;
  string_ends = text-Ends;
  binary_ends = text-Ends;
  list_begin_ends = two-Ends;
  set_begin_ends = two-Ends;
  map_begin_ends = three-Ends;
  list_end_ends = nothing-Ends;
  set_end_ends = nothing-Ends;
  map_end_ends = nothing-Ends;
  struct_begin_ends = nothing-Ends;
  struct_end_ends = nothing-Ends;
  field_end_ends = nothing-Ends;
  skip_ends = skip-Ends;
  field_begin_ends = header_ends;
  field_begin_nothing = refl;
}

-- Bytes that no struct was written as: a field of the wrong type, and then the end of the bytes.
read-Ends_example :
    Within 4 (
      read plain_protocol less (t_struct [] pet) 0 (default (t_struct [] pet)) (1 ∷ 8 ∷ 2 ∷ 5 ∷ []))
read-Ends_example =
    read-Ends plain_protocol plain_protocol-Advances less (t_struct [] pet) 0
      (default (t_struct [] pet)) (1 ∷ 8 ∷ 2 ∷ 5 ∷ [])

abbrev pub pet_bytes : Bytes
pet_bytes =
    1 ∷ 11 ∷ 2 ∷ 2 ∷ 77 ∷ 105 ∷ 1 ∷ 12 ∷ 10 ∷ 1 ∷ 3 ∷ 1 ∷ 7 ∷ 1 ∷ 6 ∷ 2 ∷ 300 ∷ 0 ∷ 1 ∷ 15 ∷ 12 ∷ 12
    ∷ 2 ∷ 1 ∷ 3 ∷ 1 ∷ 1 ∷ 0 ∷ 1 ∷ 3 ∷ 1 ∷ 2 ∷ 1 ∷ 6 ∷ 2 ∷ 5 ∷ 0 ∷ 1 ∷ 14 ∷ 14 ∷ 8 ∷ 2 ∷ 3 ∷ 9 ∷ 1
    ∷ 13 ∷ 16 ∷ 8 ∷ 11 ∷ 2 ∷ 4 ∷ 1 ∷ 65 ∷ 6 ∷ 0 ∷ 0 ∷ []

pet_bytes_lem : write plain_protocol (t_struct [] pet) 0 a_pet ≡ ok pet_bytes
unfolding write write_all
pet_bytes_lem = refl

pet-AreFields : AreFields pet
pet-AreFields = omega arith

a_pet-AreWritable : AreWritable less pet a_pet
unfolding default
a_pet-AreWritable = ground arith

read-write_example :
    read plain_protocol less (t_struct [] pet) 0 (default (t_struct [] pet)) (pet_bytes ++ 8 ∷ [])
    ≡ ok (a_pet, length pet_bytes % 2 ^ 32, 8 ∷ [])
read-write_example =
    read-write plain_protocol plain_protocol-Lawful less (t_struct [] pet) 0 a_pet pet_bytes
      (8 ∷ []) pet-AreFields a_pet-AreWritable pet_bytes_lem

codec_encodes :
    encode (struct_codec plain_protocol less [] pet (λ o. o) (λ o. some o)) a_pet ≡ some pet_bytes
unfolding struct_codec encode write write_all
codec_encodes = refl

decode-encode_example :
    decode (struct_codec plain_protocol less [] pet (λ o. o) (λ o. some o)) pet_bytes ≡ some a_pet
decode-encode_example =
    decode-encode plain_protocol less [] pet (λ o. o) (λ o. some o) plain_protocol-Lawful
      pet-AreFields a_pet a_pet pet_bytes refl refl a_pet-AreWritable (omega arith) codec_encodes
