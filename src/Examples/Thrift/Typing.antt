-- ===== src/Examples/Thrift/Typing.antt =====
-- The types of what is read, with a protocol whose numbers and sizes are in range.
use native.Mathlib.Nat.{mod-lt}
use msgrpc.Base.{
  ℕ, zero, suc, ◌+◌, ◌<◌, ◌%◌, ◌^◌, ◌≡◌, refl, true, [], ◌∷◌, Run, ok, fault, out_of_fuel, length,
  arith, Ensures, Ensures-mono, normal, at_fault, at_limit,
}
use msgrpc.Msg.{Bytes}
use msgrpc.Thrift.{
  TypeT, t_bool, t_byte, t_i16, t_i32, t_i64, t_double, t_string, t_binary, t_list, t_set, t_map,
  t_struct, Value, default,
}
use msgrpc.Thrift.Protocol.{Reader, Protocol}
use msgrpc.Thrift.Codec.{read}
use msgrpc.Thrift.Codec.Ends.{Within, reads, throws, Ends, Advances}
use msgrpc.Thrift.Codec.Typed.{HasType, Yields, ReadsTypes}
use msgrpc.Thrift.Codec.Typing.{read-HasType, default-HasType}
use msgrpc.Examples.Thrift.{plain_protocol, take_text, less, pet}
use msgrpc.Examples.Thrift.Codec.{plain_protocol-Advances, take_text_ends, pet_bytes}

abbrev read_below : ℕ → Reader ℕ
read_below m [] = fault
read_below m (x ∷ rest) = ok (x % m, 1, rest)

abbrev read_sized : Reader (ℕ × ℕ)
read_sized (x ∷ y ∷ rest) = ok ((x, y % 2 ^ 31), 2, rest)
read_sized _ = fault

abbrev read_map_sized : Reader (ℕ × ℕ × ℕ)
read_map_sized (x ∷ y ∷ z ∷ rest) = ok ((x, y, z % 2 ^ 31), 3, rest)
read_map_sized _ = fault

abbrev read_short : Reader Bytes
read_short [] = fault
read_short (n ∷ rest) = take_text (n % 2 ^ 31) rest

abbrev ranged_protocol : Protocol
ranged_protocol = record plain_protocol {
  read_byte = read_below (2 ^ 8);
  read_i16 = read_below (2 ^ 16);
  read_i32 = read_below (2 ^ 32);
  read_i64 = read_below (2 ^ 64);
  read_double = read_below (2 ^ 64);
  read_string = read_short;
  read_binary = read_short;
  read_list_begin = read_sized;
  read_map_begin = read_map_sized;
}

below-Ends : (m : ℕ) → Ends (read_below m)
below-Ends m [] = throws
below-Ends m (x ∷ rest) = reads (x % m) 1 rest (omega arith)

sized-Ends : Ends read_sized
sized-Ends [] = throws
sized-Ends (x ∷ []) = throws
sized-Ends (x ∷ y ∷ rest) = reads _ 2 rest (omega arith)

map_sized-Ends : Ends read_map_sized
map_sized-Ends [] = throws
map_sized-Ends (x ∷ []) = throws
map_sized-Ends (x ∷ y ∷ []) = throws
map_sized-Ends (x ∷ y ∷ z ∷ rest) = reads _ 3 rest (omega arith)

short-Ends : Ends read_short
short-Ends [] = throws
short-Ends (n ∷ rest) = take_text_ends (n % 2 ^ 31) (suc (length rest)) rest (omega arith)

ranged_protocol-Advances : Advances ranged_protocol
ranged_protocol-Advances = record {
  bool_ends = plain_protocol-Advances.bool_ends;
  set_begin_ends = plain_protocol-Advances.set_begin_ends;
  list_end_ends = plain_protocol-Advances.list_end_ends;
  set_end_ends = plain_protocol-Advances.set_end_ends;
  map_end_ends = plain_protocol-Advances.map_end_ends;
  struct_begin_ends = plain_protocol-Advances.struct_begin_ends;
  struct_end_ends = plain_protocol-Advances.struct_end_ends;
  field_end_ends = plain_protocol-Advances.field_end_ends;
  skip_ends = plain_protocol-Advances.skip_ends;
  field_begin_ends = plain_protocol-Advances.field_begin_ends;
  field_begin_nothing = plain_protocol-Advances.field_begin_nothing;
  byte_ends = below-Ends (2 ^ 8);
  i16_ends = below-Ends (2 ^ 16);
  i32_ends = below-Ends (2 ^ 32);
  i64_ends = below-Ends (2 ^ 64);
  double_ends = below-Ends (2 ^ 64);
  string_ends = short-Ends;
  binary_ends = short-Ends;
  list_begin_ends = sized-Ends;
  map_begin_ends = map_sized-Ends;
}

take_text-length : (n : ℕ) → Yields (λ s. length s ≡ n) (take_text n)
take_text-length zero bs = normal refl
take_text-length (suc n) [] = at_fault
take_text-length (suc n) (b ∷ bs) = longer b (take_text n bs) (take_text-length n bs)
  where
    longer :
        {n : ℕ} (b : ℕ) (r : Run (Bytes × ℕ × Bytes))
        → Ensures {A = Bytes × ℕ × Bytes} (λ x. length x.0 ≡ n) r
        → Ensures {A = Bytes × ℕ × Bytes}
            (λ x. length x.0 ≡ suc n)
            (elim r [
              | ok (s, c, rest) ↦ ok (b ∷ s, (c + 1) % 2 ^ 32, rest)
              | fault ↦ fault
              | out_of_fuel ↦ out_of_fuel
            ])
    longer b (ok (s, c, rest)) (normal h) = normal (omega (arith, h))
    longer b fault h = at_fault
    longer b out_of_fuel h = at_limit

below-Yields : (m : ℕ) → 0 < m → Yields (λ n. n < m) (read_below m)
below-Yields m pos [] = at_fault
below-Yields m pos (x ∷ rest) = normal (mod-lt x pos)

short-Yields : Yields (λ s. length s < 2 ^ 31) read_short
short-Yields [] = at_fault
short-Yields (n ∷ rest) = Ensures-mono (take_text-length (n % 2 ^ 31) rest) λ r e. omega (arith, e)

sized-Yields : Yields (λ h. h.1 < 2 ^ 31) read_sized
sized-Yields [] = at_fault
sized-Yields (x ∷ []) = at_fault
sized-Yields (x ∷ y ∷ rest) = normal (omega arith)

map_sized-Yields : Yields (λ h. h.2 < 2 ^ 31) read_map_sized
map_sized-Yields [] = at_fault
map_sized-Yields (x ∷ []) = at_fault
map_sized-Yields (x ∷ y ∷ []) = at_fault
map_sized-Yields (x ∷ y ∷ z ∷ rest) = normal (omega arith)

ranged_protocol-ReadsTypes : ReadsTypes ranged_protocol
ranged_protocol-ReadsTypes = record {
  byte_yields = below-Yields (2 ^ 8) (omega arith);
  i16_yields = below-Yields (2 ^ 16) (omega arith);
  i32_yields = below-Yields (2 ^ 32) (omega arith);
  i64_yields = below-Yields (2 ^ 64) (omega arith);
  double_yields = below-Yields (2 ^ 64) (omega arith);
  string_yields = short-Yields;
  binary_yields = short-Yields;
  list_begin_yields = sized-Yields;
  map_begin_yields = map_sized-Yields;
}

less_trans :
    (t : TypeT) (x y z : Value t) → less t x y ≡ true → less t y z ≡ true → less t x z ≡ true
less_trans t_i32 x y z h k = ground arith
less_trans t_bool x y z h k = h
less_trans t_byte x y z h k = h
less_trans t_i16 x y z h k = h
less_trans t_i64 x y z h k = h
less_trans t_double x y z h k = h
less_trans t_string x y z h k = h
less_trans t_binary x y z h k = h
less_trans (t_list t) x y z h k = h
less_trans (t_set t) x y z h k = h
less_trans (t_map t u) x y z h k = h
less_trans (t_struct name fs) x y z h k = h

read-HasType_example :
    Within
      (length pet_bytes)
      (read ranged_protocol less (t_struct [] pet) 0 (default (t_struct [] pet)) pet_bytes)
    × Ensures
        (λ r. HasType less (t_struct [] pet) r.0)
        (read ranged_protocol less (t_struct [] pet) 0 (default (t_struct [] pet)) pet_bytes)
read-HasType_example =
    read-HasType ranged_protocol ranged_protocol-ReadsTypes less less_trans ranged_protocol-Advances
      (t_struct [] pet) 0 (default (t_struct [] pet)) pet_bytes
      (default-HasType less (t_struct [] pet))
