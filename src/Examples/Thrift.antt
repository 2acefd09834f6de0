-- ===== src/Examples/Thrift.antt =====
-- A protocol that writes each number as one unit, the structs of msgrpc/demo/demo_service.api, and
-- the theorems on the codec there.
pub mod Codec
mod Objects
mod Typing
mod Evolution
mod Buffers
use msgrpc.Base.{
  ℕ, zero, suc, ◌+◌, ◌%◌, ◌^◌, ◌<◌, ◌≡◌, refl, ap, Bool, true, false, Option, none, some, List, [],
  ◌∷◌, ◌++◌, Run, ok, fault, out_of_fuel, length, arith, if◌then◌else◌, ◌==◌, ltb,
}
use msgrpc.Msg.{Bytes}
use msgrpc.Thrift.{
  TypeT, t_bool, t_byte, t_i16, t_i32, t_string, t_set, t_map, t_list, t_struct, Fields, end,
  required, optional, Value, Object, Slot,
}
use msgrpc.Thrift.Protocol.{Reader, FieldHeader, stop, field, Protocol}

abbrev pub read_unit : Reader ℕ
read_unit [] = fault
read_unit (x ∷ rest) = ok (x, 1, rest)

abbrev pub read_two : Reader (ℕ × ℕ)
read_two (x ∷ y ∷ rest) = ok ((x, y), 2, rest)
read_two _ = fault

abbrev pub read_three : Reader (ℕ × ℕ × ℕ)
read_three (x ∷ y ∷ z ∷ rest) = ok ((x, y, z), 3, rest)
read_three _ = fault

abbrev pub read_nothing : Reader (Unit {0})
read_nothing bs = ok (tt, 0, bs)

abbrev pub read_truth : Reader Bool
read_truth [] = fault
read_truth (x ∷ rest) = ok (x == 1, 1, rest)

abbrev pub write_truth : Bool → Bytes
write_truth true = 1 ∷ []
write_truth false = 0 ∷ []

-- The first `n` units of a text, with those before them.
abbrev pub take_text : ℕ → Reader Bytes
take_text zero bs = ok ([], 1, bs)
take_text (suc n) [] = fault
take_text (suc n) (b ∷ bs) = elim (take_text n bs) [
  | ok (s, c, rest) ↦ ok (b ∷ s, (c + 1) % 2 ^ 32, rest)
  | fault ↦ fault
  | out_of_fuel ↦ out_of_fuel
]

abbrev pub read_text : Reader Bytes
read_text [] = fault
read_text (n ∷ rest) = take_text n rest

abbrev pub read_header : Reader FieldHeader
read_header (zero ∷ rest) = ok (stop, 1, rest)
read_header (suc k ∷ t ∷ f ∷ rest) = ok (field t f, 3, rest)
read_header _ = fault

abbrev pub skip_unit : ℕ → Reader (Unit {0})
skip_unit ftype [] = fault
skip_unit ftype (x ∷ rest) = ok (tt, 1, rest)

abbrev pub plain_protocol : Protocol
plain_protocol = record {
  write_bool = write_truth;
  write_byte = λ n. n ∷ [];
  write_i16 = λ n. n ∷ [];
  write_i32 = λ n. n ∷ [];
  write_i64 = λ n. n ∷ [];
  write_double = λ n. n ∷ [];
  write_string = λ s. length s ∷ s;
  write_list_begin = λ t n. t ∷ n ∷ [];
  write_set_begin = λ t n. t ∷ n ∷ [];
  write_map_begin = λ k t n. k ∷ t ∷ n ∷ [];
  write_list_end = [];
  write_set_end = [];
  write_map_end = [];
  write_struct_begin = λ name. [];
  write_field_begin = λ name t f. 1 ∷ t ∷ f ∷ [];
  write_field_end = [];
  write_field_stop = 0 ∷ [];
  write_struct_end = [];
  read_bool = read_truth;
  read_byte = read_unit;
  read_i16 = read_unit;
  read_i32 = read_unit;
  read_i64 = read_unit;
  read_double = read_unit;
  read_string = read_text;
  read_binary = read_text;
  read_list_begin = read_two;
  read_set_begin = read_two;
  read_map_begin = read_three;
  read_list_end = read_nothing;
  read_set_end = read_nothing;
  read_map_end = read_nothing;
  read_struct_begin = read_nothing;
  read_field_end = read_nothing;
  read_struct_end = read_nothing;
  read_field_begin = read_header;
  skip = skip_unit;
  may_nest = λ depth. ltb depth 64;
}

-- `RequestFoo` and `EmbeddedStruct`, with short names, and a struct that holds the second.
abbrev pub request_foo : Fields
request_foo = required 1 [] t_i32 (optional 2 [] t_i32 end)

abbrev pub embedded_struct : Fields
embedded_struct = required 1 [] t_byte (optional 2 [] t_i16 end)

abbrev pub pet : Fields
pet = required 2 [] t_string (
    required 10 [] (t_struct [] embedded_struct) (
      required 12 [] (t_list (t_struct [] embedded_struct))
        (optional 14 [] (t_set t_i32) (optional 16 [] (t_map t_i32 t_string) end))))

-- The order of numbers; of the other types no set is built here.
abbrev pub less : (t : TypeT) → Value t → Value t → Bool
less t_i32 a b = ltb a b
less _ a b = false

abbrev pub unset : {A : Type 0} → A → Slot A
unset v = record { value = v; isset = false }

abbrev pub given : {A : Type 0} → A → Slot A
given v = record { value = v; isset = true }

abbrev pub a_pet : Object pet
a_pet = (
  77 ∷ 105 ∷ [],
  (
    (7, (given 300, tt)),
    (
      (1, (unset 0, tt)) ∷ (2, (given 5, tt)) ∷ [],
      (given (3 ∷ 9 ∷ []), (given ((4, 65 ∷ []) ∷ (6, []) ∷ []), tt)),
    ),
  ),
)
