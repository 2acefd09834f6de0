-- ===== src/Thrift/Protocol.antt =====
-- The protocol of Apache Thrift as thrift_types.h and the struct macros use it: what each call
-- writes, and readers that take bytes from the front.
pub mod Laws
use msgrpc.Base.{
  ℕ, ◌+◌, ◌%◌, ◌^◌, ◌<◌, ◌≡◌, refl, Bool, List, [], ◌∷◌, ◌++◌, Run, ok, fault, out_of_fuel, length,
  arith,
}
use msgrpc.Msg.{Bytes}

-- A reader gives its result, the count of bytes that it reports, and the bytes that are left. An
-- exception is a `fault`. The counts are added as `uint32_t`.
abbrev pub Reader : Type 0 → Type 0
Reader A = Bytes → Run (A × ℕ × Bytes)

abbrev pub add_count : {A : Type 0} → ℕ → Run (A × ℕ × Bytes) → Run (A × ℕ × Bytes)
add_count n (ok (a, m, rest)) = ok (a, (n + m) % 2 ^ 32, rest)
add_count n fault = fault
add_count n out_of_fuel = out_of_fuel

infixl 5 ◌>>=◌ ◌>>◌
abbrev pub ◌>>=◌ : {A B : Type 0} → Reader A → (A → Reader B) → Reader B
◌>>=◌ m f bytes = elim (m bytes) [
  | ok (a, n, rest) ↦ add_count n (f a rest)
  | fault ↦ fault
  | out_of_fuel ↦ out_of_fuel
]

abbrev pub ◌>>◌ : {B : Type 0} → Reader (Unit {0}) → Reader B → Reader B
m >> k = m >>= λ _. k

abbrev pub return : {A : Type 0} → A → Reader A
return a bytes = ok (a, 0, bytes)

abbrev pub throw : {A : Type 0} → Reader A
throw bytes = fault

-- One output after the other, where neither throws.
infixr 6 ◌<+>◌
abbrev pub ◌<+>◌ : Run Bytes → Run Bytes → Run Bytes
ok a <+> ok b = ok (a ++ b)
ok a <+> fault = fault
ok a <+> out_of_fuel = out_of_fuel
fault <+> r = fault
out_of_fuel <+> r = out_of_fuel

-- What `readFieldBegin` finds: the end of the struct (T_STOP), or a type and an id.
pub data FieldHeader : Type 0 where
  stop : FieldHeader
  field : (ftype fid : ℕ) → FieldHeader

-- `may_nest` is the test of the trackers of recursion at a depth of open structs.
pub record Protocol : Type 0 where
  pub write_bool : Bool → Bytes
  pub write_byte : ℕ → Bytes
  pub write_i16 : ℕ → Bytes
  pub write_i32 : ℕ → Bytes
  pub write_i64 : ℕ → Bytes
  pub write_double : ℕ → Bytes
  pub write_string : Bytes → Bytes
  pub write_list_begin : (etype size : ℕ) → Bytes
  pub write_set_begin : (etype size : ℕ) → Bytes
  pub write_map_begin : (ktype vtype size : ℕ) → Bytes
  pub write_list_end : Bytes
  pub write_set_end : Bytes
  pub write_map_end : Bytes
  pub write_struct_begin : (name : Bytes) → Bytes
  pub write_field_begin : (fname : Bytes) (ftype fid : ℕ) → Bytes
  pub write_field_end : Bytes
  pub write_field_stop : Bytes
  pub write_struct_end : Bytes
  pub read_bool : Reader Bool
  pub read_byte : Reader ℕ
  pub read_i16 : Reader ℕ
  pub read_i32 : Reader ℕ
  pub read_i64 : Reader ℕ
  pub read_double : Reader ℕ
  pub read_string : Reader Bytes
  pub read_binary : Reader Bytes
  pub read_list_begin : Reader (ℕ × ℕ)
  pub read_set_begin : Reader (ℕ × ℕ)
  pub read_map_begin : Reader (ℕ × ℕ × ℕ)
  pub read_list_end : Reader (Unit {0})
  pub read_set_end : Reader (Unit {0})
  pub read_map_end : Reader (Unit {0})
  pub read_struct_begin : Reader (Unit {0})
  pub read_field_end : Reader (Unit {0})
  pub read_struct_end : Reader (Unit {0})
  pub read_field_begin : Reader FieldHeader
  pub skip : (ftype : ℕ) → Reader (Unit {0})
  pub may_nest : (depth : ℕ) → Bool
