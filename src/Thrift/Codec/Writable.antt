-- ===== src/Thrift/Codec/Writable.antt =====
-- The values that can be written and read again.
use msgrpc.Base.{ℕ, ◌<◌, ◌^◌, ◌≡◌, ◌≢◌, Bool, true, false, List, [], ◌∷◌, ◌++◌, map, length, arith}
use msgrpc.Thrift.{
  TypeT, t_bool, t_byte, t_i16, t_i32, t_i64, t_double, t_string, t_binary, t_list, t_set, t_map,
  t_struct, Fields, end, required, optional, Value, Object, default, code,
}
use msgrpc.Thrift.Protocol.Laws.{IsHeader}

abbrev pub All : {A : Type 0} → (A → Type 0) → List A → Type 0
All P [] = Unit
All P (x ∷ xs) = P x × All P xs

-- `x` stands behind all of `xs`, and `ys` goes on from `xs` in order.
abbrev pub Above : {K : Type 0} → (K → K → Bool) → List K → K → Type 0
Above less xs x = All (λ y. (less y x ≡ true) × (less x y ≡ false)) xs

abbrev pub Ascending : {K : Type 0} → (K → K → Bool) → List K → List K → Type 0
Ascending less xs [] = Unit
Ascending less xs (y ∷ ys) = Above less xs y × Ascending less (xs ++ y ∷ []) ys

pub code-bound : (t : TypeT) → code t < 2 ^ 7
code-bound t_bool = omega arith
code-bound t_byte = omega arith
code-bound t_i16 = omega arith
code-bound t_i32 = omega arith
code-bound t_i64 = omega arith
code-bound t_double = omega arith
code-bound t_string = omega arith
code-bound t_binary = omega arith
code-bound (t_list t) = omega arith
code-bound (t_set t) = omega arith
code-bound (t_map k u) = omega arith
code-bound (t_struct name fs) = omega arith

code-pos : (t : TypeT) → 0 < code t
code-pos t_bool = omega arith
code-pos t_byte = omega arith
code-pos t_i16 = omega arith
code-pos t_i32 = omega arith
code-pos t_i64 = omega arith
code-pos t_double = omega arith
code-pos t_string = omega arith
code-pos t_binary = omega arith
code-pos (t_list t) = omega arith
code-pos (t_set t) = omega arith
code-pos (t_map k u) = omega arith
code-pos (t_struct name fs) = omega arith

-- The header of a field of any type, with an id in range.
pub code-IsHeader : (t : TypeT) (fid : ℕ) → fid < 2 ^ 15 → IsHeader (code t) fid
code-IsHeader t fid small = (code-pos t, code-bound t, small)

-- No field has the id.
abbrev pub Lacks : ℕ → Fields → Type 0
Lacks fid end = Unit
Lacks fid (required f name t fs) = (fid ≢ f) × Lacks fid fs
Lacks fid (optional f name t fs) = (fid ≢ f) × Lacks fid fs

-- The ids of the fields of a struct differ, as its `switch` requires, and are not negative numbers
-- of an `int16_t`.
abbrev mutual
  pub IsType : TypeT → Type 0
  IsType t_bool = Unit
  IsType t_byte = Unit
  IsType t_i16 = Unit
  IsType t_i32 = Unit
  IsType t_i64 = Unit
  IsType t_double = Unit
  IsType t_string = Unit
  IsType t_binary = Unit
  IsType (t_list t) = IsType t
  IsType (t_set t) = IsType t
  IsType (t_map k u) = IsType k × IsType u
  IsType (t_struct name fs) = AreFields fs

  pub AreFields : Fields → Type 0
  AreFields end = Unit
  AreFields (required fid name t fs) = (fid < 2 ^ 15) × Lacks fid fs × IsType t × AreFields fs
  AreFields (optional fid name t fs) = (fid < 2 ^ 15) × Lacks fid fs × IsType t × AreFields fs

-- Numbers within their widths, sizes that fit, sets and maps in order, and optional fields that are
-- not set as they were constructed.
abbrev mutual
  pub IsWritable : (less : (t : TypeT) → Value t → Value t → Bool) (t : TypeT) → Value t → Type 0
  IsWritable less t_bool v = Unit
  IsWritable less t_byte v = v < 2 ^ 8
  IsWritable less t_i16 v = v < 2 ^ 16
  IsWritable less t_i32 v = v < 2 ^ 32
  IsWritable less t_i64 v = v < 2 ^ 64
  IsWritable less t_double v = v < 2 ^ 64
  IsWritable less t_string v = length v < 2 ^ 31
  IsWritable less t_binary v = length v < 2 ^ 31
  IsWritable less (t_list t) v = (length v < 2 ^ 31) × All (IsWritable less t) v
  IsWritable less (t_set t) v =
      (length v < 2 ^ 31) × All (IsWritable less t) v × Ascending (less t) [] v
  IsWritable less (t_map k u) v =
      (length v < 2 ^ 31)
      × All (λ e. IsWritable less k e.0 × IsWritable less u e.1) v
      × Ascending (less k) [] (map (λ e. e.0) v)
  IsWritable less (t_struct name fs) v = AreWritable less fs v

  pub AreWritable :
      (less : (t : TypeT) → Value t → Value t → Bool) (fs : Fields) → Object fs → Type 0
  AreWritable less end o = Unit
  AreWritable less (required fid name t fs) (v, o) = IsWritable less t v × AreWritable less fs o
  AreWritable less (optional fid name t fs) (slot, o) =
      ((slot.isset ≡ true → IsWritable less t slot.value)
        × (slot.isset ≡ false → slot.value ≡ default t))
      × AreWritable less fs o
