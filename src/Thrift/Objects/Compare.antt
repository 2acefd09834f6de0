-- ===== src/Thrift/Objects/Compare.antt =====
-- thrift/thrift_struct_declare.h and thrift_struct_define.h: comparing, copying, swapping and printing
-- the objects of a struct.
use msgrpc.Base.{
  ℕ, ◌≡◌, refl, Bool, true, false, ◌&&◌, List, [], ◌∷◌, if◌then◌else◌, ◌==◌, Run, length, ap, arith,
  suc, inl, inr, ◌⊎◌, ◌+◌,
}
use msgrpc.Msg.{Bytes}
use msgrpc.Discovery.{same}
use msgrpc.Thrift.{
  TypeT, t_bool, t_byte, t_i16, t_i32, t_i64, t_double, t_string, t_binary, t_list, t_set, t_map,
  t_struct, Fields, end, required, optional, Value, Object,
}
use msgrpc.Thrift.Protocol.{Protocol, ◌<+>◌}
use msgrpc.Thrift.Codec.{write, write_fields, write_all}

abbrev same_bool : Bool → Bool → Bool
same_bool true b = b
same_bool false true = false
same_bool false false = true

-- `==` of containers: the sizes are the same, and so are the elements in order.
abbrev same_list : {A : Type 0} → (A → A → Bool) → List A → List A → Bool
same_list eq [] [] = true
same_list eq [] (y ∷ ys) = false
same_list eq (x ∷ xs) [] = false
same_list eq (x ∷ xs) (y ∷ ys) = eq x y && same_list eq xs ys

-- `==` of the C++ types. `same_double` compares floating-point numbers: it is not equality of bits.
module _ (same_double : ℕ → ℕ → Bool) where
  unfoldable mutual
    pub equal : (t : TypeT) → Value t → Value t → Bool
    equal t_bool a b = same_bool a b
    equal t_byte a b = a == b
    equal t_i16 a b = a == b
    equal t_i32 a b = a == b
    equal t_i64 a b = a == b
    equal t_double a b = same_double a b
    equal t_string a b = same a b
    equal t_binary a b = same a b
    equal (t_list t) a b = same_list (equal t) a b
    equal (t_set t) a b = same_list (equal t) a b
    equal (t_map k v) a b = same_list (λ x y. equal k x.0 y.0 && equal v x.1 y.1) a b
    equal (t_struct name fs) a b = equal_object fs a b

    -- `operator ==` of a struct: the values of optional fields count only where they are set.
    pub equal_object : (fs : Fields) → Object fs → Object fs → Bool
    equal_object end o o' = true
    equal_object (required fid name t fs) (v, o) (v', o') = equal t v v' && equal_object fs o o'
    equal_object (optional fid name t fs) (s, o) (s', o') =
        let rest = equal_object fs o o' in
        let values = equal t s.value s'.value in
        if same_bool s.isset s'.isset then (if s.isset then values && rest else rest) else false

-- The types without floating-point numbers.
abbrev mutual
  pub HasNoDouble : TypeT → Type 0
  HasNoDouble t_double = ⊥
  HasNoDouble (t_list t) = HasNoDouble t
  HasNoDouble (t_set t) = HasNoDouble t
  HasNoDouble (t_map k v) = HasNoDouble k × HasNoDouble v
  HasNoDouble (t_struct name fs) = HaveNoDouble fs
  HasNoDouble _ = Unit

  pub HaveNoDouble : Fields → Type 0
  HaveNoDouble end = Unit
  HaveNoDouble (required fid name t fs) = HasNoDouble t × HaveNoDouble fs
  HaveNoDouble (optional fid name t fs) = HasNoDouble t × HaveNoDouble fs

both : (a b : Bool) → a && b ≡ true → (a ≡ true) × (b ≡ true)
both a b e = ground arith

same_bool-eq : (a b : Bool) → same_bool a b ≡ true → a ≡ b
same_bool-eq true true e = refl
same_bool-eq true false e = cc
same_bool-eq false true e = cc
same_bool-eq false false e = refl

==-eq : (a b : ℕ) → (a == b) ≡ true → a ≡ b
==-eq a b e = ground arith

same-eq : (a b : Bytes) → same a b ≡ true → a ≡ b
same-eq [] [] e = refl
same-eq [] (y ∷ ys) e = cc
same-eq (x ∷ xs) [] e = cc
same-eq (x ∷ xs) (y ∷ ys) e =
    let (h, t) = both (x == y) (same xs ys) e in
    let tails : xs ≡ ys = same-eq xs ys t in ground arith

-- Two optional fields that agree.
slots :
    (a b values others : Bool)
    → (if same_bool a b then (if a then values && others else others) else false) ≡ true
    → ((a ≡ true) × (b ≡ true) × (values ≡ true) × (others ≡ true))
      ⊎ ((a ≡ false) × (b ≡ false) × (others ≡ true))
slots true true values others e = let (h, t) = both values others e in inl (refl, refl, h, t)
slots true false values others e = cc
slots false true values others e = cc
slots false false values others e = inr (refl, refl, e)

same_list-length :
    {A : Type 0} (eq : A → A → Bool) (xs ys : List A)
    → same_list eq xs ys ≡ true
    → length xs ≡ length ys
same_list-length eq [] [] e = refl
same_list-length eq [] (y ∷ ys) e = cc
same_list-length eq (x ∷ xs) [] e = cc
same_list-length eq (x ∷ xs) (y ∷ ys) e =
    ap suc (same_list-length eq xs ys (both (eq x y) (same_list eq xs ys) e).1)

same_list-write_all :
    {A : Type 0} (eq : A → A → Bool) (f : A → Run Bytes)
    → ((x y : A) → eq x y ≡ true → f x ≡ f y)
    → (xs ys : List A) → same_list eq xs ys ≡ true
    → write_all f xs ≡ write_all f ys
unfolding write_all
same_list-write_all eq f each [] [] e = refl
same_list-write_all eq f each [] (y ∷ ys) e = cc
same_list-write_all eq f each (x ∷ xs) [] e = cc
same_list-write_all eq f each (x ∷ xs) (y ∷ ys) e =
    let (h, t) = both (eq x y) (same_list eq xs ys) e in
    rw (each x y h, same_list-write_all eq f each xs ys t) refl

module _ (p : Protocol) (same_double : ℕ → ℕ → Bool) where
  mutual
    unfolding equal write

    every_type :
        (t : TypeT) (depth : ℕ) (a b : Value t)
        → HasNoDouble t
        → equal same_double t a b ≡ true
        → write p t depth a ≡ write p t depth b
    every_type t_bool depth a b h e = rw (same_bool-eq a b e) refl
    every_type t_byte depth a b h e = rw (==-eq a b e) refl
    every_type t_i16 depth a b h e = rw (==-eq a b e) refl
    every_type t_i32 depth a b h e = rw (==-eq a b e) refl
    every_type t_i64 depth a b h e = rw (==-eq a b e) refl
    every_type t_double depth a b h e = absurd h
    every_type t_string depth a b h e = rw (same-eq a b e) refl
    every_type t_binary depth a b h e = rw (same-eq a b e) refl
    every_type (t_list t) depth a b h e =
        rw
          (
            same_list-length (equal same_double t) a b e,
            same_list-write_all (equal same_double t) (write p t depth)
                (λ x y. every_type t depth x y h) a b e,
          )
          refl
    every_type (t_set t) depth a b h e =
        rw
          (
            same_list-length (equal same_double t) a b e,
            same_list-write_all (equal same_double t) (write p t depth)
                (λ x y. every_type t depth x y h) a b e,
          )
          refl
    every_type (t_map k v) depth a b (hk, hv) e =
        let eq : Value k × Value v → Value k × Value v → Bool =
          λ x y. equal same_double k x.0 y.0 && equal same_double v x.1 y.1 in
        let each : (x y : Value k × Value v)
            → eq x y ≡ true
            → (write p k depth x.0 <+> write p v depth x.1)
              ≡ (write p k depth y.0 <+> write p v depth y.1) =
          λ x y e'.
            let (first, second) = both (equal same_double k x.0 y.0) _ e' in
            rw (every_type k depth x.0 y.0 hk first, every_type v depth x.1 y.1 hv second) refl in
        rw (same_list-length eq a b e, same_list-write_all eq _ each a b e) refl
    every_type (t_struct name fs) depth a b h e = rw (every_object fs (depth + 1) a b h e) refl

    every_object :
        (fs : Fields) (depth : ℕ) (o o' : Object fs)
        → HaveNoDouble fs
        → equal_object same_double fs o o' ≡ true
        → write_fields p fs depth o ≡ write_fields p fs depth o'
    every_object end depth o o' h e = refl
    every_object (required fid name t fs) depth (v, o) (v', o') (h, hs) e =
        let (first, others) =
          both (equal same_double t v v') (equal_object same_double fs o o') e in
        rw (every_type t depth v v' h first, every_object fs depth o o' hs others) refl
    every_object (optional fid name t fs) depth (s, o) (s', o') (h, hs) e =
        elim (slots s.isset s'.isset (equal same_double t s.value s'.value)
          (equal_object same_double fs o o') e) [
            | inl (set, set', values, others) ↦
                rw
                  (
                    set,
                    set',
                    every_type t depth s.value s'.value h values,
                    every_object fs depth o o' hs others,
                  )
                  refl
            | inr (set, set', others) ↦ rw (set, set', every_object fs depth o o' hs others) refl
          ]

  -- Values that compare equal, of a type without floating-point numbers, are written as the same bytes.
  pub equal-write :
      (t : TypeT) (depth : ℕ) (a b : Value t)
      → HasNoDouble t
      → equal same_double t a b ≡ true
      → write p t depth a ≡ write p t depth b
  equal-write t depth a b h e = every_type t depth a b h e
