-- ===== src/Thrift/Codec/Typed.antt =====
-- The values of a type, as its readers yield them, and the loops of containers that keep to them.
use msgrpc.Base.{
  ℕ, zero, suc, ◌+◌, ◌<◌, ◌^◌, ◌≡◌, ◌≤◌, refl, ap, inl, inr, Bool, true, false, List, [], ◌∷◌, map,
  length, Run, ok, fault, out_of_fuel, Bool-cases, Ensures, normal, at_fault, at_limit, arith,
}
use msgrpc.Msg.{Bytes}
use msgrpc.Thrift.{
  TypeT, t_bool, t_byte, t_i16, t_i32, t_i64, t_double, t_string, t_binary, t_list, t_set, t_map,
  t_struct, Fields, end, required, optional, Value, Object, default,
}
use msgrpc.Thrift.Protocol.{Reader, ◌>>=◌, add_count, return, Protocol}
use msgrpc.Thrift.Codec.{read_many, insert, read_into_set, entry, assign, read_into_map}
use msgrpc.Thrift.Codec.Writable.{All}

-- Each stands before all that follow.
abbrev pub InOrder : {K : Type 0} → (K → K → Bool) → List K → Type 0
InOrder less [] = Unit
InOrder less (x ∷ xs) = All (λ y. less x y ≡ true) xs × InOrder less xs

-- Numbers within their widths, the sizes of strings, lists and maps as the wire has them, sets and
-- maps in order without a key twice, and optional fields that are not set as they were constructed.
abbrev mutual
  pub HasType : (less : (t : TypeT) → Value t → Value t → Bool) (t : TypeT) → Value t → Type 0
  HasType less t_bool v = Unit
  HasType less t_byte v = v < 2 ^ 8
  HasType less t_i16 v = v < 2 ^ 16
  HasType less t_i32 v = v < 2 ^ 32
  HasType less t_i64 v = v < 2 ^ 64
  HasType less t_double v = v < 2 ^ 64
  HasType less t_string v = length v < 2 ^ 31
  HasType less t_binary v = length v < 2 ^ 31
  HasType less (t_list t) v = (length v < 2 ^ 31) × All (HasType less t) v
  HasType less (t_set t) v = All (HasType less t) v × InOrder (less t) v
  HasType less (t_map k u) v =
      (length v < 2 ^ 31)
      × All (λ e. HasType less k e.0 × HasType less u e.1) v
      × InOrder (less k) (map (λ e. e.0) v)
  HasType less (t_struct name fs) v = HasFields less fs v

  pub HasFields : (less : (t : TypeT) → Value t → Value t → Bool) (fs : Fields) → Object fs → Type 0
  HasFields less end o = Unit
  HasFields less (required fid name t fs) (v, o) = HasType less t v × HasFields less fs o
  HasFields less (optional fid name t fs) (slot, o) =
      (HasType less t slot.value × (slot.isset ≡ false → slot.value ≡ default t))
      × HasFields less fs o

-- What a reader yields, if it does not throw.
abbrev pub Yields : {A : Type 0} → (A → Type 0) → Reader A → Type 0
Yields P m = (bs : Bytes) → Ensures (λ r. P r.0) (m bs)

-- What each call of the protocol yields: numbers of their widths, and sizes that are not negative.
pub record ReadsTypes (p : Protocol) : Type 0 where
  pub byte_yields : Yields (λ n. n < 2 ^ 8) p.read_byte
  pub i16_yields : Yields (λ n. n < 2 ^ 16) p.read_i16
  pub i32_yields : Yields (λ n. n < 2 ^ 32) p.read_i32
  pub i64_yields : Yields (λ n. n < 2 ^ 64) p.read_i64
  pub double_yields : Yields (λ n. n < 2 ^ 64) p.read_double
  pub string_yields : Yields (λ s. length s < 2 ^ 31) p.read_string
  pub binary_yields : Yields (λ s. length s < 2 ^ 31) p.read_binary
  pub list_begin_yields : Yields (λ h. h.1 < 2 ^ 31) p.read_list_begin
  pub map_begin_yields : Yields (λ h. h.2 < 2 ^ 31) p.read_map_begin

pub Yields-bind :
    {A B : Type 0} (P : A → Type 0) (Q : B → Type 0) (m : Reader A) (f : A → Reader B)
    → Yields P m
    → ((a : A) → P a → Yields Q (f a))
    → Yields Q (m >>= f)
Yields-bind {A} {B} P Q m f first then_yields bs = go (m bs) (first bs)
  where
    counted :
        (n : ℕ) (r : Run (B × ℕ × Bytes))
        → Ensures (λ x. Q x.0) r
        → Ensures (λ x. Q x.0) (add_count n r)
    counted n (ok (b, k, rest)) (normal q) = normal q
    counted n fault q = at_fault
    counted n out_of_fuel q = at_limit

    go :
        (r : Run (A × ℕ × Bytes))
        → Ensures (λ x. P x.0) r
        → Ensures
            (λ x. Q x.0)
            (elim r [
              | ok (a, n, rest) ↦ add_count n (f a rest)
              | fault ↦ fault
              | out_of_fuel ↦ out_of_fuel
            ])
    go (ok (a, n, rest)) (normal h) = counted n (f a rest) (then_yields a h rest)
    go fault h = at_fault
    go out_of_fuel h = at_limit

pub Yields-return : {A : Type 0} (P : A → Type 0) (a : A) → P a → Yields P (return a)
Yields-return P a h bs = normal h

pub Yields-map :
    {A B : Type 0} (P : A → Type 0) (Q : B → Type 0) (m : Reader A) (g : A → B)
    → Yields P m
    → ((a : A) → P a → Q (g a))
    → Yields Q (m >>= λ a. return (g a))
Yields-map P Q m g h to =
    Yields-bind P Q m (λ a. return (g a)) h λ a pa. Yields-return Q (g a) (to a pa)

pub Yields-read_many :
    {A : Type 0} (P : A → Type 0) (n : ℕ) (m : Reader A)
    → Yields P m
    → Yields (λ xs. (length xs ≡ n) × All P xs) (read_many n m)
unfolding read_many
Yields-read_many P zero m h = Yields-return _ [] (refl, tt)
Yields-read_many P (suc n) m h = Yields-bind P _ m _ h λ x hx.
    Yields-bind (λ xs. (length xs ≡ n) × All P xs) _ (read_many n m) _ (Yields-read_many P n m h)
      λ xs hxs. Yields-return _ (x ∷ xs) (omega (arith, hxs.0), (hx, hxs.1))

module _ {K : Type 0} (less : K → K → Bool)
    (less_trans : (x y z : K) → less x y ≡ true → less y z ≡ true → less x z ≡ true) where
  All-less :
      (x y : K) (ys : List K)
      → less x y ≡ true
      → All (λ z. less y z ≡ true) ys
      → All (λ z. less x z ≡ true) ys
  All-less x y [] h hs = tt
  All-less x y (z ∷ zs) h (hz, hs) = (less_trans x y z h hz, All-less x y zs h hs)

  All-insert : (P : K → Type 0) (x : K) (ys : List K) → P x → All P ys → All P (insert less x ys)
  unfolding insert
  All-insert P x [] h hs = (h, tt)
  All-insert P x (y ∷ ys) h (hy, hs) = elim (Bool-cases (less x y)) [
    | inl e ↦ rw (insert, e) (h, (hy, hs))
    | inr e ↦ elim (Bool-cases (less y x)) [
      | inl e' ↦ rw (insert, e, e') (hy, All-insert P x ys h hs)
      | inr e' ↦ rw (insert, e, e') (hy, hs)
    ]
  ]

  insert-InOrder : (x : K) (ys : List K) → InOrder less ys → InOrder less (insert less x ys)
  unfolding insert
  insert-InOrder x [] o = (tt, tt)
  insert-InOrder x (y ∷ ys) (below, o) = elim (Bool-cases (less x y)) [
    | inl e ↦ rw (insert, e) ((e, All-less x y ys e below), (below, o))
    | inr e ↦ elim (Bool-cases (less y x)) [
      | inl e' ↦
          rw (insert, e, e')
            (All-insert (λ z. less y z ≡ true) x ys e' below, insert-InOrder x ys o)
      | inr e' ↦ rw (insert, e, e') (below, o)
    ]
  ]

  pub Yields-read_into_set :
      (P : K → Type 0) (n : ℕ) (m : Reader K) (set : List K)
      → Yields P m
      → All P set × InOrder less set
      → Yields (λ xs. All P xs × InOrder less xs) (read_into_set less n m set)
  unfolding read_into_set
  Yields-read_into_set P zero m set h t = Yields-return _ set t
  Yields-read_into_set P (suc n) m set h (ts, o) = Yields-bind P _ m _ h λ x hx.
      Yields-read_into_set P n m (insert less x set) h
        (All-insert P x set hx ts, insert-InOrder x set o)

  module _ {V : Type 0} (P : K → Type 0) (Q : V → Type 0) where
    entry-HasType :
        (initial : V) (k : K) (m : List (K × V))
        → Q initial
        → All (λ e. P e.0 × Q e.1) m
        → Q (entry less initial k m)
    unfolding entry
    entry-HasType initial k [] q h = q
    entry-HasType initial k ((j, v) ∷ m) q ((hj, hv), hs) = elim (Bool-cases (less k j)) [
      | inl e ↦ rw (entry, e) q
      | inr e ↦ elim (Bool-cases (less j k)) [
        | inl e' ↦ rw (entry, e, e') (entry-HasType initial k m q hs)
        | inr e' ↦ rw (entry, e, e') hv
      ]
    ]

    -- The keys of the map with the new entry are those of a set with the new key.
    assign-keys :
        (k : K) (v : V) (m : List (K × V))
        → map (λ e. e.0) (assign less k v m) ≡ insert less k (map (λ e. e.0) m)
    unfolding assign insert
    assign-keys k v [] = refl
    assign-keys k v ((j, u) ∷ m) = elim (Bool-cases (less k j)) [
      | inl e ↦ rw (assign, insert, e) refl
      | inr e ↦ elim (Bool-cases (less j k)) [
        | inl e' ↦ rw (assign, insert, e, e') (ap (λ ks. j ∷ ks) (assign-keys k v m))
        | inr e' ↦ rw (assign, insert, e, e') refl
      ]
    ]

    All-assign :
        (k : K) (v : V) (m : List (K × V))
        → P k
        → Q v
        → All (λ e. P e.0 × Q e.1) m
        → All (λ e. P e.0 × Q e.1) (assign less k v m)
    unfolding assign
    All-assign k v [] hk hv h = ((hk, hv), tt)
    All-assign k v ((j, u) ∷ m) hk hv ((hj, hu), hs) = elim (Bool-cases (less k j)) [
      | inl e ↦ rw (assign, e) ((hk, hv), ((hj, hu), hs))
      | inr e ↦ elim (Bool-cases (less j k)) [
        | inl e' ↦ rw (assign, e, e') ((hj, hu), All-assign k v m hk hv hs)
        | inr e' ↦ rw (assign, e, e') ((hj, hv), hs)
      ]
    ]

    length-assign : (k : K) (v : V) (m : List (K × V)) → length (assign less k v m) ≤ suc (length m)
    unfolding assign
    length-assign k v [] = omega arith
    length-assign k v ((j, u) ∷ m) = ground (arith, length-assign k v m)

    pub Yields-read_into_map :
        (initial : V) (n : ℕ) (read_key : Reader K) (read_value : V → Reader V) (m : List (K × V))
        → Q initial
        → Yields P read_key
        → ((v : V) → Q v → Yields Q (read_value v))
        → length m + n < 2 ^ 31
        → All (λ e. P e.0 × Q e.1) m × InOrder less (map (λ e. e.0) m)
        → Yields
            (λ es.
              (length es < 2 ^ 31) × All (λ e. P e.0 × Q e.1) es × InOrder less (map (λ e. e.0) es))
            (read_into_map less initial n read_key read_value m)
    unfolding read_into_map
    Yields-read_into_map initial zero read_key read_value m q hk hv small t =
        Yields-return _ m (omega arith, t.0, t.1)
    Yields-read_into_map initial (suc n) read_key read_value m q hk hv small (h, o) =
        Yields-bind P _ read_key _ hk λ k pk.
          Yields-bind Q _ (read_value (entry less initial k m)) _
            (hv (entry less initial k m) (entry-HasType initial k m q h))
            λ v qv.
              Yields-read_into_map initial n read_key read_value (assign less k v m) q hk hv
                (omega (arith, length-assign k v m))
                (
                  All-assign k v m pk qv h,
                  rw (assign-keys k v m) (insert-InOrder k (map (λ e. e.0) m) o),
                )
