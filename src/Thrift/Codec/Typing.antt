-- ===== src/Thrift/Codec/Typing.antt =====
-- What is read has its type.
use msgrpc.Base.{
  ℕ, zero, suc, ◌+◌, ◌<◌, ◌^◌, ◌≡◌, refl, inl, inr, Bool, true, false, List, [], length, Run, ok,
  Bool-cases, Ensures, Ensures-mono, normal, at_fault, at_limit, ◌==◌, arith,
}
use msgrpc.Msg.{Bytes}
use msgrpc.Thrift.{
  TypeT, t_bool, t_byte, t_i16, t_i32, t_i64, t_double, t_string, t_binary, t_list, t_set, t_map,
  t_struct, Fields, end, required, optional, code, Value, Object, default, default_object,
}
use msgrpc.Thrift.Protocol.{Reader, ◌>>=◌, return, stop, field, Protocol}
use msgrpc.Thrift.Codec.{
  read, read_struct, read_field, field_loop, check_received, Received, with_rounds, read_many,
  read_into_set, read_into_map, all_received, none_received, mark,
}
use msgrpc.Thrift.Codec.Ends.{Within, Advances}
use msgrpc.Thrift.Codec.Total.{read-Ends}
use msgrpc.Thrift.Codec.Writable.{All}
use msgrpc.Thrift.Codec.Typed.{
  HasType, HasFields, Yields, ReadsTypes, Yields-bind, Yields-return, Yields-map, Yields-read_many,
  Yields-read_into_set, Yields-read_into_map,
}

module _ (less : (t : TypeT) → Value t → Value t → Bool) where
  mutual
    unfolding default

    pub default-HasType : (t : TypeT) → HasType less t (default t)
    default-HasType t_bool = tt
    default-HasType t_byte = omega arith
    default-HasType t_i16 = omega arith
    default-HasType t_i32 = omega arith
    default-HasType t_i64 = omega arith
    default-HasType t_double = omega arith
    default-HasType t_string = omega arith
    default-HasType t_binary = omega arith
    default-HasType (t_list t) = (omega arith, tt)
    default-HasType (t_set t) = (tt, tt)
    default-HasType (t_map k u) = (omega arith, tt, tt)
    default-HasType (t_struct name fs) = default_object-HasFields fs

    default_object-HasFields : (fs : Fields) → HasFields less fs (default_object fs)
    default_object-HasFields end = tt
    default_object-HasFields (required fid name t fs) =
        (default-HasType t, default_object-HasFields fs)
    default_object-HasFields (optional fid name t fs) =
        ((default-HasType t, λ e. refl), default_object-HasFields fs)

set_not_unset : {A : Type 0} (v w : A) → true ≡ false → v ≡ w
set_not_unset v w e = cc

module _ (p : Protocol) (types : ReadsTypes p) where
  anything : {A : Type 0} (m : Reader A) → Yields (λ a. Unit {0}) m
  anything m bs = go (m bs)
    where
      go : {A : Type 0} (r : Run A) → Ensures (λ a. Unit {0}) r
      go (ok a) = normal tt
      go Run.fault = at_fault
      go Run.out_of_fuel = at_limit

  module _ {S : Type 0} (P : S → Type 0) (rf : ℕ → ℕ → S → Reader S)
      (h : (ftype fid : ℕ) (s : S) → P s → Yields P (rf ftype fid s)) where
    field_loop-Yields : (rounds : ℕ) (s : S) → P s → Yields P (field_loop p rounds rf s)
    unfolding field_loop
    field_loop-Yields zero s t = λ bs. at_limit
    field_loop-Yields (suc k) s t =
        Yields-bind (λ x. Unit {0}) P p.read_field_begin _ (anything p.read_field_begin)
          λ header u.
            elim header
              as (λ x. Yields P (elim x as (λ y. Reader S) [
                | stop ↦ return s
                | field ftype fid ↦
                    rf ftype fid s >>= λ s'. p.read_field_end >>= λ _. field_loop p k rf s'
              ])) [
                | stop ↦ Yields-return P s t
                | field ftype fid ↦ Yields-bind P P (rf ftype fid s) _ (h ftype fid s t) λ s' t'.
                    Yields-bind (λ x. Unit {0}) P p.read_field_end _ (anything p.read_field_end)
                      λ x u'. field_loop-Yields k s' t'
              ]

  check_received-Yields :
      {A : Type 0} (P : A → Type 0) (b : Bool) (a : A) → P a → Yields P (check_received p b a)
  unfolding check_received
  check_received-Yields P true a t = Yields-return P a t
  check_received-Yields P false a t = λ bs. at_fault

  read_struct-Yields :
      (fs : Fields) (P : Object fs → Type 0)
      (rf : ℕ → ℕ → Object fs × Received → Reader (Object fs × Received)) (old : Object fs)
      → ((ftype fid : ℕ) (s : Object fs × Received)
          → P s.0
          → Yields (λ s'. P s'.0) (rf ftype fid s))
      → P old
      → Yields P (with_rounds (read_struct p fs rf old))
  unfolding read_struct
  read_struct-Yields fs P rf old h t bs =
      Yields-bind (λ x. Unit {0}) P p.read_struct_begin _ (anything p.read_struct_begin)
        (λ x u.
          Yields-bind (λ s. P s.0) P (field_loop p (suc (length bs)) rf (old, none_received)) _
            (field_loop-Yields (λ s. P s.0) rf h (suc (length bs)) (old, none_received) t)
            λ s t'.
              Yields-bind (λ x. Unit {0}) P p.read_struct_end _ (anything p.read_struct_end)
                λ x' u'. check_received-Yields P (all_received fs s.1) s.0 t')
        bs

  container-Yields :
      {H A : Type 0} (I : H → Type 0) (P : A → Type 0) (read_begin : Reader H)
      (read_end : Reader (Unit {0})) (loop : H → Reader A)
      → Yields I read_begin
      → ((h : H) → I h → Yields P (loop h))
      → Yields P (read_begin >>= λ x. loop x >>= λ y. read_end >>= λ _. return y)
  container-Yields I P read_begin read_end loop hb hl = Yields-bind I P read_begin _ hb λ x i.
      Yields-bind P P (loop x) _ (hl x i) λ y t.
        Yields-bind (λ x. Unit {0}) P read_end _ (anything read_end) λ z u. Yields-return P y t

  -- A field of another type is skipped.
  skipped :
      {S : Type 0} (ftype : ℕ) (P : S → Type 0) (s : S)
      → P s
      → Yields P (p.skip ftype >>= λ u. return s)
  skipped ftype P s t =
      Yields-bind (λ x. Unit {0}) P (p.skip ftype) _ (anything (p.skip ftype))
        λ x u. Yields-return P s t

  longer :
      {A : Type 0} {P : A → Type 0} (m : Reader (List A)) (n : ℕ)
      → n < 2 ^ 31
      → Yields (λ xs. (length xs ≡ n) × All P xs) m
      → Yields (λ xs. (length xs < 2 ^ 31) × All P xs) m
  longer m n small h bs = Ensures-mono (h bs) λ r t. (omega (arith, t.0), t.1)

  module _ (less : (t : TypeT) → Value t → Value t → Bool)
      (less_trans : (t : TypeT) (x y z : Value t)
        → less t x y ≡ true
        → less t y z ≡ true
        → less t x z ≡ true) where
    abbrev AreTyped : (fs : Fields) → Object fs × Received → Type 0
    AreTyped fs s = HasFields less fs s.0

    mutual
      unfolding read

      typed_values :
          (t : TypeT) (depth : ℕ) (old : Value t)
          → HasType less t old
          → Yields (HasType less t) (read p less t depth old)
      typed_values t_bool depth old h = anything p.read_bool
      typed_values t_byte depth old h = types.byte_yields
      typed_values t_i16 depth old h = types.i16_yields
      typed_values t_i32 depth old h = types.i32_yields
      typed_values t_i64 depth old h = types.i64_yields
      typed_values t_double depth old h = types.double_yields
      typed_values t_string depth old h = types.string_yields
      typed_values t_binary depth old h = types.binary_yields
      typed_values (t_list t) depth old h =
          container-Yields (λ x. x.1 < 2 ^ 31) _ p.read_list_begin p.read_list_end
            (λ x. read_many x.1 (read p less t depth (default t))) types.list_begin_yields
            (λ x small. longer (read_many x.1 (read p less t depth (default t))) x.1 small (
              Yields-read_many (HasType less t) x.1 _
                (typed_values t depth (default t) (default-HasType less t))))
      typed_values (t_set t) depth old h =
          container-Yields (λ x. Unit {0}) _ p.read_set_begin p.read_set_end
            (λ x. read_into_set (less t) x.1 (read p less t depth (default t)) old)
            (anything p.read_set_begin)
            (λ x u.
              Yields-read_into_set (less t) (less_trans t) (HasType less t) x.1 _ old
                (typed_values t depth (default t) (default-HasType less t)) h)
      typed_values (t_map k u) depth old h =
          container-Yields (λ x. x.2 < 2 ^ 31) _ p.read_map_begin p.read_map_end
            (λ x.
              read_into_map (less k) (default u) x.2 (read p less k depth (default k))
                (read p less u depth) [])
            types.map_begin_yields
            (λ x small.
              Yields-read_into_map (less k) (less_trans k) (HasType less k) (HasType less u)
                (default u) x.2 _ _ [] (default-HasType less u)
                (typed_values k depth (default k) (default-HasType less k))
                (λ v t. typed_values u depth v t) (omega arith) (tt, tt))
      typed_values (t_struct name fs) depth old h = elim (Bool-cases (p.may_nest depth)) [
        | inl allowed ↦ rw allowed (
            read_struct-Yields fs (HasFields less fs) (read_field p less fs (depth + 1)) old
              (λ ftype fid s t. typed_fields fs (depth + 1) ftype fid s t) h)
        | inr too_deep ↦ rw too_deep (λ bs. at_fault)
      ]

      typed_fields :
          (fs : Fields) (depth ftype fid : ℕ) (s : Object fs × Received)
          → AreTyped fs s
          → Yields (AreTyped fs) (read_field p less fs depth ftype fid s)
      typed_fields end depth ftype fid s h = skipped ftype (AreTyped end) s tt
      typed_fields (required f name t fs) depth ftype fid ((v, o), got) (h, hs) =
          elim (Bool-cases (fid == f)) [
            | inl here ↦ rw here (elim (Bool-cases (ftype == code t)) [
              | inl fits ↦ rw fits (
                  Yields-map (HasType less t) (AreTyped (required f name t fs))
                    (read p less t depth v) (λ v'. ((v', o), mark f got)) (typed_values t depth v h)
                    λ v' h'. (h', hs))
              | inr other ↦
                  rw other (skipped ftype (AreTyped (required f name t fs)) ((v, o), got) (h, hs))
            ])
            | inr there ↦ rw there (
                Yields-map (AreTyped fs) (AreTyped (required f name t fs))
                  (read_field p less fs depth ftype fid (o, got)) (λ s'. ((v, s'.0), s'.1))
                  (typed_fields fs depth ftype fid (o, got) hs) λ s' hs'. (h, hs'))
          ]
      typed_fields (optional f name t fs) depth ftype fid ((slot, o), got) (h, hs) =
          elim (Bool-cases (fid == f)) [
            | inl here ↦ rw here (elim (Bool-cases (ftype == code t)) [
              | inl fits ↦ rw fits (
                  Yields-map (HasType less t) (AreTyped (optional f name t fs))
                    (read p less t depth slot.value)
                    (λ v'. ((record { value = v'; isset = true }, o), got))
                    (typed_values t depth slot.value h.0)
                    λ v' h'. ((h', set_not_unset v' (default t)), hs))
              | inr other ↦
                  rw other
                    (skipped ftype (AreTyped (optional f name t fs)) ((slot, o), got) (h, hs))
            ])
            | inr there ↦ rw there (
                Yields-map (AreTyped fs) (AreTyped (optional f name t fs))
                  (read_field p less fs depth ftype fid (o, got)) (λ s'. ((slot, s'.0), s'.1))
                  (typed_fields fs depth ftype fid (o, got) hs) λ s' hs'. (h, hs'))
          ]

    -- Whatever the bytes are, reading a value of any type ends, and what it gives, if it does not
    -- throw, has its type: numbers in range, sizes that fit, sets and maps in order without a key
    -- twice. The value before has its type, the protocol's calls yield numbers of their widths and
    -- sizes that are not negative and take bytes when they succeed, and the order of each type is transitive.
    pub read-HasType :
        (advances : Advances p) (t : TypeT) (depth : ℕ) (old : Value t) (bs : Bytes)
        → HasType less t old
        → Within (length bs) (read p less t depth old bs)
          × Ensures (λ r. HasType less t r.0) (read p less t depth old bs)
    read-HasType advances t depth old bs h =
        (read-Ends p advances less t depth old bs, typed_values t depth old h bs)
