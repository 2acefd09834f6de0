-- ===== src/Thrift/Codec/Total.antt =====
-- Reading ends: as many rounds as there are bytes are enough.
use msgrpc.Base.{
  ℕ, zero, suc, ◌+◌, ◌<◌, inl, inr, Bool, true, false, [], ◌∷◌, length, arith, ◌==◌, Bool-cases,
}
use msgrpc.Msg.{Bytes}
use msgrpc.Thrift.{
  TypeT, t_bool, t_byte, t_i16, t_i32, t_i64, t_double, t_string, t_binary, t_list, t_set, t_map,
  t_struct, Fields, end, required, optional, code, Value, Object, default,
}
use msgrpc.Thrift.Protocol.{Reader, ◌>>=◌, return, stop, field, Protocol}
use msgrpc.Thrift.Codec.{
  read, read_struct, read_field, field_loop, check_received, Received, with_rounds, read_many,
  read_into_set, read_into_map, all_received, none_received,
}
use msgrpc.Thrift.Codec.Ends.{
  Within, reads, throws, Ends, Advances, Within-le, Within-bind, Ends-bind, Ends-return, Ends-throw,
  Ends-read_many, Ends-read_into_set, Ends-read_into_map,
}

module _ (p : Protocol) (advances : Advances p) where
  field_loop-Within :
      {S : Type 0} (rf : ℕ → ℕ → S → Reader S)
      → ((ftype fid : ℕ) (s : S) → Ends (rf ftype fid s))
      → (rounds : ℕ) (s : S) (bs : Bytes) → length bs < rounds
      → Within (length bs) (field_loop p rounds rf s bs)
  unfolding field_loop
  field_loop-Within rf h zero s bs enough = elim enough [ ]
  field_loop-Within rf h (suc k) s [] enough =
      rw (advances.field_begin_nothing, field_loop, ◌>>=◌) throws
  field_loop-Within {S} rf h (suc k) s (b ∷ bs) enough =
      Within-bind p.read_field_begin _ (b ∷ bs) (length bs) (suc (length bs))
        (advances.field_begin_ends b bs)
        (λ header rest small.
          elim header
            as (λ x. Within (suc (length bs)) (
              (elim x as (λ x. Reader S) [
                | stop ↦ return s
                | field ftype fid ↦
                    rf ftype fid s >>= λ s'. p.read_field_end >>= λ _. field_loop p k rf s'
              ])
                rest)) [
                  | stop ↦ reads s 0 rest (omega arith)
                  | field ftype fid ↦
                      Within-bind (rf ftype fid s) _ rest (length bs) (suc (length bs))
                        (Within-le (length rest) (length bs) small (h ftype fid s rest))
                        (λ s' rest' small'.
                          Within-bind p.read_field_end _ rest' (length bs) (suc (length bs))
                            (Within-le (length rest') (length bs) small'
                              (advances.field_end_ends rest'))
                            (λ u rest'' small''.
                              Within-le (length rest'') (suc (length bs)) (omega arith)
                                (field_loop-Within rf h k s' rest'' (omega arith))))
                ])

  check_received-Ends : {A : Type 0} (b : Bool) (a : A) → Ends (check_received p b a)
  unfolding check_received
  check_received-Ends true a = Ends-return a
  check_received-Ends false a = Ends-throw

  read_struct-Ends :
      (fs : Fields) (rf : ℕ → ℕ → Object fs × Received → Reader (Object fs × Received))
      (old : Object fs)
      → ((ftype fid : ℕ) (s : Object fs × Received) → Ends (rf ftype fid s))
      → Ends (with_rounds (read_struct p fs rf old))
  unfolding read_struct
  read_struct-Ends fs rf old h bs =
      Within-bind p.read_struct_begin _ bs (length bs) (length bs) (advances.struct_begin_ends bs)
        (λ u rest small.
          Within-bind (field_loop p (suc (length bs)) rf (old, none_received)) _ rest (length bs)
            (length bs)
            (Within-le (length rest) (length bs) small
              (field_loop-Within rf h (suc (length bs)) (old, none_received) rest (omega arith)))
            (λ s rest' small'. Within-le (length rest') (length bs) small' (
              Ends-bind p.read_struct_end _ advances.struct_end_ends
                (λ _. check_received-Ends (all_received fs s.1) s.0) rest')))

  module _ (less : (t : TypeT) → Value t → Value t → Bool) where
    container-Ends :
        {H A : Type 0} (read_begin : Reader H) (read_end : Reader (Unit {0})) (loop : H → Reader A)
        → Ends read_begin
        → ((h : H) → Ends (loop h))
        → Ends read_end
        → Ends (read_begin >>= λ x. loop x >>= λ y. read_end >>= λ _. return y)
    container-Ends read_begin read_end loop hb hl he =
        Ends-bind read_begin _ hb
          (λ x. Ends-bind (loop x) _ (hl x) (λ y. Ends-bind read_end _ he (λ _. Ends-return y)))

    mutual
      unfolding read

      every_type : (t : TypeT) (depth : ℕ) (old : Value t) → Ends (read p less t depth old)
      every_type t_bool depth old = advances.bool_ends
      every_type t_byte depth old = advances.byte_ends
      every_type t_i16 depth old = advances.i16_ends
      every_type t_i32 depth old = advances.i32_ends
      every_type t_i64 depth old = advances.i64_ends
      every_type t_double depth old = advances.double_ends
      every_type t_string depth old = advances.string_ends
      every_type t_binary depth old = advances.binary_ends
      every_type (t_list t) depth old =
          container-Ends p.read_list_begin p.read_list_end
            (λ h. read_many h.1 (read p less t depth (default t))) advances.list_begin_ends
            (λ h. Ends-read_many h.1 _ (every_type t depth (default t))) advances.list_end_ends
      every_type (t_set t) depth old =
          container-Ends p.read_set_begin p.read_set_end
            (λ h. read_into_set (less t) h.1 (read p less t depth (default t)) old)
            advances.set_begin_ends
            (λ h. Ends-read_into_set (less t) h.1 _ old (every_type t depth (default t)))
            advances.set_end_ends
      every_type (t_map k u) depth old =
          container-Ends p.read_map_begin p.read_map_end
            (λ h.
              read_into_map (less k) (default u) h.2 (read p less k depth (default k))
                (read p less u depth) [])
            advances.map_begin_ends
            (λ h.
              Ends-read_into_map (less k) (default u) h.2 _ _ [] (every_type k depth (default k))
                (λ v. every_type u depth v))
            advances.map_end_ends
      every_type (t_struct name fs) depth old = elim (Bool-cases (p.may_nest depth)) [
        | inl allowed ↦ rw allowed (
            read_struct-Ends fs (read_field p less fs (depth + 1)) old
              (λ ftype fid s. every_field fs (depth + 1) ftype fid s))
        | inr too_deep ↦ rw too_deep Ends-throw
      ]

      every_field :
          (fs : Fields) (depth ftype fid : ℕ) (s : Object fs × Received)
          → Ends (read_field p less fs depth ftype fid s)
      every_field end depth ftype fid s =
          Ends-bind (p.skip ftype) _ (advances.skip_ends ftype) (λ _. Ends-return s)
      every_field (required f name t fs) depth ftype fid ((v, o), got) =
          elim (Bool-cases (fid == f)) [
            | inl here ↦ rw here (elim (Bool-cases (ftype == code t)) [
              | inl fits ↦
                  rw fits (
                    Ends-bind (read p less t depth v) _ (every_type t depth v)
                      (λ v'. Ends-return _))
              | inr other ↦
                  rw other
                    (Ends-bind (p.skip ftype) _ (advances.skip_ends ftype) (λ _. Ends-return _))
            ])
            | inr there ↦ rw there (
                Ends-bind (read_field p less fs depth ftype fid (o, got)) _
                  (every_field fs depth ftype fid (o, got)) (λ s'. Ends-return _))
          ]
      every_field (optional f name t fs) depth ftype fid ((slot, o), got) =
          elim (Bool-cases (fid == f)) [
            | inl here ↦ rw here (elim (Bool-cases (ftype == code t)) [
              | inl fits ↦ rw fits (
                  Ends-bind (read p less t depth slot.value) _ (every_type t depth slot.value)
                    (λ v'. Ends-return _))
              | inr other ↦
                  rw other
                    (Ends-bind (p.skip ftype) _ (advances.skip_ends ftype) (λ _. Ends-return _))
            ])
            | inr there ↦ rw there (
                Ends-bind (read_field p less fs depth ftype fid (o, got)) _
                  (every_field fs depth ftype fid (o, got)) (λ s'. Ends-return _))
          ]

    -- Reading a value ends whatever the bytes are: it gives a value and no more bytes than there
    -- were, or it throws; the rounds of the loops are enough.
    pub read-Ends :
        (t : TypeT) (depth : ℕ) (old : Value t) (bs : Bytes)
        → Within (length bs) (read p less t depth old bs)
    read-Ends t depth old bs = every_type t depth old bs
