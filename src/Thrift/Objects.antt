-- ===== src/Thrift/Objects.antt =====
-- thrift/thrift_struct_declare.h and thrift_struct_define.h: the accessors of the fields of a struct.
pub mod Compare
pub mod Copy
use msgrpc.Base.{ℕ, ◌≡◌, refl, Bool, true, Run, ok, ◌>>◌, assert, arith}
use msgrpc.Msg.{Bytes}
use msgrpc.Thrift.{
  TypeT, t_bool, t_byte, t_i16, t_i32, t_i64, t_double, t_string, t_binary, t_list, t_set, t_map,
  t_struct, Fields, end, required, optional, Value, Object, default, default_object,
}
use msgrpc.Thrift.Codec.Writable.{IsWritable, AreWritable}

-- One of the fields, of type `t`.
pub data FieldOf : Fields → TypeT → Type 0 where
  first_required :
      {fid : ℕ} {name : Bytes} {t : TypeT} {fs : Fields} → FieldOf (required fid name t fs) t
  first_optional :
      {fid : ℕ} {name : Bytes} {t : TypeT} {fs : Fields} → FieldOf (optional fid name t fs) t
  behind_required :
      {fid : ℕ} {name : Bytes} {t u : TypeT} {fs : Fields}
      → FieldOf fs u
      → FieldOf (required fid name t fs) u
  behind_optional :
      {fid : ℕ} {name : Bytes} {t u : TypeT} {fs : Fields}
      → FieldOf fs u
      → FieldOf (optional fid name t fs) u

-- `__set_…`: an optional field is set from then on.
unfoldable pub set_field :
    {fs : Fields} {t : TypeT} → FieldOf fs t → Value t → Object fs → Object fs
set_field first_required v (x, o) = (v, o)
set_field first_optional v (slot, o) = (record { value = v; isset = true }, o)
set_field (behind_required f) v (x, o) = (x, set_field f v o)
set_field (behind_optional f) v (slot, o) = (slot, set_field f v o)

-- `get_…` of an optional field, which is asserted to be set, and a required field itself.
unfoldable pub get_field : {fs : Fields} {t : TypeT} → FieldOf fs t → Object fs → Run (Value t)
get_field first_required (x, o) = ok x
get_field first_optional (slot, o) = do assert slot.isset; ok slot.value
get_field (behind_required f) (x, o) = get_field f o
get_field (behind_optional f) (slot, o) = get_field f o

-- A field that was set is there.
pub get_field-set_field :
    {fs : Fields} {t : TypeT} (f : FieldOf fs t) (v : Value t) (o : Object fs)
    → get_field f (set_field f v o) ≡ ok v
unfolding get_field set_field
get_field-set_field first_required v (x, o) = refl
get_field-set_field first_optional v (slot, o) = refl
get_field-set_field (behind_required f) v (x, o) = get_field-set_field f v o
get_field-set_field (behind_optional f) v (slot, o) = get_field-set_field f v o

module _ (less : (t : TypeT) → Value t → Value t → Bool) where
  mutual
    unfolding default

    every_default : (t : TypeT) → IsWritable less t (default t)
    every_default t_bool = tt
    every_default t_byte = omega arith
    every_default t_i16 = omega arith
    every_default t_i32 = omega arith
    every_default t_i64 = omega arith
    every_default t_double = omega arith
    every_default t_string = omega arith
    every_default t_binary = omega arith
    every_default (t_list t) = (omega arith, tt)
    every_default (t_set t) = (omega arith, tt, tt)
    every_default (t_map k u) = (omega arith, tt, tt)
    every_default (t_struct name fs) = every_object fs

    every_object : (fs : Fields) → AreWritable less fs (default_object fs)
    every_object end = tt
    every_object (required fid name t fs) = (every_default t, every_object fs)
    every_object (optional fid name t fs) = ((λ e. cc, λ e. refl), every_object fs)

  -- What a constructor gives can be written.
  pub default_object-AreWritable : (fs : Fields) → AreWritable less fs (default_object fs)
  default_object-AreWritable fs = every_object fs

  -- Setting a field to a value that can be written keeps an object such that it can be written.
  pub set_field-AreWritable :
      {fs : Fields} {t : TypeT} (f : FieldOf fs t) (v : Value t) (o : Object fs)
      → IsWritable less t v
      → AreWritable less fs o
      → AreWritable less fs (set_field f v o)
  unfolding set_field
  set_field-AreWritable first_required v (x, o) ok_v (ok_x, ok_o) = (ok_v, ok_o)
  set_field-AreWritable first_optional v (slot, o) ok_v (ok_x, ok_o) = ((λ e. ok_v, λ e. cc), ok_o)
  set_field-AreWritable (behind_required f) v (x, o) ok_v (ok_x, ok_o) =
      (ok_x, set_field-AreWritable f v o ok_v ok_o)
  set_field-AreWritable (behind_optional f) v (slot, o) ok_v (ok_x, ok_o) =
      (ok_x, set_field-AreWritable f v o ok_v ok_o)
