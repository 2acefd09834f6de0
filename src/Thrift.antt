-- ===== src/Thrift.antt =====
-- thrift/thrift_types.h and thrift_struct_declare.h: the types of fields, the objects of the structs
-- that the macros declare, and what the parts of the codec share.
pub mod Protocol
pub mod Codec
pub mod Structs
pub mod Buffers
pub mod Objects
use msgrpc.Base.{ℕ, Bool, false, List, []}
use msgrpc.Msg.{Bytes}

-- The types that `TTypeT` knows. The fields of a struct are those of its `___fields_of_struct___`
-- macro, in order: id, name and type.
mutual
  pub data TypeT : Type 0 where
    t_bool t_byte t_i16 t_i32 t_i64 t_double t_string t_binary : TypeT
    t_list t_set : TypeT → TypeT
    t_map : TypeT → TypeT → TypeT
    t_struct : Bytes → Fields → TypeT

  pub data Fields : Type 0 where
    end : Fields
    required optional : ℕ → Bytes → TypeT → Fields → Fields

-- `TTypeT<T>::value`.
abbrev pub code : TypeT → ℕ
code t_bool = 2
code t_byte = 3
code t_double = 4
code t_i16 = 6
code t_i32 = 8
code t_i64 = 10
code t_string = 11
code t_binary = 11
code (t_struct name fs) = 12
code (t_map k v) = 13
code (t_set t) = 14
code (t_list t) = 15

-- An optional field and its bit in `__isset`.
pub record Slot (A : Type 0) : Type 0 where
  pub value : A
  pub isset : Bool

-- Integers and doubles are bit patterns; a set and a map are in the order of their elements and keys.
abbrev mutual
  pub Value : TypeT → Type 0
  Value t_bool = Bool
  Value t_byte = ℕ
  Value t_i16 = ℕ
  Value t_i32 = ℕ
  Value t_i64 = ℕ
  Value t_double = ℕ
  Value t_string = Bytes
  Value t_binary = Bytes
  Value (t_list t) = List (Value t)
  Value (t_set t) = List (Value t)
  Value (t_map k v) = List (Value k × Value v)
  Value (t_struct name fs) = Object fs

  pub Object : Fields → Type 0
  Object end = Unit
  Object (required fid name t fs) = Value t × Object fs
  Object (optional fid name t fs) = Slot (Value t) × Object fs

-- What a constructor without arguments gives.
unfoldable mutual
  pub default : (t : TypeT) → Value t
  default t_bool = false
  default t_byte = 0
  default t_i16 = 0
  default t_i32 = 0
  default t_i64 = 0
  default t_double = 0
  default t_string = []
  default t_binary = []
  default (t_list t) = []
  default (t_set t) = []
  default (t_map k v) = []
  default (t_struct name fs) = default_object fs

  pub default_object : (fs : Fields) → Object fs
  default_object end = tt
  default_object (required fid name t fs) = (default t, default_object fs)
  default_object (optional fid name t fs) =
      (record { value = default t; isset = false }, default_object fs)
