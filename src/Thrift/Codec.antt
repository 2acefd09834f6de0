-- ===== src/Thrift/Codec.antt =====
-- thrift/thrift_types.h and thrift_struct_define.h: `TTypeT<T>::read` and `write` of every type, and
-- the `read` and `write` of the structs.
pub mod Writable
pub mod Containers
pub mod Loops
pub mod Written
pub mod RoundTrip
pub mod Evolution
pub mod Ends
pub mod Total
pub mod Typed
pub mod Typing
use msgrpc.Base.{
  ℕ, zero, suc, ◌+◌, ◌%◌, ◌^◌, Bool, true, false, ◌&&◌, List, [], ◌∷◌, ◌++◌, Run, ok, fault,
  out_of_fuel, length, if◌then◌else◌, ◌==◌,
}
use msgrpc.Msg.{Bytes}
use msgrpc.Thrift.{
  TypeT, t_bool, t_byte, t_i16, t_i32, t_i64, t_double, t_string, t_binary, t_list, t_set, t_map,
  t_struct, Fields, end, required, optional, code, Slot, Value, Object, default, default_object,
}
use msgrpc.Thrift.Protocol.{
  Reader, ◌>>=◌, ◌>>◌, return, throw, ◌<+>◌, FieldHeader, stop, field, Protocol,
}

-- The loops over the elements of a container.
unfoldable pub write_all : {A : Type 0} → (A → Run Bytes) → List A → Run Bytes
write_all write [] = ok []
write_all write (x ∷ xs) = write x <+> write_all write xs

unfoldable pub read_many : {A : Type 0} → ℕ → Reader A → Reader (List A)
read_many zero read = return []
read_many (suc n) read = do x ← read; xs ← read_many n read; return (x ∷ xs)

-- `std::set` and `std::map` under the order `less` of their keys.
module _ {K : Type 0} (less : K → K → Bool) where
  unfoldable pub insert : K → List K → List K
  insert x [] = x ∷ []
  insert x (y ∷ ys) =
      let rest = insert x ys in
      if less x y then x ∷ y ∷ ys else if less y x then y ∷ rest else y ∷ ys

  unfoldable pub read_into_set : ℕ → Reader K → List K → Reader (List K)
  unfolding insert
  read_into_set zero read set = return set
  read_into_set (suc n) read set = do x ← read; read_into_set n read (insert x set)

  module _ {V : Type 0} where
    -- `map[key]` as it stands before the value is read: a missing entry gets an initial value.
    unfoldable pub entry : V → K → List (K × V) → V
    entry initial k [] = initial
    entry initial k ((j, v) ∷ m) =
        let rest = entry initial k m in if less k j then initial else if less j k then rest else v

    -- The map when the value was read into `map[key]`.
    unfoldable pub assign : K → V → List (K × V) → List (K × V)
    assign k v [] = (k, v) ∷ []
    assign k v ((j, u) ∷ m) =
        let rest = assign k v m in
        if less k j then (k, v) ∷ (j, u) ∷ m else if less j k then (j, u) ∷ rest else (j, v) ∷ m

    unfoldable pub read_into_map :
        V → ℕ → Reader K → (V → Reader V) → List (K × V) → Reader (List (K × V))
    unfolding entry assign
    read_into_map initial zero read_key read_value m = return m
    read_into_map initial (suc n) read_key read_value m = do
      k ← read_key
      v ← read_value (entry initial k m)
      read_into_map initial n read_key read_value (assign k v m)

-- A reader with as many rounds as there are bytes to read, and one more.
abbrev pub with_rounds : {A : Type 0} → (ℕ → Reader A) → Reader A
with_rounds read bytes = read (suc (length bytes)) bytes

-- Which required fields were read: the local flags `isset_…` of `read`.
abbrev pub Received : Type 0
Received = ℕ → Bool

abbrev pub none_received : Received
none_received fid = false

abbrev pub mark : ℕ → Received → Received
mark fid got f = if f == fid then true else got f

unfoldable pub all_received : Fields → Received → Bool
all_received end got = true
all_received (required fid name t fs) got = got fid && all_received fs got
all_received (optional fid name t fs) got = all_received fs got

module _ (p : Protocol) where
  -- The loop of `read` over the fields, where `read_field` is its `switch`. Each round reads a header.
  unfoldable pub field_loop : {S : Type 0} → ℕ → (ℕ → ℕ → S → Reader S) → S → Reader S
  field_loop zero read_field s = λ bytes. out_of_fuel
  field_loop (suc k) read_field s = do
    header ← p.read_field_begin
    elim header [
      | stop ↦ return s
      | field ftype fid ↦ (do
        s' ← read_field ftype fid s
        p.read_field_end
        field_loop k read_field s')
    ]

  unfoldable pub check_received : {A : Type 0} → Bool → A → Reader A
  check_received true a = return a
  check_received false a = throw

  -- The `read` of a struct behind its tracker, where `read_field` is its `switch`.
  unfoldable pub read_struct :
      (fs : Fields)
      → (ℕ → ℕ → Object fs × Received → Reader (Object fs × Received))
      → Object fs
      → ℕ
      → Reader (Object fs)
  unfolding check_received all_received field_loop
  read_struct fs read_field old rounds = do
    p.read_struct_begin
    (o, got) ← field_loop rounds read_field (old, none_received)
    p.read_struct_end
    check_received (all_received fs got) o

  -- `depth` is the number of structs that are open.
  unfoldable mutual
    pub write : (t : TypeT) → ℕ → Value t → Run Bytes
    write t_bool depth v = ok (p.write_bool v)
    write t_byte depth v = ok (p.write_byte v)
    write t_i16 depth v = ok (p.write_i16 v)
    write t_i32 depth v = ok (p.write_i32 v)
    write t_i64 depth v = ok (p.write_i64 v)
    write t_double depth v = ok (p.write_double v)
    write t_string depth v = ok (p.write_string v)
    write t_binary depth v = ok (p.write_string v)
    write (t_list t) depth v =
        ok (p.write_list_begin (code t) (length v % 2 ^ 32))
        <+> write_all (write t depth) v
        <+> ok p.write_list_end
    write (t_set t) depth v =
        ok (p.write_set_begin (code t) (length v % 2 ^ 32))
        <+> write_all (write t depth) v
        <+> ok p.write_set_end
    write (t_map k u) depth v =
        ok (p.write_map_begin (code k) (code u) (length v % 2 ^ 32))
        <+> write_all (λ e. write k depth e.0 <+> write u depth e.1) v
        <+> ok p.write_map_end
    write (t_struct name fs) depth v =
        if p.may_nest depth
        then ok (p.write_struct_begin name)
          <+> write_fields fs (depth + 1) v
          <+> ok p.write_struct_end
        else fault

    -- The fields in turn, and the mark that ends them.
    pub write_fields : (fs : Fields) → ℕ → Object fs → Run Bytes
    write_fields end depth o = ok p.write_field_stop
    write_fields (required fid name t fs) depth (v, o) =
        ok (p.write_field_begin name (code t) fid)
        <+> write t depth v
        <+> ok p.write_field_end
        <+> write_fields fs depth o
    write_fields (optional fid name t fs) depth (slot, o) =
        if slot.isset
        then ok (p.write_field_begin name (code t) fid)
          <+> write t depth slot.value
          <+> ok p.write_field_end
          <+> write_fields fs depth o
        else write_fields fs depth o

  -- `less` is the order of each type.
  module _ (less : (t : TypeT) → Value t → Value t → Bool) where
    -- `read` changes the object that it is given: `old` is the value before.
    unfoldable mutual
      unfolding default

      pub read : (t : TypeT) → ℕ → Value t → Reader (Value t)
      read t_bool depth old = p.read_bool
      read t_byte depth old = p.read_byte
      read t_i16 depth old = p.read_i16
      read t_i32 depth old = p.read_i32
      read t_i64 depth old = p.read_i64
      read t_double depth old = p.read_double
      read t_string depth old = p.read_string
      read t_binary depth old = p.read_binary
      read (t_list t) depth old = do
        (etype, size) ← p.read_list_begin
        v ← read_many size (read t depth (default t))
        p.read_list_end
        return v
      read (t_set t) depth old = do
        (etype, size) ← p.read_set_begin
        v ← read_into_set (less t) size (read t depth (default t)) old
        p.read_set_end
        return v
      read (t_map k u) depth old = do
        (ktype, vtype, size) ← p.read_map_begin
        v ← read_into_map (less k) (default u) size (read k depth (default k)) (read u depth) []
        p.read_map_end
        return v
      read (t_struct name fs) depth old =
          if p.may_nest depth
          then with_rounds (read_struct fs (read_field fs (depth + 1)) old)
          else throw

      -- The `switch` over the ids of the fields.
      pub read_field :
          (fs : Fields) → ℕ → (ftype fid : ℕ) → Object fs × Received → Reader (Object fs × Received)
      read_field end depth ftype fid s = do p.skip ftype; return s
      read_field (required f name t fs) depth ftype fid ((v, o), got) =
          let others : Reader (Object (required f name t fs) × Received) = (do
            (o', got') ← read_field fs depth ftype fid (o, got)
            return ((v, o'), got')) in
          if fid == f
          then (if ftype == code t
              then (do v' ← read t depth v; return ((v', o), mark f got))
              else (do p.skip ftype; return ((v, o), got)))
          else others
      read_field (optional f name t fs) depth ftype fid ((slot, o), got) =
          let others : Reader (Object (optional f name t fs) × Received) = (do
            (o', got') ← read_field fs depth ftype fid (o, got)
            return ((slot, o'), got')) in
          if fid == f
          then (if ftype == code t
              then (do
                v' ← read t depth slot.value
                return ((record { value = v'; isset = true }, o), got))
              else (do p.skip ftype; return ((slot, o), got)))
          else others
