-- ===== src/Thrift/Objects/Copy.antt =====
-- thrift/thrift_struct_define.h: copying, swapping and printing the objects of a struct.
use msgrpc.Base.{◌≡◌, refl, [], ◌∷◌, ◌++◌, if◌then◌else◌, ap}
use msgrpc.Msg.{Bytes}
use msgrpc.Thrift.{TypeT, Fields, end, required, optional, Value, Object}

-- The fields of the right object are assigned to those of the left one, in turn.
unfoldable pub assign_fields : (fs : Fields) → Object fs → Object fs → Object fs
assign_fields end o other = tt
assign_fields (required fid name t fs) (v, o) (v', other) = (v', assign_fields fs o other)
assign_fields (optional fid name t fs) (s, o) (s', other) =
    (record s { value = s'.value }, assign_fields fs o other)

-- `__isset = other0.__isset`.
unfoldable pub assign_isset : (fs : Fields) → Object fs → Object fs → Object fs
assign_isset end o other = tt
assign_isset (required fid name t fs) (v, o) (v', other) = (v, assign_isset fs o other)
assign_isset (optional fid name t fs) (s, o) (s', other) =
    (record s { isset = s'.isset }, assign_isset fs o other)

-- The copy constructor, on the fresh object, and `operator=`.
unfoldable pub assign_object : (fs : Fields) → Object fs → Object fs → Object fs
unfolding assign_fields assign_isset
assign_object fs o other = assign_isset fs (assign_fields fs o other) other

-- The `swap` of two objects: the fields in turn, and then `__isset`.
unfoldable pub swap_fields : (fs : Fields) → Object fs → Object fs → Object fs × Object fs
unfolding assign_fields
swap_fields fs a b = (assign_fields fs a b, assign_fields fs b a)

unfoldable pub swap_objects : (fs : Fields) → Object fs → Object fs → Object fs × Object fs
unfolding swap_fields assign_isset
swap_objects fs a b =
    let (a', b') = swap_fields fs a b in (assign_isset fs a' b, assign_isset fs b' a)

assign_both :
    (fs : Fields) (o other : Object fs) → assign_isset fs (assign_fields fs o other) other ≡ other
unfolding assign_isset assign_fields
assign_both end o other = refl
assign_both (required fid name t fs) (v, o) (v', other) = ap (λ x. (v', x)) (assign_both fs o other)
assign_both (optional fid name t fs) (s, o) (s', other) = ap (λ x. (s', x)) (assign_both fs o other)

-- Assignment makes the left object the right one, and a swap exchanges two.
pub assign_object-swap_objects :
    (fs : Fields) (a b : Object fs) → (assign_object fs a b ≡ b) × (swap_objects fs a b ≡ (b, a))
unfolding assign_object swap_objects swap_fields
assign_object-swap_objects fs a b =
    (assign_both fs a b, rw (assign_both fs a b, assign_both fs b a) refl)

-- `to_string` is that of Apache Thrift; a value of a struct goes through `printTo`.
-- "<null>"
abbrev null_text : Bytes
null_text = 60 ∷ 110 ∷ 117 ∷ 108 ∷ 108 ∷ 62 ∷ []

module _ (to_string : (t : TypeT) → Value t → Bytes) where
  unfoldable pub print_out_fields : (fs : Fields) → Object fs → Bytes
  print_out_fields end o = []
  print_out_fields (required fid name t fs) (v, o) =
      44 ∷ 32 ∷ name ++ 61 ∷ to_string t v ++ print_out_fields fs o
  print_out_fields (optional fid name t fs) (slot, o) =
      44 ∷ 32 ∷ name
      ++ 61 ∷ (if slot.isset then to_string t slot.value else null_text)
      ++ print_out_fields fs o

  unfoldable pub print_to : Bytes → (fs : Fields) → Object fs → Bytes
  unfolding print_out_fields
  print_to name fs o = name ++ 40 ∷ print_out_fields fs o ++ 41 ∷ []
