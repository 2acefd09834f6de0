-- ===== src/Discovery/Zookeeper/Strings.antt =====
-- adapter_example/core/adapter/zk_service_register.cpp: what the standard library does there on sequences
-- of strings.
pub mod Order
pub mod Difference
use msgrpc.Base.{Bool, true, false, List, [], ◌∷◌, ltb, if◌then◌else◌}
use msgrpc.Msg.{Bytes}

-- `operator<` of strings.
unfoldable pub less_string : Bytes → Bytes → Bool
less_string xs [] = false
less_string [] (y ∷ ys) = true
less_string (x ∷ xs) (y ∷ ys) =
    let rest = less_string xs ys in if ltb x y then true else if ltb y x then false else rest

unfoldable pub insert_string : Bytes → List Bytes → List Bytes
unfolding less_string
insert_string s [] = s ∷ []
insert_string s (t ∷ ts) =
    let rest = insert_string s ts in if less_string t s then t ∷ rest else s ∷ t ∷ ts

-- `std::sort`.
unfoldable pub sort_strings : List Bytes → List Bytes
unfolding insert_string
sort_strings [] = []
sort_strings (s ∷ ss) = insert_string s (sort_strings ss)

-- `std::set_difference` of two sorted ranges.
unfoldable pub set_difference : List Bytes → List Bytes → List Bytes
unfolding less_string
set_difference [] ts = []
set_difference (s ∷ ss) [] = s ∷ ss
set_difference (s ∷ ss) (t ∷ ts) = elim (less_string s t) [
  | true ↦ s ∷ set_difference ss (t ∷ ts)
  | false ↦ elim (less_string t s) [
    | true ↦ set_difference (s ∷ ss) ts
    | false ↦ set_difference ss ts
  ]
]
