-- ===== src/Discovery/Names/Laws.antt =====
-- What is read back of the strings of instances.
use msgrpc.Base.{
  ℕ, ◌%◌, ◌^◌, ◌<◌, ◌≡◌, refl, sym, Bool, Option, none, some, List, [], ◌∷◌, ◌++◌, ok, arith,
  ==_self, inl, inr, Bool-cases, Option-cases, ◌==◌,
}
use msgrpc.Msg.{Bytes, ServiceId}
use msgrpc.Discovery.Names.{
  colon, hash, at_sign, split_at, service_version_of, node_name, str_to_service_id, insert_instance,
  collect_instances, strings_to_instances,
}

-- The text does not hold the character.
abbrev pub Lacks : ℕ → Bytes → Type 0
Lacks c text = split_at c text ≡ none

pub split_at-append : (c : ℕ) (l r : Bytes) → Lacks c l → split_at c (l ++ c ∷ r) ≡ some (l, r)
unfolding split_at
split_at-append c [] r lacks = rw ==_self refl
split_at-append c (b ∷ bs) r lacks = elim (Bool-cases (b == c)) [
  | inl e ↦ cc
  | inr e ↦ rw e (elim (Option-cases (split_at c bs)) [
    | inl none_there ↦ rw (split_at-append c bs r none_there) refl
    | inr (found, f) ↦ cc
  ])
]

pub Lacks-append :
    (c d : ℕ) (l r : Bytes) → (d == c) ≡ Bool.false → Lacks c l → Lacks c r → Lacks c (l ++ d ∷ r)
unfolding split_at
Lacks-append c d [] r ne lacks_l lacks_r = rw (ne, lacks_r) refl
Lacks-append c d (b ∷ bs) r ne lacks_l lacks_r = elim (Bool-cases (b == c)) [
  | inl e ↦ cc
  | inr e ↦ rw e (elim (Option-cases (split_at c bs)) [
    | inl none_there ↦ rw (Lacks-append c d bs r ne none_there lacks_r) refl
    | inr (found, f) ↦ cc
  ])
]

append_assoc : {A : Type 0} (xs ys zs : List A) → (xs ++ ys) ++ zs ≡ xs ++ (ys ++ zs)
append_assoc [] ys zs = refl
append_assoc (x ∷ xs) ys zs = rw (append_assoc xs ys zs) refl

-- A version is read back from the node of its instance.
pub service_version_of-node_name :
    (end_point session version : Bytes)
    → Lacks hash end_point
    → Lacks hash session
    → service_version_of (node_name end_point session version) ≡ version
unfolding service_version_of
service_version_of-node_name end_point session version e s =
    rw
      (
        sym (append_assoc end_point (at_sign ∷ session) (hash ∷ version)),
        service_version_of,
        split_at-append hash (end_point ++ at_sign ∷ session) version
            (Lacks-append hash at_sign end_point session refl e s),
      )
      refl

-- An instance that registers itself is found again: the list of its one node gives its address, its
-- port and its version. The port is below 2^16 and `strtoul` reads it up to the sign behind it; the
-- address has no colon, and no part but the version has a hash.
pub strings_to_instances-node_name :
    (address : Bytes → Option ℕ) (strtoul : Bytes → ℕ) (before : ServiceId → ServiceId → Bool)
    (ip port session version : Bytes) (a n : ℕ)
    → Lacks colon ip
    → Lacks hash (ip ++ colon ∷ port)
    → Lacks hash session
    → address ip ≡ some a
    → ((rest : Bytes) → strtoul (port ++ at_sign ∷ rest) ≡ n)
    → n < 2 ^ 16
    → strings_to_instances address strtoul before
        (node_name (ip ++ colon ∷ port) session version ∷ [])
      ≡ ok (record { service_id = (a, n); version = version } ∷ [])
unfolding strings_to_instances collect_instances insert_instance str_to_service_id
strings_to_instances-node_name address strtoul before ip port session version a n ci he hs known
      reads small =
    let node = node_name (ip ++ colon ∷ port) session version in
    let at_colon : split_at colon node ≡ some (ip, port ++ at_sign ∷ (session ++ hash ∷ version)) =
      rw (append_assoc ip (colon ∷ port) (at_sign ∷ (session ++ hash ∷ version)))
        (split_at-append colon ip (port ++ at_sign ∷ (session ++ hash ∷ version)) ci) in
    let in_range : n % 2 ^ 16 ≡ n = omega arith in
    rw (at_colon, known, str_to_service_id)
      (rw (reads (session ++ hash ∷ version), in_range)
        (rw (service_version_of-node_name (ip ++ colon ∷ port) session version he hs) refl))
