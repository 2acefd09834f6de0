-- ===== src/Discovery/Zookeeper/Strings/Order.antt =====
-- Strings are in a total order, and sorting puts different strings in it.
use msgrpc.Base.{
  ◌≡◌, refl, sym, ap, ◌∙◌, subst, Bool, true, false, ◌||◌, List, [], ◌∷◌, arith, inl, inr,
  Bool-cases,
}
use msgrpc.Msg.{Bytes}
use msgrpc.Discovery.{same}
use msgrpc.Discovery.Zookeeper.Strings.{less_string, insert_string, sort_strings}

abbrev pub contains : Bytes → List Bytes → Bool
contains z [] = false
contains z (s ∷ ss) = same z s || contains z ss

-- All come behind `s`; and each comes before those that follow it.
abbrev pub Above : Bytes → List Bytes → Type 0
Above s [] = Unit
Above s (t ∷ ts) = (less_string s t ≡ true) × Above s ts

abbrev pub Ascends : List Bytes → Type 0
Ascends [] = Unit
Ascends (s ∷ ss) = Above s ss × Ascends ss

-- No string stands twice.
abbrev pub Different : List Bytes → Type 0
Different [] = Unit
Different (s ∷ ss) = (contains s ss ≡ false) × Different ss

pub same-eq : (a b : Bytes) → same a b ≡ true → a ≡ b
same-eq [] [] e = refl
same-eq [] (y ∷ ys) e = cc
same-eq (x ∷ xs) [] e = cc
same-eq (x ∷ xs) (y ∷ ys) e =
    let t : same xs ys ≡ true = ground arith in
    let tails : xs ≡ ys = same-eq xs ys t in ground arith

less_irreflexive : (s : Bytes) → less_string s s ≡ false
unfolding less_string
less_irreflexive [] = refl
less_irreflexive (x ∷ xs) = ground (arith, less_irreflexive xs)

pub less_trans :
    (a b c : Bytes) → less_string a b ≡ true → less_string b c ≡ true → less_string a c ≡ true
unfolding less_string
less_trans a b [] e e' = cc
less_trans a [] (z ∷ zs) e e' = cc
less_trans [] (y ∷ ys) (z ∷ zs) e e' = refl
less_trans (x ∷ xs) (y ∷ ys) (z ∷ zs) e e' = ground (arith, less_trans xs ys zs)

-- One of two strings comes before the other, or they are the same.
pub less_total : (a b : Bytes) → less_string a b ≡ false → less_string b a ≡ false → same a b ≡ true
unfolding less_string
less_total [] [] e e' = refl
less_total [] (y ∷ ys) e e' = cc
less_total (x ∷ xs) [] e e' = cc
less_total (x ∷ xs) (y ∷ ys) e e' = ground (arith, less_total xs ys)

pub Above-contains : (s : Bytes) (ts : List Bytes) → Above s ts → contains s ts ≡ false
Above-contains s [] h = refl
Above-contains s (t ∷ ts) (lt, h) = elim (Bool-cases (same s t)) [
  | inl e ↦
      (let loop : less_string s s ≡ true =
          subst (λ u. less_string s u ≡ true) (sym (same-eq s t e)) lt in
        let none : less_string s s ≡ false = less_irreflexive s in cc)
  | inr e ↦ rw (e, Above-contains s ts h) refl
]

pub Above-trans : (s t : Bytes) (ts : List Bytes) → less_string s t ≡ true → Above t ts → Above s ts
Above-trans s t [] lt h = tt
Above-trans s t (u ∷ us) lt (lt', h) = (less_trans s t u lt lt', Above-trans s t us lt h)

contains-insert_string :
    (z s : Bytes) (ts : List Bytes) → contains z (insert_string s ts) ≡ (same z s || contains z ts)
unfolding insert_string
contains-insert_string z s [] = refl
contains-insert_string z s (t ∷ ts) = ground (arith, contains-insert_string z s ts)

pub contains-sort_strings :
    (z : Bytes) (ss : List Bytes) → contains z (sort_strings ss) ≡ contains z ss
unfolding sort_strings
contains-sort_strings z [] = refl
contains-sort_strings z (s ∷ ss) =
    contains-insert_string z s (sort_strings ss)
    ∙ ap (λ b. same z s || b) (contains-sort_strings z ss)

Above-insert_string :
    (t s : Bytes) (ts : List Bytes)
    → less_string t s ≡ true
    → Above t ts
    → Above t (insert_string s ts)
unfolding insert_string
Above-insert_string t s [] lt h = (lt, tt)
Above-insert_string t s (u ∷ us) lt (lt', h) = elim (Bool-cases (less_string u s)) [
  | inl e ↦ rw e (lt', Above-insert_string t s us lt h)
  | inr e ↦ rw e (lt, (lt', h))
]

insert_string-Ascends :
    (s : Bytes) (ts : List Bytes)
    → contains s ts ≡ false
    → Ascends ts
    → Ascends (insert_string s ts)
unfolding insert_string
insert_string-Ascends s [] new h = (tt, tt)
insert_string-Ascends s (t ∷ ts) new (above, h) =
    let other : same s t ≡ false = ground arith in
    let others : contains s ts ≡ false = ground arith in
    elim (Bool-cases (less_string t s)) [
      | inl e ↦ rw e (Above-insert_string t s ts e above, insert_string-Ascends s ts others h)
      | inr e ↦ rw e (elim (Bool-cases (less_string s t)) [
        | inl lt ↦ ((lt, Above-trans s t ts lt above), (above, h))
        | inr ge ↦ (let equal : same s t ≡ true = less_total s t ge e in absurd (cc))
      ])
    ]

pub sort_strings-Ascends : (ss : List Bytes) → Different ss → Ascends (sort_strings ss)
unfolding sort_strings
sort_strings-Ascends [] h = tt
sort_strings-Ascends (s ∷ ss) (new, h) =
    insert_string-Ascends s (sort_strings ss) (contains-sort_strings s ss ∙ new)
      (sort_strings-Ascends ss h)
