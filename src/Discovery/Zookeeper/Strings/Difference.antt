-- ===== src/Discovery/Zookeeper/Strings/Difference.antt =====
-- The difference of two sorted ranges.
use msgrpc.Base.{
  ◌≡◌, refl, sym, ap, ◌∙◌, subst, Bool, true, false, not, ◌&&◌, ◌||◌, List, [], ◌∷◌, ◌++◌, arith,
  inl, inr, Bool-cases,
}
use msgrpc.Msg.{Bytes}
use msgrpc.Discovery.{same}
use msgrpc.Discovery.Zookeeper.Strings.{less_string, set_difference}
use msgrpc.Discovery.Zookeeper.Strings.Order.{
  contains, Above, Ascends, same-eq, less_total, Above-contains, Above-trans,
}

-- A string that comes before the first of a sorted range is not in it.
before_all : (z s : Bytes) (ts : List Bytes) → same z s ≡ true → Above s ts → contains z ts ≡ false
before_all z s ts e above =
    subst (λ u. contains u ts ≡ false) (sym (same-eq z s e)) (Above-contains s ts above)

contains-append :
    (z : Bytes) (ss ts : List Bytes) → contains z (ss ++ ts) ≡ (contains z ss || contains z ts)
contains-append z [] ts = refl
contains-append z (s ∷ ss) ts = ground (arith, contains-append z ss ts)

module _ (s t : Bytes) (ss ts : List Bytes) where
  less_step :
      less_string s t ≡ true → set_difference (s ∷ ss) (t ∷ ts) ≡ s ∷ set_difference ss (t ∷ ts)
  unfolding set_difference
  less_step e = rw (set_difference, e) refl

  greater_step :
      less_string s t ≡ false
      → less_string t s ≡ true
      → set_difference (s ∷ ss) (t ∷ ts) ≡ set_difference (s ∷ ss) ts
  unfolding set_difference
  greater_step e e' = rw (set_difference, e, e') refl

  equal_step :
      less_string s t ≡ false
      → less_string t s ≡ false
      → set_difference (s ∷ ss) (t ∷ ts) ≡ set_difference ss ts
  unfolding set_difference
  equal_step e e' = rw (set_difference, e, e') refl

-- The tests of the three cases.
kept : (p q r d : Bool) → d ≡ (q && not r) → (p ≡ true → r ≡ false) → (p || d) ≡ ((p || q) && not r)
kept true q r d e h = rw (h refl) refl
kept false q r d e h = e

skipped : (p q r d : Bool) → d ≡ (q && not r) → (p ≡ true → q ≡ false) → d ≡ (q && not (p || r))
skipped true q r d e h = e ∙ rw (h refl) refl
skipped false q r d e h = e

dropped :
    (p q r d : Bool) → d ≡ (q && not r) → (p ≡ true → q ≡ false) → d ≡ ((p || q) && not (p || r))
dropped true q r d e h = e ∙ rw (h refl) refl
dropped false q r d e h = e

-- What is in the difference: what the first range has and the second has not.
pub contains-set_difference :
    (z : Bytes) (ss ts : List Bytes)
    → Ascends ss
    → Ascends ts
    → contains z (set_difference ss ts) ≡ (contains z ss && not (contains z ts))
unfolding set_difference
contains-set_difference z [] ts h h' = refl
contains-set_difference z (s ∷ ss) [] h h' = ground arith
contains-set_difference z (s ∷ ss) (t ∷ ts) (above, h) (above', h') =
    elim (Bool-cases (less_string s t)) [
      | inl lt ↦
          ap (contains z) (less_step s t ss ts lt)
          ∙ kept (same z s) (contains z ss) (contains z (t ∷ ts)) _
              (contains-set_difference z ss (t ∷ ts) h (above', h'))
              (λ e. before_all z s (t ∷ ts) e (lt, Above-trans s t ts lt above'))
      | inr ge ↦ (elim (Bool-cases (less_string t s)) [
        | inl gt ↦
            ap (contains z) (greater_step s t ss ts ge gt)
            ∙ skipped (same z t) (contains z (s ∷ ss)) (contains z ts) _
                (contains-set_difference z (s ∷ ss) ts (above, h) h')
                (λ e. before_all z t (s ∷ ss) e (gt, Above-trans t s ss gt above))
        | inr le ↦
            ap (contains z) (equal_step s t ss ts ge le)
            ∙ dropped (same z s) (contains z ss) (contains z ts) _
                (contains-set_difference z ss ts h h') (λ e. before_all z s ss e above)
            ∙ ap (λ u. (same z s || contains z ss) && not (same z u || contains z ts))
                (same-eq s t (less_total s t ge le))
      ])
    ]

-- The strings that one of two sets has and the other has not.
pub contains-both_differences :
    (z : Bytes) (ss ts : List Bytes)
    → Ascends ss
    → Ascends ts
    → contains z (set_difference ss ts ++ set_difference ts ss)
      ≡ ((contains z ss && not (contains z ts)) || (contains z ts && not (contains z ss)))
contains-both_differences z ss ts h h' =
    contains-append z (set_difference ss ts) (set_difference ts ss)
    ∙ rw (contains-set_difference z ss ts h h', contains-set_difference z ts ss h' h) refl
