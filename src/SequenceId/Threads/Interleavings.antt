-- ===== src/SequenceId/Threads/Interleavings.antt =====
-- What `get` returns, alone and among other threads.
use msgrpc.SequenceId.Laws.{get_lem}
use msgrpc.Base.{
  ◌-◌, ◌%◌, subst, ℕ, ◌+◌, ◌^◌, ◌<◌, ◌≤◌, ◌≡◌, ◌≢◌, refl, Bool, true, false, ◌==◌, arith, subst,
  inl, inr, Bool-cases,
}
use msgrpc.SequenceId.{increment, get}
use msgrpc.SequenceId.Threads.{
  Pc, start, added, must_skip, must_read, returned, Move, add, test_invalid, test_valid, skip, read,
  again, Threads, one_more, Reach, begin, step,
}

-- Where a thread that began a call at the counter `s`, and was not disturbed, can stand.
abbrev Undisturbed : ℕ → ℕ → Pc → Type 0
Undisturbed s now start = now ≡ s
Undisturbed s now added = now ≡ increment s
Undisturbed s now must_skip = (now ≡ increment s) × (now ≡ 0)
Undisturbed s now must_read = now ≡ get s
Undisturbed s now (returned id) = (now ≡ get s) × (id ≡ get s)

-- The steps of one call of a thread that no other thread disturbs.
pub data Alone (s : ℕ) : ℕ → Pc → Type 0 where
  entered : Alone s s start
  on :
      {now now' : ℕ} {p p' : Pc} {adds : Bool}
      → Alone s now p
      → Move now p adds now' p'
      → p' ≢ start
      → Alone s now' p'

==-eq : (a b : ℕ) → (a == b) ≡ true → a ≡ b
==-eq a b e = ground arith

Undisturbed-Move :
    (s : ℕ) {now now' : ℕ} {p p' : Pc} {adds : Bool}
    → Undisturbed s now p
    → Move now p adds now' p'
    → p' ≢ start
    → Undisturbed s now' p'
unfolding get
Undisturbed-Move s u (add e) inside = rw u at e
Undisturbed-Move s u (test_invalid e) inside = (u, e)
Undisturbed-Move s u (test_valid e) inside = ground arith
Undisturbed-Move s u (skip e) inside = ground arith
Undisturbed-Move s u read inside = (u, u)
Undisturbed-Move s u again inside = absurd (inside refl)

Alone-Undisturbed : {s now : ℕ} {p : Pc} → Alone s now p → Undisturbed s now p
Alone-Undisturbed entered = refl
Alone-Undisturbed (on run m inside) = Undisturbed-Move _ (Alone-Undisturbed run) m inside

get_runs : (s : ℕ) → Alone s (get s) (returned (get s))
unfolding get
get_runs s = elim (Bool-cases (increment s == 0)) [
  | inl e ↦ rw e (
      on
        (on (on (on entered (add refl) (λ q. cc)) (test_invalid (==-eq _ _ e)) (λ q. cc))
          (skip refl) (λ q. cc))
        read (λ q. cc))
  | inr e ↦ rw e (
      on (on (on entered (add refl) (λ q. cc)) (test_valid (λ z. ground arith)) (λ q. cc)) read
        (λ q. cc))
]

-- The next of the numbers from 1 to 2^32 - 1, round and round.
abbrev pub next_valid : ℕ → ℕ
next_valid s = s % (2 ^ 32 - 1) + 1

-- A call that no other thread disturbs can run to its end, and however it does, the counter and the
-- id that it returns are the number after the counter at its start among those from 1 to 2^32 - 1,
-- round and round; and `get` gives this number. The counter has 32 bits.
pub get-Alone :
    (s : ℕ)
    → s < 2 ^ 32
    → (get s ≡ next_valid s)
      × Alone s (next_valid s) (returned (next_valid s))
      × ((now id : ℕ) → Alone s now (returned id) → (now ≡ next_valid s) × (id ≡ next_valid s))
get-Alone s small =
    subst
      (λ n.
        (get s ≡ n)
        × Alone s n (returned n)
        × ((now id : ℕ) → Alone s now (returned id) → (now ≡ n) × (id ≡ n)))
      (get_lem s small) (refl, get_runs s, λ now id run. Alone-Undisturbed run)

-- What is known of a thread after `n` increments from `s`, before the counter wraps.
abbrev IsEarly : ℕ → ℕ → Pc → Type 0
IsEarly s n start = Unit
IsEarly s n added = 0 < n
IsEarly s n must_skip = ⊥
IsEarly s n must_read = 0 < n
IsEarly s n (returned id) = (s < id) × (id ≤ s + n)

IsEarly-mono : (s n n' : ℕ) (p : Pc) → n ≤ n' → IsEarly s n p → IsEarly s n' p
IsEarly-mono s n n' start le h = tt
IsEarly-mono s n n' added le h = omega arith
IsEarly-mono s n n' must_skip le h = h
IsEarly-mono s n n' must_read le h = omega arith
IsEarly-mono s n n' (returned id) le h = omega arith

IsEarly-Move :
    (s n : ℕ) {now now' : ℕ} {p p' : Pc} {adds : Bool}
    → s + one_more adds n < 2 ^ 32
    → now ≡ s + n
    → IsEarly s n p
    → Move now p adds now' p'
    → (now' ≡ s + one_more adds n) × IsEarly s (one_more adds n) p'
unfolding increment
IsEarly-Move s n small e h (add e') = (omega arith, omega arith)
IsEarly-Move s n small e h (test_invalid e') = absurd (omega arith)
IsEarly-Move s n small e h (test_valid e') = (e, h)
IsEarly-Move s n small e h (skip e') = absurd h
IsEarly-Move s n small e h read = (e, (omega arith, omega arith))
IsEarly-Move s n small e h again = (e, tt)

one_more_le : (adds : Bool) (n : ℕ) → n ≤ one_more adds n
one_more_le true n = omega arith
one_more_le false n = omega arith

Reach-IsEarly :
    {s n : ℕ} {t : Threads}
    → Reach s n t
    → s + n < 2 ^ 32
    → (t.sequence_id ≡ s + n) × ((i : ℕ) → IsEarly s n (t.pc i))
Reach-IsEarly begin small = (omega arith, λ i. tt)
Reach-IsEarly {s} (step {n} {t} i {adds} {s'} {p} run m) small =
    let (before, early) = Reach-IsEarly run (omega (arith, one_more_le adds n)) in
    let (after, moved) = IsEarly-Move s n small before (early i) m in
    (
      after,
      λ j. elim (Bool-cases (j == i)) [
        | inl e ↦ rw e moved
        | inr e ↦ rw e (IsEarly-mono s n (one_more adds n) (t.pc j) (one_more_le adds n) (early j))
      ],
    )

-- However the threads are interleaved: as long as the counter has not wrapped, an id that was
-- returned is above the counter's start and at most the start and the number of increments, so
-- that it is never the invalid id.
pub returned-IsEarly :
    (s n i id : ℕ) (t : Threads)
    → Reach s n t
    → s + n < 2 ^ 32
    → t.pc i ≡ returned id
    → (s < id) × (id ≤ s + n)
returned-IsEarly s n i id t run small e =
    subst (λ p. IsEarly s n p) e ((Reach-IsEarly run small).1 i)

-- Two threads can be given the same id, wherever the counter stands: both increment it before
-- either reads it.
pub same_id_twice :
    (s : ℕ)
    → s + 2 < 2 ^ 32
    → (t : Threads) × Reach s 2 t × (t.pc 0 ≡ returned (s + 2)) × (t.pc 1 ≡ returned (s + 2))
unfolding increment
same_id_twice s small =
    let not_zero : s + 2 ≢ 0 = λ z. omega arith in
    let both =
      step 1 {s' = s + 2} (step 0 {s' = s + 1} begin (add (omega arith))) (add (omega arith)) in
    let tested = step 1 (step 0 both (test_valid not_zero)) (test_valid not_zero) in
    (_, step 1 (step 0 tested read) read, refl, refl)
