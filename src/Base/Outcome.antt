-- ===== src/Base/Outcome.antt =====
-- The outcome of code that may fail an `assert` or touch a freed object.
use mathlib.Core.Path.{◌≡◌, refl}
use mathlib.Core.Bool.{Bool, true, false}
use mathlib.Core.Option.{Option, none, some}

-- `fault` is a failed assertion or an access through a dangling or null pointer. `out_of_fuel` is an
-- end of the model, not of the code: the bound on the depth of calls was met.
pub data Run {ℓ} (A : Type ℓ) : Type ℓ where
  ok : A → Run A
  fault : Run A
  out_of_fuel : Run A

infixl 5 ◌>>=◌ ◌>>◌
abbrev pub ◌>>=◌ {ℓ κ} : {A : Type ℓ} {B : Type κ} → Run A → (A → Run B) → Run B
ok a >>= f = f a
fault >>= f = fault
out_of_fuel >>= f = out_of_fuel

abbrev pub ◌>>◌ {ℓ} : {B : Type ℓ} → Run (Unit {0}) → Run B → Run B
m >> k = m >>= λ _. k

-- `assert(b)`.
abbrev pub assert : Bool → Run (Unit {0})
assert true = ok tt
assert false = fault

-- `*p`: what the lookup of a pointer gives.
abbrev pub deref {ℓ} : {A : Type ℓ} → Option A → Run A
deref none = fault
deref (some a) = ok a

pub >>=-eq-ok {ℓ κ} :
    {A : Type ℓ} {B : Type κ} (first : Run A) (next : A → Run B) {last : B}
    → (first >>= next) ≡ ok last
    → (value : A) × (first ≡ ok value) × (next value ≡ ok last)
>>=-eq-ok (ok value) next run = (value, refl, run)
>>=-eq-ok fault next run = cc
>>=-eq-ok out_of_fuel next run = cc

-- What holds of the result of a run that ends normally.
pub data Ensures {ℓ} {A : Type ℓ} (P : A → Type 0) : Run A → Type ℓ where
  normal : {a : A} → P a → Ensures P (ok a)
  at_fault : Ensures P fault
  at_limit : Ensures P out_of_fuel

module _ {A : Type 0} {P : A → Type 0} where
  pub Ensures-ok : {a : A} → Ensures P (ok a) → P a
  Ensures-ok (normal p) = p

  pub Ensures-mono :
      {Q : A → Type 0} {r : Run A} → Ensures P r → ((a : A) → P a → Q a) → Ensures Q r
  Ensures-mono (normal p) f = normal (f _ p)
  Ensures-mono at_fault f = at_fault
  Ensures-mono at_limit f = at_limit

  pub Ensures-bind :
      {B : Type 0} {Q : B → Type 0} {r : Run A} (k : A → Run B)
      → Ensures P r
      → ((a : A) → P a → Ensures Q (k a))
      → Ensures Q (r >>= k)
  Ensures-bind k (normal p) f = f _ p
  Ensures-bind k at_fault f = at_fault
  Ensures-bind k at_limit f = at_limit

-- The same where the first run is known by an equation.
pub Ensures-bind_eq :
    {A B : Type 0} {Q : B → Type 0} (r : Run A) (k : A → Run B)
    → ((a : A) → r ≡ ok a → Ensures Q (k a))
    → Ensures Q (r >>= k)
Ensures-bind_eq (ok a) k f = f a refl
Ensures-bind_eq fault k f = at_fault
Ensures-bind_eq out_of_fuel k f = at_limit

pub Ensures-assert :
    {B : Type 0} {Q : B → Type 0} (b : Bool) {r : Run B}
    → (b ≡ true → Ensures Q r)
    → Ensures Q (assert b >> r)
Ensures-assert true f = f refl
Ensures-assert false f = at_fault

pub deref-eq-ok {ℓ} : {A : Type ℓ} (o : Option A) {a : A} → deref o ≡ ok a → o ≡ some a
deref-eq-ok none e = cc
deref-eq-ok (some a) e = cc
