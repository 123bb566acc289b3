-- ===== src/Common/Outcome.antt =====
-- How a C call ends: with a value, or in one of the ways in which the program would go wrong.
use mathlib.Core.Path.{◌≡◌, refl}
use mathlib.Core.Bool.{Bool, true, false}

-- A bad access, a failed `assert`, a signed overflow, or the model's fuel running out.
pub data Fault : Type 0 where
  segv assertion overflow fuel : Fault

pub data Res {ℓ} (A : Type ℓ) : Type ℓ where
  ok : A → Res A
  fault : Fault → Res A

infixl 5 ◌>>=◌ ◌>>◌
abbrev pub ◌>>=◌ {ℓ κ} : {A : Type ℓ} {B : Type κ} → Res A → (A → Res B) → Res B
ok a >>= f = f a
fault e >>= f = fault e

abbrev pub ◌>>◌ {ℓ} : {B : Type ℓ} → Res (Unit {0}) → Res B → Res B
m >> k = m >>= λ _. k

-- C's `assert`.
abbrev pub assert : Bool → Res (Unit {0})
assert true = ok tt
assert false = fault assertion

-- The call returns, and its result has the property.
pub data Yields {ℓ κ} {A : Type ℓ} (P : A → Type κ) : Res A → Type (ℓ ⊔ κ) where
  yields : {a : A} → P a → Yields P (ok a)

module _ {ℓ κ} {A : Type ℓ} {P : A → Type κ} where
  pub Yields-bind {ℓ' κ'} :
      {B : Type ℓ'} {Q : B → Type κ'} {r : Res A} {f : A → Res B}
      → Yields P r
      → ((a : A) → P a → Yields Q (f a))
      → Yields Q (r >>= f)
  Yields-bind (yields p) k = k _ p

  pub Yields-map {κ'} :
      {Q : A → Type κ'} {r : Res A} → Yields P r → ((a : A) → P a → Q a) → Yields Q r
  Yields-map (yields p) weaken = yields (weaken _ p)

  pub Yields-open : {r : Res A} → Yields P r → (a : A) × (r ≡ ok a) × P a
  Yields-open (yields p) = (_, refl, p)

  Yields-ok : {a : A} → Yields P (ok a) → P a
  Yields-ok (yields p) = p

  pub Yields-at : {r : Res A} (a : A) → Yields P r → r ≡ ok a → P a
  Yields-at a y e = Yields-ok (rw (← e) y)

  pub Yields-of : {r : Res A} (a : A) → r ≡ ok a → P a → Yields P r
  Yields-of a e p = rw e (yields p)
