-- ===== src/Common/Values.antt =====
-- Pointers and C doubles.
use Prim.Native.Nat.{ℕ}
use mathlib.Core.Path.{◌≡◌, refl}
use mathlib.Core.Bool.{Bool}
use my_lpel.Common.Tests.{ltb}

-- What the code uses of `double`: its order. Doubles other than NaN are finitely many and lie in a
-- row, so each has a rank.
pub record Double (D : Type 0) : Type 0 where
  pub lt : D → D → Bool
  pub rank : D → ℕ
  pub lt_rank : (x y : D) → lt x y ≡ ltb (rank x) (rank y)

-- The naturals as doubles, for runs.
instance abbrev pub nat_double : Double ℕ
nat_double = record { lt = ltb; rank = λ x. x; lt_rank = λ x y. refl }

abbrev pub Ptr : Type 0
Ptr = ℕ

abbrev pub null : Ptr
null = 0
