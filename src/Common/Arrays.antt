-- ===== src/Common/Arrays.antt =====
-- C arrays as functions of the index, and how often a value stands in a range of one.
use Prim.Native.Nat.{ℕ, zero, suc, ◌+◌, ◌≤◌, ◌<◌}
use mathlib.Core.Path.{◌≡◌, refl, ap, sym, fun_ext}
use mathlib.Core.Logic.{◌≢◌, inl, inr}
use native.Mathlib.Omega.{arith}
use my_lpel.Common.Tests.{==-true, ==-false, Bool-cases, ◌==◌, if◌then◌else◌}

-- `a[i] = v`
abbrev pub update {ℓ} : {A : Type ℓ} → (ℕ → A) → ℕ → A → ℕ → A
update a i v j = if j == i then v else a j

pub update_self {ℓ} : {A : Type ℓ} (a : ℕ → A) (i : ℕ) → update a i (a i) ≡ a
update_self a i =
    fun_ext
      λ j. elim (Bool-cases (j == i)) [ inl e ↦ rw e (ap a (sym (==-true j i e))) | inr ne ↦ rw ne ]

-- 1 where the two numbers are equal.
abbrev pub hit : ℕ → ℕ → ℕ
hit x y = if x == y then 1 else 0

-- How often `x` stands among `a[1], …, a[n - 1]`.
unfoldable pub occurs : ℕ → (ℕ → ℕ) → ℕ → ℕ
occurs x a zero = 0
occurs x a (suc n) = (if n == 0 then 0 else hit x (a n)) + occurs x a n

pub occurs-suc :
    (x : ℕ) (a : ℕ → ℕ) (n : ℕ) → 1 ≤ n → occurs x a (suc n) ≡ hit x (a n) + occurs x a n
unfolding occurs
occurs-suc x a n h = ground arith

pub occurs-update_above :
    (x : ℕ) (a : ℕ → ℕ) (i v n : ℕ) → n ≤ i → occurs x (update a i v) n ≡ occurs x a n
unfolding occurs
occurs-update_above x a i v zero p = refl
occurs-update_above x a i v (suc n) p = ground (arith, occurs-update_above x a i v n)

-- A write trades the old entry for the new one.
pub occurs-update :
    (x : ℕ) (a : ℕ → ℕ) (i v n : ℕ)
    → 1 ≤ i
    → i < n
    → occurs x (update a i v) n + hit x (a i) ≡ occurs x a n + hit x v
unfolding occurs
occurs-update x a i v zero p q = absurd (omega arith)
occurs-update x a i v (suc n) p q =
    ground (arith, occurs-update x a i v n, occurs-update_above x a i v n)

-- What stands in the range occurs there.
pub occurs-at : (x : ℕ) (a : ℕ → ℕ) (i n : ℕ) → 1 ≤ i → i < n → a i ≡ x → 0 < occurs x a n
unfolding occurs
occurs-at x a i zero p q e = absurd (omega arith)
occurs-at x a i (suc n) p q e = ground (arith, occurs-at x a i n)

-- Two places make two occurrences.
pub occurs-twice :
    (x : ℕ) (a : ℕ → ℕ) (i j n : ℕ) → 1 ≤ i → i < j → j < n → a i ≡ x → a j ≡ x → 1 < occurs x a n
unfolding occurs
occurs-twice x a i j zero p q r e f = absurd (omega arith)
occurs-twice x a i j (suc n) p q r e f = ground (arith, occurs-twice x a i j n, occurs-at x a i n)

-- Where a value stands that occurs in a range.
pub occurs-index :
    (x : ℕ) (a : ℕ → ℕ) (n : ℕ) → 0 < occurs x a n → (i : ℕ) × (1 ≤ i) × (i < n) × (a i ≡ x)
unfolding occurs
occurs-index x a zero h = absurd (omega arith)
occurs-index x a (suc zero) h = absurd (omega arith)
occurs-index x a (suc (suc n)) h = elim (Bool-cases (x == a (suc n))) [
  | inl e ↦ (suc n, omega arith, omega arith, ground arith)
  | inr ne ↦ let (i, p, q, e) = occurs-index x a (suc n) (ground arith) in (i, p, omega arith, e)
]

-- What holds of the new entry and of all others holds of the whole array.
pub update-all {ℓ κ} :
    {A : Type ℓ} (P : ℕ → A → Type κ) (a : ℕ → A) (i : ℕ) (v : A)
    → P i v
    → ((j : ℕ) → j ≢ i → P j (a j))
    → (j : ℕ) → P j (update a i v j)
update-all P a i v new old j = elim (Bool-cases (j == i)) [
  | inl e ↦ rw (e, ==-true j i e) new
  | inr ne ↦ rw ne (old j (==-false j i ne))
]
