-- ===== src/PrioQueue/Search.antt =====
-- `searchItem` finds a task that the queue holds.
use my_lpel.Common.{
  Ptr, ℕ, zero, suc, ◌+◌, ◌≤◌, ◌<◌, ◌≡◌, ◌≢◌, inl, inr, Option, none, some, arith, ltb, ◌==◌,
  Bool-cases, Yields, yields,
}
use my_lpel.PrioQueue.{load-ok, search_item}

-- the outcome: a place of the task, or none if there is no such place
pub data Found (t : Ptr) (a : ℕ → Ptr) (n : ℕ) : Option ℕ → Type 0 where
  at : (pos : ℕ) → 1 ≤ pos → pos < n → a pos ≡ t → Found t a n (some pos)
  nowhere : ((j : ℕ) → 1 ≤ j → j < n → a j ≢ t) → Found t a n none

pub search_item-Found :
    (t : Ptr) (alloc n : ℕ) (a : ℕ → Ptr) (k i : ℕ)
    → n ≤ alloc
    → n < i + k
    → 1 ≤ i
    → i ≤ n
    → ((j : ℕ) → 1 ≤ j → j < i → a j ≢ t)
    → Yields (Found t a n) (search_item t alloc n a k i)
unfolding search_item
search_item-Found t alloc n a zero i room f p q before = absurd (omega arith)
search_item-Found t alloc n a (suc k) i room f p q before = elim (Bool-cases (ltb i n)) [
  | inr over ↦ rw over (yields (nowhere λ j r s. before j r (ground arith)))
  | inl inside ↦
      rw (inside, load-ok alloc a i (ground arith))
        (elim (Bool-cases (a i == t)) [
          | inl e ↦ rw e (yields (at i p (ground arith) (ground arith)))
          | inr ne ↦ rw ne (
              search_item-Found t alloc n a k (i + 1) room (omega arith) (omega arith)
                (ground arith) λ j r s. ground (arith, before j))
        ])
]
