-- ===== src/PrioQueue/Order.antt =====
-- The heap order of the ready queue, and the tasks that it holds.
use my_lpel.Common.{
  Double, Ptr, ℕ, suc, ◌+◌, ◌/◌, ◌^◌, ◌≤◌, ◌<◌, ◌≡◌, ◌≢◌, inl, inr, arith, ◌==◌, Bool-cases,
  ==-true, hit, update, occurs, occurs-update,
}
use my_lpel.PrioQueue.{Taskqueue}

module _ {D : Type 0} ⦃d : Double D⦄ where
  abbrev pub key : (ℕ → D) → (ℕ → Ptr) → ℕ → ℕ
  key prior a i = d.rank (prior (a i))

  -- no task among `a[1], …, a[n - 1]` has a higher priority than its parent
  abbrev pub IsHeap : (ℕ → D) → (ℕ → Ptr) → ℕ → Type 0
  IsHeap prior a n = (c : ℕ) → 1 < c → c < n → key prior a c ≤ key prior a (c / 2)

  pub record IsValid (prior : ℕ → D) (tq : Taskqueue) : Type 0 where
    pub ordered : IsHeap prior tq.heap tq.count
    pub started : 1 ≤ tq.count
    pub fits : tq.count ≤ tq.alloc
    pub small : tq.count ≤ 2 ^ 30
    pub mapped : tq.alloc ≤ 2 ^ 31

  -- the edges past `pos`, from its parent to its children
  abbrev pub IsBridged : (ℕ → D) → ℕ → (ℕ → Ptr) → ℕ → Type 0
  IsBridged prior n a pos =
      (c : ℕ) → 1 < c → c < n → c / 2 ≡ pos → 1 < pos → key prior a c ≤ key prior a (pos / 2)

  -- `b` is in heap order and holds what `a` holds
  pub record Sifted (prior : ℕ → D) (n : ℕ) (a b : ℕ → Ptr) : Type 0 where
    pub ordered : IsHeap prior b n
    pub same : (x : ℕ) → occurs x b n ≡ occurs x a n

-- how often the queue holds a task
abbrev pub holds : Taskqueue → Ptr → ℕ
holds tq x = occurs x tq.heap tq.count

-- Moving the gap from `i` to `j` keeps the tasks.
pub occurs-gap :
    (x : ℕ) (a : ℕ → ℕ) (i j t n : ℕ)
    → 1 ≤ i
    → i < n
    → 1 ≤ j
    → j < n
    → i ≢ j
    → occurs x (update (update a i (a j)) j t) n ≡ occurs x (update a i t) n
occurs-gap x a i j t n p q r s ne = ground (
  arith,
  occurs-update x a i t n,
  occurs-update x a i (a j) n,
  occurs-update x (update a i (a j)) j t n,
)

-- Moving the last task to the root drops the root's.
pub occurs-last_to_first :
    (x : ℕ) (a : ℕ → ℕ) (m n : ℕ)
    → n ≡ suc m
    → 1 ≤ m
    → occurs x a n ≡ occurs x (update a 1 (a m)) m + hit x (a 1)
unfolding occurs
occurs-last_to_first x a m n e p = elim (Bool-cases (m == 1)) [
  | inl one ↦ rw (e, ==-true m 1 one) (ground arith)
  | inr more ↦ rw e (ground (arith, occurs-update x a 1 (a m) m))
]
