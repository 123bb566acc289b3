-- ===== src/PrioQueue/Contract.antt =====
-- The heap fulfils the contract of the ready queue.
use my_lpel.Common.{
  ℕ, ◌+◌, ◌/◌, ◌≤◌, ◌<◌, ◌≡◌, ap, inl, inr, arith, ◌==◌, Bool-cases, ==-true, ==-ne, ok, Yields,
  Yields-map, hit, update, occurs, occurs-at, Double, Ptr, null,
}
use my_lpel.PrioQueue.{Taskqueue, push, pop, peek, update_priority, size}
use my_lpel.PrioQueue.Order.{IsValid, holds}
use my_lpel.PrioQueue.Push.{push-Pushed}
use my_lpel.PrioQueue.Pop.{pop-Popped, peek-Highest, peek-empty}
use my_lpel.PrioQueue.Update.{update_priority-Updated}
use my_lpel.ReadyQueue.{ReadyQueue, capacity}

pub empty_holds-zero : (tq : Taskqueue) (x : Ptr) → size tq ≡ 0 → holds tq x ≡ 0
unfolding size occurs
empty_holds-zero tq x e = elim (Bool-cases (tq.count == 0)) [
  | inl z ↦ rw (==-true tq.count 0 z)
  | inr nz ↦ let one : tq.count ≡ 1 = ground arith in rw one
]

module _ {D : Type 0} ⦃d : Double D⦄ where
  pub write_outside-IsValid :
      (prior : ℕ → D) (tq : Taskqueue) (t : Ptr) (np : D)
      → IsValid prior tq
      → holds tq t ≡ 0
      → IsValid (update prior t np) tq
  write_outside-IsValid prior tq t np v absent = record {
    ordered = λ c p q. ground (
      arith,
      ap d.rank (kept c (omega arith) q),
      ap d.rank (kept (c / 2) (omega arith) (omega arith)),
      v.ordered c,
    );
    started = v.started;
    fits = v.fits;
    small = v.small;
    mapped = v.mapped;
  }
    where
      kept : (c : ℕ) → 1 ≤ c → c < tq.count → update prior t np (tq.heap c) ≡ prior (tq.heap c)
      kept c p q =
          rw (==-ne (tq.heap c) t λ e. absurd (omega (arith, occurs-at t tq.heap c tq.count p q e)))

  pub push_contract :
      (prior : ℕ → D) (q : Taskqueue) (t : Ptr)
      → IsValid prior q
      → size q < capacity
      → Yields
          (λ r.
            IsValid prior r × (size r ≡ size q + 1) × ((x : Ptr) → holds r x ≡ holds q x + hit x t))
          (push prior q t)
  unfolding size
  push_contract prior q t v room =
      Yields-map (push-Pushed prior q t v (omega (arith, v.started)))
        λ r p. (p.valid, omega (arith, p.counted, v.started), p.added)

  pub peek_contract :
      (prior : ℕ → D) (q : Taskqueue)
      → IsValid prior q
      → 0 < size q
      → Yields
          (λ t. (0 < holds q t) × ((x : Ptr) → 0 < holds q x → d.rank (prior x) ≤ d.rank (prior t)))
          (peek q)
  unfolding size
  peek_contract prior q v h =
      Yields-map (peek-Highest prior q v (omega arith)) λ t p. (p.held, p.highest)

  pub pop_contract :
      (prior : ℕ → D) (q : Taskqueue)
      → IsValid prior q
      → 0 < size q
      → Yields
          (λ (t, r).
            (peek q ≡ ok t)
            × IsValid prior r
            × (size q ≡ size r + 1)
            × ((x : Ptr) → holds q x ≡ holds r x + hit x t))
          (pop prior q)
  unfolding size
  pop_contract prior q v h =
      Yields-map (pop-Popped prior q v (omega arith))
        λ r p. (p.seen, p.valid, omega (arith, p.counted, p.valid.started), p.taken)

  pub update_contract :
      (prior : ℕ → D) (q : Taskqueue) (t : Ptr) (np : D)
      → IsValid prior q
      → holds q t ≡ 1
      → Yields
          (λ (prior', r).
            (prior' ≡ update prior t np)
            × IsValid prior' r
            × (size r ≡ size q)
            × ((x : Ptr) → holds r x ≡ holds q x))
          (update_priority prior q t np)
  unfolding size
  update_contract prior q t np v h =
      Yields-map (update_priority-Updated prior q t np v h)
        λ r p. (p.written, p.valid, omega (arith, p.counted), p.same)

  pub peek_empty_contract :
      (prior : ℕ → D) (q : Taskqueue) → IsValid prior q → size q ≡ 0 → peek q ≡ ok null
  unfolding size
  peek_empty_contract prior q v e = (peek-empty prior q v (omega (arith, v.started))).0

  abbrev pub heap_queue : ReadyQueue D
  heap_queue = record {
    Queue = Taskqueue;
    push = push;
    pop = pop;
    peek = peek;
    update_priority = update_priority;
    size = size;
    Valid = IsValid;
    holds = holds;
    empty_holds = empty_holds-zero;
    push_adds = push_contract;
    peek_empty = peek_empty_contract;
    peek_highest = peek_contract;
    pop_takes = pop_contract;
    update_moves = update_contract;
    write_outside = write_outside-IsValid;
  }
