-- ===== src/ReadyQueue.antt =====
-- The contract of the master's ready queue: what sched/hierarchy/hrc_worker_op.c relies on in
-- sched/hierarchy/hrc_taskqueue.h.
use my_lpel.Common.{
  ℕ, ◌+◌, ◌-◌, ◌^◌, ◌≤◌, ◌<◌, ◌≡◌, Res, ok, Yields, hit, update, Double, Ptr, null,
}

-- more tasks than this are never queued
abbrev pub capacity : ℕ
capacity = 2 ^ 30 - 1

pub record ReadyQueue (D : Type 0) ⦃d : Double D⦄ : Type 1 where
  pub Queue : Type 0
  pub push : (ℕ → D) → Queue → Ptr → Res Queue
  pub pop : (ℕ → D) → Queue → Res (Ptr × Queue)
  pub peek : Queue → Res Ptr
  pub update_priority : (ℕ → D) → Queue → Ptr → D → Res ((ℕ → D) × Queue)
  pub size : Queue → ℕ
  -- the order of the queue agrees with the priorities
  pub Valid : (ℕ → D) → Queue → Type 0
  -- how often a task is queued
  pub holds : Queue → Ptr → ℕ
  pub empty_holds : (q : Queue) (x : Ptr) → size q ≡ 0 → holds q x ≡ 0
  pub push_adds :
      (prior : ℕ → D) (q : Queue) (t : Ptr)
      → Valid prior q
      → size q < capacity
      → Yields
          (λ r.
            Valid prior r × (size r ≡ size q + 1) × ((x : Ptr) → holds r x ≡ holds q x + hit x t))
          (push prior q t)
  pub peek_empty : (prior : ℕ → D) (q : Queue) → Valid prior q → size q ≡ 0 → peek q ≡ ok null
  pub peek_highest :
      (prior : ℕ → D) (q : Queue)
      → Valid prior q
      → 0 < size q
      → Yields
          (λ t. (0 < holds q t) × ((x : Ptr) → 0 < holds q x → d.rank (prior x) ≤ d.rank (prior t)))
          (peek q)
  pub pop_takes :
      (prior : ℕ → D) (q : Queue)
      → Valid prior q
      → 0 < size q
      → Yields
          (λ (t, r).
            (peek q ≡ ok t)
            × Valid prior r
            × (size q ≡ size r + 1)
            × ((x : Ptr) → holds q x ≡ holds r x + hit x t))
          (pop prior q)
  pub update_moves :
      (prior : ℕ → D) (q : Queue) (t : Ptr) (np : D)
      → Valid prior q
      → holds q t ≡ 1
      → Yields
          (λ (prior', r).
            (prior' ≡ update prior t np)
            × Valid prior' r
            × (size r ≡ size q)
            × ((x : Ptr) → holds r x ≡ holds q x))
          (update_priority prior q t np)
  -- the priority of a task that is not queued may be written directly
  pub write_outside :
      (prior : ℕ → D) (q : Queue) (t : Ptr) (np : D)
      → Valid prior q
      → holds q t ≡ 0
      → Valid (update prior t np) q
