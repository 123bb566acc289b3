-- ===== src/PrioQueue/Pop.antt =====
-- `LpelTaskqueuePeek` and `LpelTaskqueuePop`.
use my_lpel.Common.{
  Double, Ptr, null, ℕ, zero, suc, ◌+◌, ◌-◌, ◌/◌, ◌%◌, ◌^◌, ◌≤◌, ◌<◌, ◌≡◌, refl, inl, inr, arith,
  ◌==◌, Bool-cases, ==-ne, ok, Yields, yields, Yields-of, Yields-bind, hit, update, occurs,
  occurs-at, occurs-index,
}
use my_lpel.PrioQueue.{Taskqueue, load-ok, store-ok, remove_head, pop, peek}
use my_lpel.PrioQueue.Order.{key, IsHeap, Sifted, IsValid, holds, occurs-last_to_first}
use my_lpel.PrioQueue.Down.{DownInv, down_heap-Sifted}

module _ {D : Type 0} ⦃d : Double D⦄ (prior : ℕ → D) where
  root_greatest :
      (k n : ℕ) (a : ℕ → Ptr) (i : ℕ)
      → IsHeap prior a n
      → i < k
      → 1 ≤ i
      → i < n
      → key prior a i ≤ key prior a 1
  root_greatest zero n a i h f p q = absurd (omega arith)
  root_greatest (suc k) n a i h f p q = elim (Bool-cases (i == 1)) [
    | inl e ↦ ground arith
    | inr ne ↦ ground (arith, h i, root_greatest k n a (i / 2) h)
  ]

  -- the task at the head has the highest priority of all that the queue holds
  pub record Highest (tq : Taskqueue) (t : Ptr) : Type 0 where
    pub held : 0 < holds tq t
    pub highest : (x : Ptr) → 0 < holds tq x → d.rank (prior x) ≤ d.rank (prior t)

  -- what a pop returns from a queue that is not empty
  pub record Popped (tq : Taskqueue) (r : Ptr × Taskqueue) : Type 0 where
    pub seen : peek tq ≡ ok r.0
    pub head : Highest tq r.0
    pub valid : IsValid prior r.1
    pub counted : tq.count ≡ r.1.count + 1
    pub taken : (x : Ptr) → holds tq x ≡ holds r.1 x + hit x r.0

  module _ (tq : Taskqueue) (v : IsValid prior tq) where
    pub peek-empty : tq.count ≡ 1 → (peek tq ≡ ok null) × (pop prior tq ≡ ok (null, tq))
    unfolding peek pop
    peek-empty e = rw e (refl, refl)

    module _ (filled : 1 < tq.count) where
      head-Highest : Highest tq (tq.heap 1)
      head-Highest = record {
        held = occurs-at (tq.heap 1) tq.heap 1 tq.count (omega arith) filled refl;
        highest = λ x h.
            let (i, p, q, e) = occurs-index x tq.heap tq.count h in
            rw (← e) (root_greatest (suc i) tq.count tq.heap i v.ordered (omega arith) p q);
      }

      peek-first : peek tq ≡ ok (tq.heap 1)
      unfolding peek
      peek-first =
          rw (==-ne tq.count 1 (omega arith), load-ok tq.alloc tq.heap 1 (omega (arith, v.fits)))

      pub peek-Highest : Yields (Highest tq) (peek tq)
      peek-Highest = Yields-of (tq.heap 1) peek-first head-Highest

      left : ℕ
      left = tq.count - 1

      moved : ℕ → Ptr
      moved = update tq.heap 1 (tq.heap left)

      moved-DownInv : DownInv prior left moved 1
      unfolding left moved
      moved-DownInv = record {
        edges = λ c p q ne. ground (arith, v.ordered c);
        bridged = λ c p q e r. absurd (omega arith);
      }

      occurs-moved : (x : Ptr) → holds tq x ≡ occurs x moved left + hit x (tq.heap 1)
      unfolding left moved
      occurs-moved x =
          occurs-last_to_first x tq.heap (tq.count - 1) (tq.count) (omega arith) (omega arith)

      remove_head-Sifted :
          Yields
            (λ q. Sifted prior left moved q.heap × (q.count ≡ left) × (q.alloc ≡ tq.alloc))
            (remove_head prior tq)
      unfolding remove_head moved left
      remove_head-Sifted =
          let down : (tq.count + 2 ^ 32 - 1) % 2 ^ 32 ≡ left = omega (arith, v.small) in
          rw
            (
              down,
              load-ok tq.alloc tq.heap left (omega (arith, v.fits)),
              store-ok tq.alloc tq.heap 1 (tq.heap left) (omega (arith, v.fits)),
            )
            (down_heap-Sifted prior left (record { heap = moved; count = left; alloc = tq.alloc }) 1
              refl (omega (arith, v.fits)) (omega arith) (omega arith) (omega (arith, v.fits))
              (omega arith) (omega (arith, v.small)) moved-DownInv)

      -- Pop on a well-formed queue that is not empty returns a task of the highest priority,
      -- removes it once, and keeps the heap in order.
      pub pop-Popped : Yields (Popped tq) (pop prior tq)
      unfolding pop left
      pop-Popped =
          rw (==-ne tq.count 1 (omega arith), load-ok tq.alloc tq.heap 1 (omega (arith, v.fits)))
            (Yields-bind remove_head-Sifted λ q (s, count, alloc). yields (record {
              seen = peek-first;
              head = head-Highest;
              valid = record {
                ordered = rw count s.ordered;
                started = omega arith;
                fits = omega (arith, v.fits);
                small = omega (arith, v.small);
                mapped = omega (arith, v.mapped);
              };
              counted = omega arith;
              taken = λ x. rw count (ground (arith, s.same x, occurs-moved x));
            }))
