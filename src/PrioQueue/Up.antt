-- ===== src/PrioQueue/Up.antt =====
-- `upHeap` restores the heap order.
use my_lpel.Common.{
  Double, Ptr, ℕ, zero, suc, ◌+◌, ◌/◌, ◌≤◌, ◌<◌, ◌≡◌, ◌≢◌, refl, ◌∙◌, inl, inr, arith, ◌==◌,
  Bool-cases, Yields, yields, Yields-map, Yields-bind, update, update_self,
}
use my_lpel.PrioQueue.{Taskqueue, load-ok, store-ok, up_loop, up_heap}
use my_lpel.PrioQueue.Order.{key, IsHeap, IsBridged, Sifted, occurs-gap}

module _ {D : Type 0} ⦃d : Double D⦄ (prior : ℕ → D) (n : ℕ) where
  -- every edge is in order but the one from `pos` to its parent
  pub record UpInv (a : ℕ → Ptr) (pos : ℕ) : Type 0 where
    pub edges : (c : ℕ) → 1 < c → c < n → c ≢ pos → key prior a c ≤ key prior a (c / 2)
    pub bridged : IsBridged prior n a pos

  module _ (alloc : ℕ) (t : Ptr) (room : n ≤ alloc) where
    UpInv-rise :
        (a : ℕ → Ptr) (pos : ℕ)
        → 1 < pos
        → pos < n
        → key prior a (pos / 2) < d.rank (prior t)
        → UpInv (update a pos t) pos
        → UpInv (update (update a pos (a (pos / 2))) (pos / 2) t) (pos / 2)
    UpInv-rise a pos p q h inv = record {
      edges = λ c r s ne. ground (arith, inv.edges c, inv.bridged c);
      bridged = λ c r s e f. ground (arith, inv.edges c, inv.edges (pos / 2));
    }

    UpInv-stop :
        (a : ℕ → Ptr) (pos : ℕ)
        → (1 < pos → key prior a pos ≤ key prior a (pos / 2))
        → UpInv a pos
        → IsHeap prior a n
    UpInv-stop a pos h inv c p q = elim (Bool-cases (c == pos)) [
      | inl e ↦ ground (arith, h)
      | inr ne ↦ inv.edges c p q (ground arith)
    ]

    up_loop-Sifted :
        (k : ℕ) (a : ℕ → Ptr) (pos : ℕ)
        → pos < k
        → 1 ≤ pos
        → pos < n
        → UpInv (update a pos t) pos
        → Yields (Sifted prior n (update a pos t)) (up_loop prior alloc t k a pos)
    unfolding up_loop
    up_loop-Sifted zero a pos f p q inv = absurd (omega arith)
    up_loop-Sifted (suc k) a pos f p q inv = elim (Bool-cases (pos / 2 == 0)) [
      | inl top ↦
          rw (top, store-ok alloc a pos t (omega arith))
            (yields (record { ordered = UpInv-stop _ pos (ground arith) inv; same = λ x. refl }))
      | inr deep ↦
          rw (deep, load-ok alloc a (pos / 2) (omega arith))
            (elim (Bool-cases (d.lt (prior (a (pos / 2))) (prior t))) [
              | inl more ↦
                  rw (more, store-ok alloc a pos (a (pos / 2)) (omega arith))
                    (Yields-map
                      (up_loop-Sifted k _ (pos / 2) (omega arith) (ground arith) (omega arith) (
                        UpInv-rise a pos (ground arith) q
                          (ground (arith, d.lt_rank (prior (a (pos / 2))) (prior t))) inv))
                      λ b s. record {
                        ordered = s.ordered;
                        same = λ x.
                            s.same x
                            ∙ occurs-gap x a pos (pos / 2) t n p q (ground arith) (omega arith)
                                (ground arith);
                      })
              | inr done ↦
                  rw (done, store-ok alloc a pos t (omega arith))
                    (yields (record {
                      ordered =
                          UpInv-stop _ pos
                            (ground (arith, d.lt_rank (prior (a (pos / 2))) (prior t))) inv;
                      same = λ x. refl;
                    }))
            ])
    ]

  -- `upHeap` at a place where only the edge to the parent may be out of order
  pub up_heap-Sifted :
      (tq : Taskqueue) (pos : ℕ)
      → n ≤ tq.alloc
      → 1 ≤ pos
      → pos < n
      → UpInv tq.heap pos
      → Yields
          (λ q. Sifted prior n tq.heap q.heap × (q.count ≡ tq.count) × (q.alloc ≡ tq.alloc))
          (up_heap prior tq pos)
  unfolding up_heap
  up_heap-Sifted tq pos room p q inv = rw (load-ok tq.alloc tq.heap pos (omega arith)) (
      Yields-bind
        (up_loop-Sifted tq.alloc (tq.heap pos) room (pos + 1) tq.heap pos (omega arith) p q
          (rw (update_self tq.heap pos) inv))
        λ b s. yields (rw (update_self tq.heap pos) at s, refl, refl))
