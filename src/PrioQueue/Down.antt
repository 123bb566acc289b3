-- ===== src/PrioQueue/Down.antt =====
-- `downHeap` restores the heap order.
use my_lpel.Common.{
  Double, Ptr, ℕ, zero, suc, ◌+◌, ◌*◌, ◌/◌, ◌^◌, ◌≤◌, ◌<◌, ◌≡◌, ◌≢◌, refl, ◌∙◌, inl, inr, ◌⊎◌,
  arith, ltb, ◌==◌, Bool-cases, Yields, yields, Yields-map, Yields-bind, update, update_self,
}
use my_lpel.PrioQueue.{Taskqueue, load-ok, store-ok, int-ok, greater_child, down_loop, down_heap}
use my_lpel.PrioQueue.Order.{key, IsHeap, IsBridged, Sifted, occurs-gap}

two_children : (c pos : ℕ) → c / 2 ≡ pos → (c ≡ pos * 2) ⊎ (c ≡ pos * 2 + 1)
two_children c pos e = grind arith

module _ {D : Type 0} ⦃d : Double D⦄ (prior : ℕ → D) (n : ℕ) where
  -- every edge is in order but those from `pos` to its children
  pub record DownInv (a : ℕ → Ptr) (pos : ℕ) : Type 0 where
    pub edges : (c : ℕ) → 1 < c → c < n → c / 2 ≢ pos → key prior a c ≤ key prior a (c / 2)
    pub bridged : IsBridged prior n a pos

  -- `child` is a child of `pos`, and no child of `pos` has a higher priority
  record Greatest (a : ℕ → Ptr) (pos child : ℕ) : Type 0 where
    inside : child < n
    above : child / 2 ≡ pos
    greatest : (c : ℕ) → c < n → c / 2 ≡ pos → key prior a c ≤ key prior a child

  greater_child-Greatest :
      (alloc : ℕ) (a : ℕ → Ptr) (pos : ℕ)
      → n ≤ alloc
      → pos * 2 < n
      → 1 ≤ pos
      → Yields (Greatest a pos) (greater_child prior alloc n a (pos * 2))
  unfolding greater_child
  greater_child-Greatest alloc a pos room h p = elim (Bool-cases (ltb (pos * 2 + 1) n)) [
    | inl two ↦
        rw
          (
            two,
            load-ok alloc a (pos * 2) (omega arith),
            load-ok alloc a (pos * 2 + 1) (ground arith),
          )
          (elim (Bool-cases (d.lt (prior (a (pos * 2))) (prior (a (pos * 2 + 1))))) [
            | inl right ↦ rw right (
                yields (
                  found (pos * 2 + 1) (ground arith) (omega arith) (λ _. ground (arith, order))
                    λ _. omega arith))
            | inr left ↦ rw left (
                yields
                  (found (pos * 2) h (omega arith) (λ _. omega arith) λ _. ground (arith, order)))
          ])
    | inr one ↦
        rw one
          (yields (found (pos * 2) h (omega arith) (λ _. omega arith) λ q. absurd (ground arith)))
  ]
    where
      order :
          d.lt (prior (a (pos * 2))) (prior (a (pos * 2 + 1)))
          ≡ ltb (key prior a (pos * 2)) (key prior a (pos * 2 + 1))
      order = d.lt_rank (prior (a (pos * 2))) (prior (a (pos * 2 + 1)))

      found :
          (child : ℕ)
          → child < n
          → child / 2 ≡ pos
          → (pos * 2 < n → key prior a (pos * 2) ≤ key prior a child)
          → (pos * 2 + 1 < n → key prior a (pos * 2 + 1) ≤ key prior a child)
          → Greatest a pos child
      found child q e l r = record {
        inside = q;
        above = e;
        greatest = λ c s f. elim (two_children c pos f) [
          | inl g ↦ ground (arith, l)
          | inr g ↦ ground (arith, r)
        ];
      }

  DownInv-stop :
      (a : ℕ → Ptr) (pos : ℕ)
      → ((c : ℕ) → 1 < c → c < n → c / 2 ≡ pos → key prior a c ≤ key prior a pos)
      → DownInv a pos
      → IsHeap prior a n
  DownInv-stop a pos h inv c p q = elim (Bool-cases (c / 2 == pos)) [
    | inl e ↦ ground (arith, h c)
    | inr ne ↦ inv.edges c p q (ground arith)
  ]

  module _ (alloc : ℕ) (t : Ptr) (room : n ≤ alloc) where
    DownInv-sink :
        (a : ℕ → Ptr) (pos child : ℕ)
        → 1 ≤ pos
        → Greatest a pos child
        → d.rank (prior t) < key prior a child
        → DownInv (update a pos t) pos
        → DownInv (update (update a pos (a child)) child t) child
    DownInv-sink a pos child p g h inv = record {
      edges = λ c r s ne. ground (arith, inv.edges c, inv.bridged child, g.greatest c);
      bridged = λ c r s e f. ground (arith, inv.edges c);
    }

    down_loop-Sifted :
        (k : ℕ) (a : ℕ → Ptr) (pos : ℕ)
        → n < pos + k
        → 1 ≤ pos
        → pos ≤ n
        → pos < alloc
        → pos < 2 ^ 30
        → n ≤ 2 ^ 30
        → DownInv (update a pos t) pos
        → Yields (Sifted prior n (update a pos t)) (down_loop prior alloc n t k a pos)
    unfolding down_loop
    down_loop-Sifted zero a pos f p le q s small inv = absurd (omega arith)
    down_loop-Sifted (suc k) a pos f p le q s small inv =
        rw (int-ok (pos * 2) (omega arith)) (elim (Bool-cases (ltb (pos * 2) n)) [
          | inr leaf ↦
              rw (leaf, store-ok alloc a pos t q)
                (yields (stopped (λ c r e g. absurd (ground arith))))
          | inl inner ↦ rw inner (
              Yields-bind (greater_child-Greatest alloc a pos room (ground arith) p) λ child g.
                rw (load-ok alloc a child (omega arith))
                  (elim (Bool-cases (d.lt (prior t) (prior (a child)))) [
                    | inl less ↦
                        rw (less, store-ok alloc a pos (a child) q)
                          (Yields-map
                            (down_loop-Sifted k _ child (omega arith) (omega arith) (omega arith)
                              (omega arith) (omega arith) small
                              (DownInv-sink a pos child p g
                                (ground (arith, d.lt_rank (prior t) (prior (a child)))) inv))
                            λ b r. record {
                              ordered = r.ordered;
                              same = λ x.
                                  r.same x
                                  ∙ occurs-gap x a pos child t n p (omega arith) (omega arith)
                                      (omega arith) (omega arith);
                            })
                    | inr not_less ↦
                        rw (not_less, store-ok alloc a pos t q)
                          (yields (
                            stopped λ c r e g'.
                              ground (arith, d.lt_rank (prior t) (prior (a child)), g.greatest c)))
                  ]))
        ])
      where
        stopped :
            ((c : ℕ)
              → 1 < c
              → c < n
              → c / 2 ≡ pos
              → key prior (update a pos t) c ≤ key prior (update a pos t) pos)
            → Sifted prior n (update a pos t) (update a pos t)
        stopped h = record { ordered = DownInv-stop _ pos h inv; same = λ x. refl }

  -- `downHeap` at a place where only the edges to the children may be out of order
  pub down_heap-Sifted :
      (tq : Taskqueue) (pos : ℕ)
      → tq.count ≡ n
      → n ≤ tq.alloc
      → 1 ≤ pos
      → pos ≤ n
      → pos < tq.alloc
      → pos < 2 ^ 30
      → n ≤ 2 ^ 30
      → DownInv tq.heap pos
      → Yields
          (λ q. Sifted prior n tq.heap q.heap × (q.count ≡ tq.count) × (q.alloc ≡ tq.alloc))
          (down_heap prior tq pos)
  unfolding down_heap
  down_heap-Sifted tq pos e room p le q s small inv =
      rw (load-ok tq.alloc tq.heap pos q, e)
        (Yields-bind
          (down_loop-Sifted tq.alloc (tq.heap pos) room n tq.heap pos (omega arith) p le q s small
            (rw (update_self tq.heap pos) inv))
          λ b r. yields (rw (update_self tq.heap pos) at r, refl, refl))
