-- ===== src/PrioQueue/Push.antt =====
-- `LpelTaskqueuePush`.
use my_lpel.Common.{
  Double, Ptr, ℕ, suc, ◌+◌, ◌%◌, ◌^◌, ◌≤◌, ◌<◌, ◌≡◌, inl, inr, arith, leb, if◌then◌else◌,
  Bool-cases, Yields, yields, Yields-bind, hit, update, occurs-suc, occurs-update_above,
}
use my_lpel.PrioQueue.{Taskqueue, block_size, store-ok, push}
use my_lpel.PrioQueue.Order.{IsValid, holds}
use my_lpel.PrioQueue.Up.{UpInv, up_heap-Sifted}

abbrev grown : Taskqueue → ℕ
grown tq = if leb tq.alloc tq.count then (tq.alloc + block_size) % 2 ^ 32 else tq.alloc

-- what a queue is after a push
pub record Pushed {D : Type 0} ⦃d : Double D⦄ (prior : ℕ → D) (tq : Taskqueue) (t : Ptr)
    (q : Taskqueue) : Type 0 where
  pub valid : IsValid prior q
  pub counted : q.count ≡ tq.count + 1
  pub added : (x : Ptr) → holds q x ≡ holds tq x + hit x t

module _ {D : Type 0} ⦃d : Double D⦄ (prior : ℕ → D) (tq : Taskqueue) (t : Ptr)
    (v : IsValid prior tq) (small : tq.count < 2 ^ 30) where
  grown_bounds : (tq.count < grown tq) × (grown tq ≤ 2 ^ 31)
  grown_bounds = elim (Bool-cases (leb tq.alloc tq.count)) [
    | inl full ↦ rw full (ground arith, ground arith)
    | inr spare ↦ rw spare (ground arith, ground arith)
  ]

  start-UpInv : UpInv prior (suc tq.count) (update tq.heap tq.count t) tq.count
  start-UpInv = record {
    edges = λ c p q ne. ground (arith, v.ordered c);
    bridged = λ c p q e r. absurd (omega arith);
  }

  -- Push onto a well-formed queue with a count below 2^30 adds exactly the given task and keeps
  -- the heap in order, growing the array when it is full.
  pub push-Pushed : Yields (Pushed prior tq t) (push prior tq t)
  unfolding push
  push-Pushed = rw (store-ok (grown tq) tq.heap tq.count t grown_bounds.0) (
      Yields-bind
        (up_heap-Sifted prior (suc tq.count) _ tq.count grown_bounds.0 v.started (omega arith)
          start-UpInv)
        λ q (s, count, alloc).
          let up : (q.count + 1) % 2 ^ 32 ≡ suc tq.count = omega arith in
          yields (
            rw up (record {
              valid = record {
                ordered = s.ordered;
                started = omega arith;
                fits = omega (arith, grown_bounds);
                small = small;
                mapped = omega (arith, grown_bounds);
              };
              counted = omega arith;
              added = λ x. ground (
                arith,
                s.same x,
                occurs-suc x (update tq.heap tq.count t) tq.count,
                occurs-update_above x tq.heap tq.count t tq.count,
              );
            })))
