-- ===== src/PrioQueue/Update.antt =====
-- `LpelTaskqueueUpdatePriority`.
use my_lpel.Common.{
  Double, Ptr, ℕ, ◌/◌, ◌≤◌, ◌<◌, ◌≡◌, ◌≢◌, refl, ap, ◌∙◌, inl, inr, Option, none, some, arith, ltb,
  Bool-cases, ==-refl, ==-ne, ok, fault, assertion, Yields, yields, Yields-bind, Yields-open,
  update, occurs-at, occurs-twice, occurs-index,
}
use my_lpel.PrioQueue.{Taskqueue, search_item, update_at, update_priority}
use my_lpel.PrioQueue.Order.{key, IsHeap, Sifted, IsValid, holds}
use my_lpel.PrioQueue.Up.{UpInv, up_heap-Sifted}
use my_lpel.PrioQueue.Down.{DownInv, down_heap-Sifted}
use my_lpel.PrioQueue.Search.{Found, at, nowhere, search_item-Found}

-- what an update of the priority of `t` to `np` returns
pub record Updated {D : Type 0} ⦃d : Double D⦄ (prior : ℕ → D) (tq : Taskqueue) (t : Ptr) (np : D)
    (r : (ℕ → D) × Taskqueue) : Type 0 where
  pub written : r.0 ≡ update prior t np
  pub valid : IsValid r.0 r.1
  pub counted : r.1.count ≡ tq.count
  pub same : (x : Ptr) → holds r.1 x ≡ holds tq x

module _ {D : Type 0} ⦃d : Double D⦄ (prior : ℕ → D) (tq : Taskqueue) (t : Ptr) (np : D)
    (v : IsValid prior tq) where
  -- The priority of a task that is not in a well-formed queue cannot be updated: the assert
  -- fails.
  pub update_priority-absent : holds tq t ≡ 0 → update_priority prior tq t np ≡ fault assertion
  unfolding update_priority
  update_priority-absent none_held = let (o, run, f) = search in rw (run, update_at) (absent o f)
    where
      search :
          (o : Option ℕ) × (search_item t tq.alloc tq.count tq.heap tq.count 1 ≡ ok o)
          × Found t tq.heap tq.count o
      search = Yields-open (
          search_item-Found t tq.alloc tq.count tq.heap tq.count 1 v.fits (omega arith)
            (omega arith) v.started λ j r s. absurd (omega arith))

      absent :
          (o : Option ℕ) → Found t tq.heap tq.count o → update_at prior tq t np o ≡ fault assertion
      absent none f = refl
      absent (some pos) (at pos' p q e) =
          absurd (omega (arith, occurs-at t tq.heap pos' tq.count p q e))

  module _ (once : holds tq t ≡ 1) (pos : ℕ) (p : 1 ≤ pos) (q : pos < tq.count)
      (e : tq.heap pos ≡ t) where
    abbrev prior' : ℕ → D
    prior' = update prior t np

    elsewhere : (c : ℕ) → 1 ≤ c → c < tq.count → c ≢ pos → tq.heap c ≢ t
    elsewhere c r s ne f = elim (Bool-cases (ltb c pos)) [
      | inl before ↦ omega (arith, occurs-twice t tq.heap c pos tq.count r (ground arith) q f e)
      | inr after ↦ omega (arith, occurs-twice t tq.heap pos c tq.count p (ground arith) s e f)
    ]

    key-other :
        (c : ℕ) → 1 ≤ c → c < tq.count → c ≢ pos → key prior' tq.heap c ≡ key prior tq.heap c
    key-other c r s ne = ap d.rank (rw (==-ne (tq.heap c) t (elsewhere c r s ne)))

    key-pos : key prior' tq.heap pos ≡ d.rank np
    key-pos = ap (λ x. d.rank (update prior t np x)) e ∙ rw (==-refl t)

    old-pos : key prior tq.heap pos ≡ d.rank (prior t)
    old-pos = ap (λ x. d.rank (prior x)) e

    at-pos : (c : ℕ) → c ≡ pos → tq.heap c ≡ tq.heap pos
    at-pos c f = ap tq.heap f

    raised-UpInv : d.rank (prior t) ≤ d.rank np → UpInv prior' tq.count tq.heap pos
    raised-UpInv h = record {
      edges = λ c r s ne.
          ground
            (arith, key-other c, key-other (c / 2), key-pos, old-pos, v.ordered c, at-pos (c / 2));
      bridged = λ c r s f g.
          ground
            (arith, key-other c, key-other (pos / 2), v.ordered c, v.ordered pos, at-pos (c / 2));
    }

    lowered-DownInv : d.rank np ≤ d.rank (prior t) → DownInv prior' tq.count tq.heap pos
    lowered-DownInv h = record {
      edges = λ c r s ne.
          ground (arith, key-other c, key-other (c / 2), key-pos, old-pos, v.ordered c, at-pos c);
      bridged = λ c r s f g.
          ground
            (arith, key-other c, key-other (pos / 2), v.ordered c, v.ordered pos, at-pos (c / 2));
    }

    kept-IsHeap : d.rank np ≡ d.rank (prior t) → IsHeap prior' tq.heap tq.count
    kept-IsHeap h c r s = ground (
      arith,
      key-other c,
      key-other (c / 2),
      key-pos,
      old-pos,
      v.ordered c,
      at-pos c,
      at-pos (c / 2),
    )

    update_at-Updated : Yields (Updated prior tq t np) (update_at prior tq t np (some pos))
    unfolding update_at
    update_at-Updated = elim (Bool-cases (d.lt (prior t) np)) [
      | inl up ↦ rw up (
          Yields-bind
            (up_heap-Sifted prior' tq.count tq pos v.fits p q
              (raised-UpInv (ground (arith, d.lt_rank (prior t) np))))
            λ b (s, count, alloc). yields (sifted b s count alloc))
      | inr not_up ↦ rw not_up (elim (Bool-cases (d.lt np (prior t))) [
        | inl down ↦ rw down (
            Yields-bind
              (down_heap-Sifted prior' tq.count tq pos refl v.fits p (omega arith)
                (omega (arith, v.fits)) (omega (arith, v.small)) v.small
                (lowered-DownInv (ground (arith, d.lt_rank np (prior t)))))
              λ b (s, count, alloc). yields (sifted b s count alloc))
        | inr equal ↦ rw equal (
            yields (
              sifted tq
                (record {
                  ordered =
                      kept-IsHeap (ground (arith, d.lt_rank np (prior t), d.lt_rank (prior t) np));
                  same = λ x. refl;
                })
                refl refl))
      ])
    ]
      where
        sifted :
            (b : Taskqueue)
            → Sifted prior' tq.count tq.heap b.heap
            → b.count ≡ tq.count
            → b.alloc ≡ tq.alloc
            → Updated prior tq t np (prior', b)
        sifted b s count alloc = record {
          written = refl;
          valid = record {
            ordered = rw count s.ordered;
            started = omega (arith, v.started);
            fits = omega (arith, v.fits);
            small = omega (arith, v.small);
            mapped = omega (arith, v.mapped);
          };
          counted = count;
          same = λ x. rw count (s.same x);
        }

  -- In a well-formed queue a task that is queued once is found, gets the new priority, and the
  -- queue stays in order with the same tasks.
  pub update_priority-Updated :
      holds tq t ≡ 1 → Yields (Updated prior tq t np) (update_priority prior tq t np)
  unfolding update_priority
  update_priority-Updated once =
      Yields-bind
        (search_item-Found t tq.alloc tq.count tq.heap tq.count 1 v.fits (omega arith) (omega arith)
          v.started λ j r s. absurd (omega arith))
        found
    where
      found :
          (o : Option ℕ)
          → Found t tq.heap tq.count o
          → Yields (Updated prior tq t np) (update_at prior tq t np o)
      found (some pos) (at pos' p q e) = update_at-Updated once pos' p q e
      found none (nowhere h) =
          let (i, p, q, e) = occurs-index t tq.heap tq.count (omega arith) in absurd (h i p q e)
