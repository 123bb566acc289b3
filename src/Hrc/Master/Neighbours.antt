-- ===== src/Hrc/Master/Neighbours.antt =====
-- `updatePriorityNeigh`: queued neighbours change their priority, and nothing else changes.
use my_lpel.Common.{
  Bool, true, ◌||◌, if◌then◌else◌, ap, ==-ne, ==-true, ◌≡◌, refl, ◌∙◌, inl, inr, false, not, ◌&&◌,
  List, [], ◌∷◌, arith, ◌==◌, Bool-cases, Yields, yields, Yields-bind, Yields-map, Double, Ptr,
  null,
}
use my_lpel.ReadyQueue.{ReadyQueue}
use my_lpel.Hrc.World.{is_inqueue, World}
use my_lpel.Hrc.Priority.{Side, input, output, neighbour, Settings, cal_priority}
use my_lpel.Hrc.Master.{Master, update_task, update_list, update_neigh}
use my_lpel.Hrc.Master.Invariant.{Inv}

-- the tasks at the other end of some streams
meets : World → Side → List Ptr → Ptr → Bool
meets w side [] x = false
meets w side (y ∷ list) x = x == neighbour w side y || meets w side list x

-- the tasks that share a stream with `t`
pub is_neighbour : World → Ptr → Ptr → Bool
is_neighbour w t x = meets w input (w.in_streams t) x || meets w output (w.out_streams t) x

-- a value that is written twice, under either of two conditions
either_new :
    {A : Type 0} (p q : Bool) (new old mid last : A)
    → mid ≡ (if p then new else old)
    → last ≡ (if q then new else mid)
    → last ≡ (if p || q then new else old)
either_new true true new old mid last e e' = e'
either_new true false new old mid last e e' = e' ∙ e
either_new false true new old mid last e e' = e'
either_new false false new old mid last e e' = e' ∙ e

module _ {D : Type 0} ⦃d : Double D⦄ (Q : ReadyQueue D) (c : Settings D) where
  -- only priorities of queued tasks, and the places of these, differ
  pub record Reordered (m r : Master Q c) : Type 0 where
    pub inv : Inv Q c r
    pub size : Q.size r.ready_tasks ≡ Q.size m.ready_tasks
    pub holds : (x : Ptr) → Q.holds r.ready_tasks x ≡ Q.holds m.ready_tasks x
    pub prior : (x : Ptr) → is_inqueue (m.state x) ≡ false → r.prior x ≡ m.prior x
    pub state : r.state ≡ m.state
    pub sent : r.sent ≡ m.sent
    pub waitworkers : r.waitworkers ≡ m.waitworkers
    pub num_workers : r.num_workers ≡ m.num_workers
    pub wakenup : r.wakenup ≡ m.wakenup
    pub terminate : r.terminate ≡ m.terminate
    pub destroyed : r.destroyed ≡ m.destroyed

  Reordered-refl : (m : Master Q c) → Inv Q c m → Reordered m m
  Reordered-refl m v = record {
    inv = v;
    size = refl;
    holds = λ x. refl;
    prior = λ x h. refl;
    state = refl;
    sent = refl;
    waitworkers = refl;
    num_workers = refl;
    wakenup = refl;
    terminate = refl;
    destroyed = refl;
  }

  Reordered-trans : (m r s : Master Q c) → Reordered m r → Reordered r s → Reordered m s
  Reordered-trans m r s a b = record {
    inv = b.inv;
    size = b.size ∙ a.size;
    holds = λ x. b.holds x ∙ a.holds x;
    prior = λ x h. b.prior x (rw a.state h) ∙ a.prior x h;
    state = b.state ∙ a.state;
    sent = b.sent ∙ a.sent;
    waitworkers = b.waitworkers ∙ a.waitworkers;
    num_workers = b.num_workers ∙ a.num_workers;
    wakenup = b.wakenup ∙ a.wakenup;
    terminate = b.terminate ∙ a.terminate;
    destroyed = b.destroyed ∙ a.destroyed;
  }

  -- the priorities of the named tasks that are queued were computed anew, no other
  pub record Refreshed (w : World) (named : Ptr → Bool) (m r : Master Q c) : Type 0 where
    pub reordered : Reordered m r
    pub fresh :
        (x : Ptr)
        → is_inqueue (m.state x) ≡ true
        → r.prior x ≡ (if named x then cal_priority c w x else m.prior x)

  Refreshed-trans :
      (w : World) (f g : Ptr → Bool) (m r s : Master Q c)
      → Refreshed w f m r
      → Refreshed w g r s
      → Refreshed w (λ x. f x || g x) m s
  Refreshed-trans w f g m r s a b = record {
    reordered = Reordered-trans m r s a.reordered b.reordered;
    fresh = λ x h.
        either_new (f x) (g x) (cal_priority c w x) (m.prior x) (r.prior x) (s.prior x)
          (a.fresh x h) (b.fresh x (rw a.reordered.state h));
  }

  update_task-Refreshed :
      (w : World) (m : Master Q c) (t : Ptr)
      → Inv Q c m
      → Yields (Refreshed w (λ x. x == t) m) (update_task Q c w m t)
  unfolding update_task
  update_task-Refreshed w m t v = elim (Bool-cases (not (t == null) && is_inqueue (m.state t))) [
    | inr skip ↦ rw skip (
        yields (record {
          reordered = Reordered-refl m v;
          fresh = λ x h.
              let other : x == t ≡ false = ==-ne x t λ e.
                (ground (
                  arith,
                  skip,
                  ap (λ y. is_inqueue (m.state y)) e,
                  h,
                  v.null_out,
                  ap (λ y. is_inqueue (m.state y))
                      (==-true t null
                        (ground (arith, skip, ap (λ y. is_inqueue (m.state y)) e, h))),
                )) in
              rw other refl;
        }))
    | inl move ↦ rw move (
        Yields-bind
          (Q.update_moves m.prior m.ready_tasks t (cal_priority c w t) v.valid
            (ground (arith, v.queued t)))
          λ r (written, valid, size, same). yields (record {
            reordered = record {
              inv = record {
                valid = valid;
                queued = λ x. same x ∙ v.queued x;
                null_out = v.null_out;
              };
              size = size;
              holds = same;
              prior = λ x h. rw written (ground arith);
              state = refl;
              sent = refl;
              waitworkers = refl;
              num_workers = refl;
              wakenup = refl;
              terminate = refl;
              destroyed = refl;
            };
            fresh = λ x h. rw written (elim (Bool-cases (x == t)) [
              | inl e ↦ rw (e, ==-true x t e) refl
              | inr e ↦ rw e refl
            ]);
          }))
  ]

  update_list-Refreshed :
      (w : World) (side : Side) (list : List Ptr) (m : Master Q c)
      → Inv Q c m
      → Yields (Refreshed w (meets w side list) m) (update_list Q c w side list m)
  unfolding update_list meets
  update_list-Refreshed w side [] m v =
      yields (record { reordered = Reordered-refl m v; fresh = λ x h. refl })
  update_list-Refreshed w side (x ∷ list) m v =
      Yields-bind (update_task-Refreshed w m (neighbour w side x) v) λ r a.
        Yields-map (update_list-Refreshed w side list r a.reordered.inv)
          (λ s. Refreshed-trans w _ _ m r s a)

  pub update_neigh-Refreshed :
      (w : World) (m : Master Q c) (t : Ptr)
      → Inv Q c m
      → Yields (Refreshed w (is_neighbour w t) m) (update_neigh Q c w m t)
  unfolding update_neigh is_neighbour
  update_neigh-Refreshed w m t v =
      Yields-bind (update_list-Refreshed w input (w.in_streams t) m v) λ r a.
        Yields-map (update_list-Refreshed w output (w.out_streams t) r a.reordered.inv)
          (λ s. Refreshed-trans w _ _ m r s a)

  pub update_neigh-Reordered :
      (w : World) (m : Master Q c) (t : Ptr)
      → Inv Q c m
      → Yields (Reordered m) (update_neigh Q c w m t)
  update_neigh-Reordered w m t v = Yields-map (update_neigh-Refreshed w m t v) λ r a. a.reordered
