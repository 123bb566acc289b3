-- ===== src/Hrc/Master/Offer.antt =====
-- What becomes of a task that can run: a waiting worker gets it, or it is queued.
use my_lpel.Common.{
  ℕ, ◌+◌, ◌<◌, ◌≡◌, ◌≢◌, refl, ap, ◌∙◌, inr, ◌⊎◌, Bool, true, false, ◌∷◌, arith, if◌then◌else◌,
  ==-refl, Res, ok, ◌>>=◌, Yields, yields, Yields-bind, Yields-map, update, Double, Ptr, null,
}
use my_lpel.ReadyQueue.{ReadyQueue, capacity}
use my_lpel.Hrc.World.{TaskState, ready, inqueue, is_inqueue, World}
use my_lpel.Hrc.Priority.{Settings, cal_priority}
use my_lpel.Hrc.Master.{Master, set_state, set_prior, serve_pending, enqueue, update_neigh}
use my_lpel.Hrc.Master.Invariant.{Inv, set_prior-Inv, enqueue-Enqueued}
use my_lpel.Hrc.Master.Serve.{First, Served, to_worker, to_nobody, serve_pending-Served}
use my_lpel.Hrc.Master.Neighbours.{update_neigh-Reordered}

module _ {D : Type 0} ⦃d : Double D⦄ (Q : ReadyQueue D) (c : Settings D) where
  -- nobody waits for a task
  abbrev pub NobodyWaits : Master Q c → Type 0
  NobodyWaits m = (j : ℕ) → j < m.num_workers → m.waitworkers j ≡ false

  -- `low` says that the task is withheld from the workers
  pub data Placed (low : Bool) (m : Master Q c) (t : Ptr) (r : Master Q c) : Type 0 where
    given :
        (i : ℕ)
        → low ≡ false
        → First Q c m i
        → r.sent ≡ (i, t) ∷ m.sent
        → r.waitworkers ≡ update m.waitworkers i false
        → ((x : Ptr) → r.state x ≡ update m.state t ready x)
        → Q.size r.ready_tasks ≡ Q.size m.ready_tasks
        → Placed low m t r
    kept :
        (low ≡ true) ⊎ NobodyWaits m
        → r.sent ≡ m.sent
        → r.waitworkers ≡ m.waitworkers
        → ((x : Ptr) → r.state x ≡ update m.state t inqueue x)
        → Q.size r.ready_tasks ≡ Q.size m.ready_tasks + 1
        → Placed low m t r

  pub record Offered (low : Bool) (m : Master Q c) (t : Ptr) (r : Master Q c) : Type 0 where
    pub inv : Inv Q c r
    pub num_workers : r.num_workers ≡ m.num_workers
    pub terminate : r.terminate ≡ m.terminate
    pub destroyed : r.destroyed ≡ m.destroyed
    pub wakenup : r.wakenup ≡ m.wakenup
    pub place : Placed low m t r

  pub Placed-set_state :
      (low : Bool) (m : Master Q c) (t : Ptr) (s : TaskState) {r : Master Q c}
      → Placed low (set_state Q c m t s) t r
      → Placed low m t r
  unfolding set_state
  Placed-set_state low m t s (given i l f e g h k) =
      given i l (record { inside = f.inside; waits = f.waits; first = f.first }) e g
        (λ x. ground (arith, h x)) k
  Placed-set_state low m t s (kept o e g h k) = kept o e g (λ x. ground (arith, h x)) k

  Placed-set_prior :
      (low : Bool) (m : Master Q c) (t : Ptr) (p : D) {r : Master Q c}
      → Placed low (set_prior Q c m t p) t r
      → Placed low m t r
  unfolding set_prior
  Placed-set_prior low m t p (given i l f e g h k) =
      given i l (record { inside = f.inside; waits = f.waits; first = f.first }) e g h k
  Placed-set_prior low m t p (kept o e g h k) = kept o e g h k

  pub Offered-set_state :
      (low : Bool) (m : Master Q c) (t : Ptr) (s : TaskState) {r : Master Q c}
      → Offered low (set_state Q c m t s) t r
      → Offered low m t r
  unfolding set_state
  Offered-set_state low m t s o = record {
    inv = o.inv;
    num_workers = o.num_workers;
    terminate = o.terminate;
    destroyed = o.destroyed;
    wakenup = o.wakenup;
    place = Placed-set_state low m t s o.place;
  }

  pub Offered-set_prior :
      (low : Bool) (m : Master Q c) (t : Ptr) (p : D) {r : Master Q c}
      → Offered low (set_prior Q c m t p) t r
      → Offered low m t r
  unfolding set_prior
  Offered-set_prior low m t p o = record {
    inv = o.inv;
    num_workers = o.num_workers;
    terminate = o.terminate;
    destroyed = o.destroyed;
    wakenup = o.wakenup;
    place = Placed-set_prior low m t p o.place;
  }

  -- the priority is written, then the task is queued
  pub enqueue-Offered :
      (low : Bool) (m : Master Q c) (t : Ptr) (p : D)
      → Inv Q c m
      → is_inqueue (m.state t) ≡ false
      → t ≢ null
      → Q.size m.ready_tasks < capacity
      → (low ≡ true) ⊎ NobodyWaits m
      → Yields (Offered low m t) (enqueue Q c (set_prior Q c m t p) t)
  unfolding set_prior
  enqueue-Offered low m t p v out ne room why =
      Yields-map
        (enqueue-Enqueued Q c (set_prior Q c m t p) t (set_prior-Inv Q c m t p v out) out ne room)
        λ r e. record {
          inv = e.inv;
          num_workers = e.num_workers;
          terminate = e.terminate;
          destroyed = e.destroyed;
          wakenup = e.wakenup;
          place = kept why e.sent e.waitworkers (λ x. ap (λ f. f x) e.state) e.grown;
        }

  Served-Offered :
      (m : Master Q c) (t : Ptr) (p : D) (k : Master Q c → Res (Master Q c)) {a : Bool × Master Q c}
      → Served Q c (set_prior Q c m t p) t a
      → Inv Q c (set_prior Q c m t p)
      → m.state t ≡ ready
      → (NobodyWaits m → Yields (Offered false m t) (k (set_prior Q c m t p)))
      → Yields (Offered false m t) (if a.0 then ok a.1 else k a.1)
  unfolding set_prior
  Served-Offered m t p k (to_worker i f) v e next = yields (record {
    inv = record { valid = v.valid; queued = v.queued; null_out = v.null_out };
    num_workers = refl;
    terminate = refl;
    destroyed = refl;
    wakenup = refl;
    place =
        given i refl (record { inside = f.inside; waits = f.waits; first = f.first }) refl refl
          (λ x. ground arith) refl;
  })
  Served-Offered m t p k (to_nobody h) v e next = next h

  -- `servePendingReq`, and what follows if it returns -1
  pub serve-Offered :
      (w : World) (m : Master Q c) (t : Ptr) (k : Master Q c → Res (Master Q c))
      → Inv Q c m
      → m.state t ≡ ready
      → (NobodyWaits m → Yields (Offered false m t) (k (set_prior Q c m t (cal_priority c w t))))
      → Yields
          (Offered false m t)
          (serve_pending Q c w m t >>= λ (served, r). if served then ok r else k r)
  serve-Offered w m t k v e next = Yields-bind (serve_pending-Served Q c w m t (rw e)) λ a s.
      Served-Offered m t (cal_priority c w t) k s
        (set_prior-Inv Q c m t (cal_priority c w t) v (rw e)) e next

  pub woken-ready : (m : Master Q c) (t : Ptr) → (set_state Q c m t ready).state t ≡ ready
  unfolding set_state
  woken-ready m t = rw (==-refl t)

  -- the same with a first priority that is written over
  pub enqueue_again-Offered :
      (low : Bool) (m : Master Q c) (t : Ptr) (p p' : D)
      → Inv Q c m
      → m.state t ≡ ready
      → t ≢ null
      → Q.size m.ready_tasks < capacity
      → (low ≡ true) ⊎ NobodyWaits m
      → Yields (Offered low m t) (enqueue Q c (set_prior Q c (set_prior Q c m t p) t p') t)
  unfolding set_prior
  enqueue_again-Offered low m t p p' v e ne room why =
      Yields-map
        (enqueue-Offered low (set_prior Q c m t p) t p' (set_prior-Inv Q c m t p v (rw e)) (rw e) ne
          room why)
        λ r o. Offered-set_prior low m t p o

  -- `servePendingReq` after the priority was written
  pub offer-Offered :
      (w : World) (m : Master Q c) (t : Ptr) (p : D) (k : Master Q c → Res (Master Q c))
      → Inv Q c m
      → m.state t ≡ ready
      → (NobodyWaits m
          → Inv Q c (set_prior Q c m t p)
          → Yields
              (Offered false (set_prior Q c m t p) t)
              (k (set_prior Q c (set_prior Q c m t p) t (cal_priority c w t))))
      → Yields (Offered false m t) (
          serve_pending Q c w (set_prior Q c m t p) t >>= λ (served, r).
          if served then ok r else k r)
  unfolding set_prior
  offer-Offered w m t p k v e next =
      let v' = set_prior-Inv Q c m t p v (rw e) in
      Yields-map (serve-Offered w (set_prior Q c m t p) t k v' e λ h. next h v')
        λ r o. Offered-set_prior false m t p o

  -- the neighbours are updated before the task is queued
  pub requeue-Offered :
      (w : World) (m : Master Q c) (t : Ptr) (p : D)
      → Inv Q c m
      → m.state t ≡ ready
      → t ≢ null
      → Q.size m.ready_tasks < capacity
      → NobodyWaits m
      → Yields
          (Offered false m t)
          (update_neigh Q c w m t >>= λ u. enqueue Q c (set_prior Q c u t p) t)
  unfolding set_prior
  requeue-Offered w m t p v e ne room nobody =
      Yields-bind (update_neigh-Reordered Q c w m t v) λ u a.
        let out : is_inqueue (u.state t) ≡ false = rw (a.state, e) in
        Yields-map
          (enqueue-Enqueued Q c (set_prior Q c u t p) t (set_prior-Inv Q c u t p a.inv out) out ne
            (rw a.size room))
          λ r q. record {
            inv = q.inv;
            num_workers = q.num_workers ∙ a.num_workers;
            terminate = q.terminate ∙ a.terminate;
            destroyed = q.destroyed ∙ a.destroyed;
            wakenup = q.wakenup ∙ a.wakenup;
            place =
                kept (inr nobody) (q.sent ∙ a.sent) (q.waitworkers ∙ a.waitworkers)
                  (λ x. ap (λ f. f x) q.state ∙ ap (λ f. update f t inqueue x) a.state)
                  (q.grown ∙ ap (λ n. n + 1) a.size);
          }

  pub Placed-wakenup :
      (low : Bool) (m : Master Q c) (t : Ptr) (f : Ptr → Bool) {r : Master Q c}
      → Placed low (record m { wakenup = f }) t r
      → Placed low m t r
  Placed-wakenup low m t f (given i l g e h k n) =
      given i l (record { inside = g.inside; waits = g.waits; first = g.first }) e h k n
  Placed-wakenup low m t f (kept o e g h k) = kept o e g h k
