-- ===== src/Hrc/Master/Return.antt =====
-- WORKER_MSG_RETURN.
use my_lpel.Common.{
  ◌<◌, ◌≡◌, ◌≢◌, refl, ap, inl, inr, Bool, true, false, [], ◌∷◌, Bool-cases, ◌>>=◌, Yields, yields,
  Yields-bind, Yields-map, update, Double, Ptr, null,
}
use my_lpel.ReadyQueue.{ReadyQueue, capacity}
use my_lpel.Hrc.World.{ready, blocked, zombie, returned, is_zombie, World}
use my_lpel.Hrc.Priority.{Settings, cal_priority}
use my_lpel.Hrc.Master.{
  Master, set_state, set_prior, enqueue, update_neigh, same_double, return_ready, destroy,
  return_as,
}
use my_lpel.Hrc.Master.Invariant.{Inv, set_prior-Inv, set_state-Inv}
use my_lpel.Hrc.Master.Neighbours.{
  Reordered, Refreshed, is_neighbour, update_neigh-Reordered, update_neigh-Refreshed,
}
use my_lpel.Hrc.Master.Offer.{
  Placed, Offered, Placed-wakenup, Placed-set_state, Offered-set_prior, enqueue-Offered,
  woken-ready, offer-Offered, requeue-Offered,
}

module _ {D : Type 0} ⦃d : Double D⦄ (Q : ReadyQueue D) (c : Settings D) (w : World)
    (m : Master Q c) (t : Ptr) (v : Inv Q c m) (ne : t ≢ null)
    (room : Q.size m.ready_tasks < capacity) where
  abbrev low : Bool
  low = same_double Q c (cal_priority c w t) c.dbl_min

  -- a task that can run is withheld if its priority is the lowest double, and goes to a waiting
  -- worker or into the queue if not
  pub return_ready-Offered :
      m.state t ≡ ready → Yields (Offered Q c low m t) (return_ready Q c w m t)
  unfolding return_ready set_prior
  return_ready-Offered e = elim (Bool-cases low) [
    | inl is_low ↦
        rw is_low (enqueue-Offered Q c true m t (cal_priority c w t) v (rw e) ne room (inl refl))
    | inr high ↦ rw high (
        offer-Offered Q c w m t (cal_priority c w t)
          (λ r.
            update_neigh Q c w r t >>= λ u. enqueue Q c (set_prior Q c u t (cal_priority c w t)) t)
          v e
          λ h v'.
            Yields-map
              (requeue-Offered Q c w
                (set_prior Q c (set_prior Q c m t (cal_priority c w t)) t (cal_priority c w t)) t
                (cal_priority c w t)
                (set_prior-Inv Q c (set_prior Q c m t (cal_priority c w t)) t (cal_priority c w t)
                  v' (rw e))
                e ne room h)
              λ r o.
                Offered-set_prior Q c false (set_prior Q c m t (cal_priority c w t)) t
                  (cal_priority c w t) o)
  ]

-- Inv does not speak of the wake-up marks.
Inv-wakenup :
    {D : Type 0} ⦃d : Double D⦄ (Q : ReadyQueue D) (c : Settings D) (m : Master Q c)
    (f : Ptr → Bool)
    → Inv Q c m
    → Inv Q c (record m { wakenup = f })
Inv-wakenup Q c m f v = record { valid = v.valid; queued = v.queued; null_out = v.null_out }

module _ {D : Type 0} ⦃d : Double D⦄ (Q : ReadyQueue D) (c : Settings D) (w : World)
    (m : Master Q c) (t : Ptr) (v : Inv Q c m) where
  -- what becomes of a task that was woken before it was returned
  pub record Rescued (r : Master Q c) : Type 0 where
    pub inv : Inv Q c r
    pub num_workers : r.num_workers ≡ m.num_workers
    pub terminate : r.terminate ≡ m.terminate
    pub destroyed : r.destroyed ≡ m.destroyed
    pub wakenup : r.wakenup ≡ update m.wakenup t false
    pub place : Placed Q c (same_double Q c (cal_priority c w t) c.dbl_min) m t r

  pub return_blocked-Rescued :
      t ≢ null
      → Q.size m.ready_tasks < capacity
      → m.wakenup t ≡ true
      → m.state t ≡ blocked
      → Yields Rescued (return_as Q c w m t blocked)
  unfolding return_as set_state
  return_blocked-Rescued ne room woken e =
      let m' = record m { wakenup = update m.wakenup t false } in
      let v' = set_state-Inv Q c m' t ready (Inv-wakenup Q c m _ v) (rw e) refl in
      rw woken (
        Yields-map
          (return_ready-Offered Q c w (set_state Q c m' t ready) t v' ne room
            (woken-ready Q c m' t))
          λ r o. record {
            inv = o.inv;
            num_workers = o.num_workers;
            terminate = o.terminate;
            destroyed = o.destroyed;
            wakenup = o.wakenup;
            place = Placed-wakenup Q c _ m t _ (Placed-set_state Q c _ m' t ready o.place);
          })

  pub return_blocked-Reordered :
      m.wakenup t ≡ false
      → m.state t ≡ blocked
      → Yields (Reordered Q c (set_state Q c m t returned)) (return_as Q c w m t blocked)
  unfolding return_as
  return_blocked-Reordered asleep e =
      rw asleep (update_neigh-Reordered Q c w _ t (set_state-Inv Q c m t returned v (rw e) refl))

  -- With the invariant, a returned blocked task that nobody has woken becomes RETURNED; nothing
  -- is sent and no waiting worker is served; the queued tasks at the other ends of its streams
  -- get their newly computed priorities, other queued tasks keep theirs, and the queue holds the
  -- same tasks and stays in order.
  pub return_blocked-Refreshed :
      m.wakenup t ≡ false
      → m.state t ≡ blocked
      → Yields
          (Refreshed Q c w (is_neighbour w t) (set_state Q c m t returned))
          (return_as Q c w m t blocked)
  unfolding return_as
  return_blocked-Refreshed asleep e =
      rw asleep (update_neigh-Refreshed Q c w _ t (set_state-Inv Q c m t returned v (rw e) refl))

  -- what a master is after it has freed a task
  pub record Destroyed (r : Master Q c) : Type 0 where
    pub inv : Inv Q c r
    pub destroyed : r.destroyed ≡ t ∷ m.destroyed
    pub state : r.state ≡ m.state
    pub sent : r.sent ≡ m.sent
    pub waitworkers : r.waitworkers ≡ m.waitworkers
    pub size : Q.size r.ready_tasks ≡ Q.size m.ready_tasks
    pub num_workers : r.num_workers ≡ m.num_workers
    pub wakenup : r.wakenup ≡ m.wakenup
    pub terminate : r.terminate ≡ m.terminate

  pub return_zombie-Destroyed :
      m.state t ≡ zombie
      → w.in_streams t ≡ []
      → w.out_streams t ≡ []
      → Yields Destroyed (return_as Q c w m t zombie)
  unfolding return_as destroy
  return_zombie-Destroyed e no_in no_out = Yields-bind (update_neigh-Reordered Q c w m t v) λ r a.
      let dead : is_zombie (r.state t) ≡ true = rw (a.state, e) in
      rw (dead, no_in, no_out)
        (yields (record {
          inv = record { valid = a.inv.valid; queued = a.inv.queued; null_out = a.inv.null_out };
          destroyed = ap (◌∷◌ t) a.destroyed;
          state = a.state;
          sent = a.sent;
          waitworkers = a.waitworkers;
          size = a.size;
          num_workers = a.num_workers;
          wakenup = a.wakenup;
          terminate = a.terminate;
        }))
