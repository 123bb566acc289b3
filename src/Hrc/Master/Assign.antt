-- ===== src/Hrc/Master/Assign.antt =====
-- WORKER_MSG_ASSIGN and WORKER_MSG_WAKEUP.
use my_lpel.Common.{
  ◌<◌, ◌≡◌, ◌≢◌, refl, inl, inr, true, false, Bool-cases, ok, Yields, Yields-map, update, Double,
  Ptr, null,
}
use my_lpel.ReadyQueue.{ReadyQueue, capacity}
use my_lpel.Hrc.World.{created, ready, returned, is_inqueue, is_returned, World}
use my_lpel.Hrc.Priority.{Settings, cal_priority}
use my_lpel.Hrc.Master.{Master, set_state, set_prior, enqueue, same_double, on_assign, on_wakeup}
use my_lpel.Hrc.Master.Invariant.{Inv, set_state-Inv}
use my_lpel.Hrc.Master.Offer.{
  NobodyWaits, Offered, Offered-set_state, enqueue-Offered, serve-Offered, woken-ready,
  offer-Offered, enqueue_again-Offered,
}

module _ {D : Type 0} ⦃d : Double D⦄ (Q : ReadyQueue D) (c : Settings D) (w : World)
    (m : Master Q c) (t : Ptr) (v : Inv Q c m) (ne : t ≢ null)
    (room : Q.size m.ready_tasks < capacity) where
  abbrev woken : Master Q c
  woken = set_state Q c m t ready

  woken-Inv : is_inqueue (m.state t) ≡ false → Inv Q c woken
  woken-Inv out = set_state-Inv Q c m t ready v out refl

  woken_room : Q.size woken.ready_tasks < capacity
  unfolding set_state
  woken_room = room

  primed-ready : (set_prior Q c woken t (cal_priority c w t)).state t ≡ ready
  unfolding set_prior
  primed-ready = woken-ready Q c m t

  primed_room : Q.size (set_prior Q c woken t (cal_priority c w t)).ready_tasks < capacity
  unfolding set_prior set_state
  primed_room = room

  primed-NobodyWaits :
      NobodyWaits Q c woken → NobodyWaits Q c (set_prior Q c woken t (cal_priority c w t))
  unfolding set_prior
  primed-NobodyWaits h = h

  -- With the invariant and room in the queue, a new task that is not NULL goes to the first
  -- waiting worker, or into the queue if nobody waits.
  pub on_assign-Offered : m.state t ≡ created → Yields (Offered Q c false m t) (on_assign Q c w m t)
  unfolding on_assign
  on_assign-Offered e = rw e (
      Yields-map
        (serve-Offered Q c w woken t (λ r. enqueue Q c (set_prior Q c r t c.dbl_max) t)
          (woken-Inv (rw e)) (woken-ready Q c m t)
          λ h.
            enqueue_again-Offered Q c false woken t (cal_priority c w t) c.dbl_max
              (woken-Inv (rw e)) (woken-ready Q c m t) ne woken_room (inr h))
        λ r o. Offered-set_state Q c false m t ready o)

  -- a wake-up that comes before the task was returned is noted
  pub on_wakeup-early :
      is_returned (m.state t) ≡ false
      → on_wakeup Q c w m t ≡ ok (record m { wakenup = update m.wakenup t true })
  unfolding on_wakeup
  on_wakeup-early e = rw e

  -- a blocked task that was returned is withheld if its priority is the lowest double, and goes to
  -- a waiting worker or into the queue if not
  pub on_wakeup-Offered :
      m.state t ≡ returned
      → Yields
          (Offered Q c (same_double Q c (cal_priority c w t) c.dbl_min) m t)
          (on_wakeup Q c w m t)
  unfolding on_wakeup
  on_wakeup-Offered e = rw e (elim (Bool-cases (same_double Q c (cal_priority c w t) c.dbl_min)) [
    | inl low ↦ rw low (
        Yields-map
          (enqueue-Offered Q c true woken t (cal_priority c w t) (woken-Inv (rw e))
            (rw (woken-ready Q c m t)) ne woken_room (inl refl))
          λ r o. Offered-set_state Q c true m t ready o)
    | inr high ↦ rw high (
        Yields-map
          (offer-Offered Q c w woken t (cal_priority c w t) (λ r. enqueue Q c r t)
            (woken-Inv (rw e)) (woken-ready Q c m t)
            λ h v'.
              enqueue-Offered Q c false (set_prior Q c woken t (cal_priority c w t)) t
                (cal_priority c w t) v' (rw primed-ready) ne primed_room
                (inr (primed-NobodyWaits h)))
          λ r o. Offered-set_state Q c false m t ready o)
  ])
