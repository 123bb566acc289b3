-- ===== src/Hrc/Master/Busy.antt =====
-- No worker waits while a task could run.
use my_lpel.Common.{
  ℕ, ◌<◌, ◌≡◌, ◌≢◌, sym, ap, ◌∙◌, inl, inr, true, false, arith, Bool-cases, Yields, yields,
  Yields-map, update, Double, Ptr, null,
}
use my_lpel.ReadyQueue.{ReadyQueue, capacity}
use my_lpel.Hrc.World.{blocked, is_returned, returned_of, World}
use my_lpel.Hrc.Priority.{Settings, cal_priority}
use my_lpel.Hrc.Master.{Msg, Master, set_state, same_double, return_as, on_wakeup, handle}
use my_lpel.Hrc.Master.Invariant.{Inv}
use my_lpel.Hrc.Master.Offer.{Placed, given, kept, Offered}
use my_lpel.Hrc.Master.Assign.{on_assign-Offered, on_wakeup-early, on_wakeup-Offered}
use my_lpel.Hrc.Master.Return.{
  return_ready-Offered, return_blocked-Rescued, return_blocked-Reordered, return_zombie-Destroyed,
}
use my_lpel.Hrc.Master.Request.{Answered, waits, gets, on_request-Answered}
use my_lpel.Hrc.Master.Steps.{Legal, stop, wake, new, ask, blocks, yields_back, ends}

module _ {D : Type 0} ⦃d : Double D⦄ (Q : ReadyQueue D) (c : Settings D) where
  -- a worker waits only if no task is queued
  abbrev pub IsBusy : Master Q c → Type 0
  IsBusy m = (i : ℕ) → i < m.num_workers → m.waitworkers i ≡ true → Q.size m.ready_tasks ≡ 0

  IsBusy-same :
      (m r : Master Q c)
      → IsBusy m
      → r.num_workers ≡ m.num_workers
      → r.waitworkers ≡ m.waitworkers
      → Q.size r.ready_tasks ≡ Q.size m.ready_tasks
      → IsBusy r
  IsBusy-same m r b n waiting size i p h = size ∙ b i (rw n at p) (ap (λ f. f i) (sym waiting) ∙ h)

  Placed-IsBusy :
      (m : Master Q c) (t : Ptr) (r : Master Q c)
      → IsBusy m
      → r.num_workers ≡ m.num_workers
      → Placed Q c false m t r
      → IsBusy r
  Placed-IsBusy m t r b n (given k low f sent waiting state size) i p h =
      let before : update m.waitworkers k false i ≡ true = ap (λ g. g i) (sym waiting) ∙ h in
      size ∙ b i (rw n at p) (ground arith)
  Placed-IsBusy m t r b n (kept (inl low) sent waiting state size) i p h = absurd (ground arith)
  Placed-IsBusy m t r b n (kept (inr nobody) sent waiting state size) i p h =
      let before : m.waitworkers i ≡ true = ap (λ g. g i) (sym waiting) ∙ h in
      absurd (ground (arith, nobody i (rw n at p)))

  module _ (w : World) (m : Master Q c) (v : Inv Q c m) (room : Q.size m.ready_tasks < capacity)
      (b : IsBusy m) (fit : (t : Ptr) → same_double Q c (cal_priority c w t) c.dbl_min ≡ false)
      (fit_queued : (t : Ptr)
        → 0 < Q.holds m.ready_tasks t
        → same_double Q c (m.prior t) c.dbl_min ≡ false) where
    Offered-IsBusy :
        (t : Ptr) (r : Master Q c)
        → Offered Q c (same_double Q c (cal_priority c w t) c.dbl_min) m t r
        → IsBusy r
    Offered-IsBusy t r o = Placed-IsBusy m t r b o.num_workers (rw (fit t) at o.place)

    Answered-IsBusy : (wid : ℕ) (r : Master Q c) → Answered Q c m wid r → IsBusy r
    Answered-IsBusy wid r (waits (inl e) f) = rw f λ i p h. e
    Answered-IsBusy wid r (waits (inr (t, best, low)) f) =
        absurd (ground (arith, fit_queued t best.held))
    Answered-IsBusy wid r (gets t best high inv sent waiting state size n freed woken flag) =
        λ i p h.
          let before : m.waitworkers i ≡ true = ap (λ g. g i) (sym waiting) ∙ h in
          absurd (omega (arith, b i (rw n at p) before))

    wake-IsBusy : (t : Ptr) → t ≢ null → Yields IsBusy (on_wakeup Q c w m t)
    wake-IsBusy t ne = elim (Bool-cases (is_returned (m.state t))) [
      | inl e ↦
          Yields-map (on_wakeup-Offered Q c w m t v ne room (returned_of _ e)) (Offered-IsBusy t)
      | inr e ↦ rw (on_wakeup-early Q c w m t v ne room e) (yields b)
    ]

    block-IsBusy :
        (t : Ptr) → t ≢ null → m.state t ≡ blocked → Yields IsBusy (return_as Q c w m t blocked)
    unfolding set_state
    block-IsBusy t ne e = elim (Bool-cases (m.wakenup t)) [
      | inl woken ↦
          Yields-map (return_blocked-Rescued Q c w m t v ne room woken e)
            λ r o. Placed-IsBusy m t r b o.num_workers (rw (fit t) at o.place)
      | inr asleep ↦
          Yields-map (return_blocked-Reordered Q c w m t v asleep e)
            λ r a. IsBusy-same m r b a.num_workers a.waitworkers a.size
    ]

    -- With the invariant and room in the queue, if no worker waits while a task is queued, and
    -- neither the priority of a queued task nor the newly computed one of any task equals the
    -- lowest double, then after any legal message is handled again no worker waits while a task
    -- is queued.
    pub handle-IsBusy : (msg : Msg) → Legal Q c w m msg → Yields IsBusy (handle Q c w m msg)
    unfolding handle return_as
    handle-IsBusy _ stop = yields b
    handle-IsBusy _ (wake t ne) = wake-IsBusy t ne
    handle-IsBusy _ (new t ne e) =
        Yields-map (on_assign-Offered Q c w m t v ne room e)
          λ r o. Placed-IsBusy m t r b o.num_workers o.place
    handle-IsBusy _ (ask wid p) =
        Yields-map (on_request-Answered Q c m wid v p) (Answered-IsBusy wid)
    handle-IsBusy _ (blocks t ne e) = rw e (block-IsBusy t ne e)
    handle-IsBusy _ (yields_back t ne e) =
        rw e (Yields-map (return_ready-Offered Q c w m t v ne room e) (Offered-IsBusy t))
    handle-IsBusy _ (ends t e f g) = rw e (
        Yields-map (return_zombie-Destroyed Q c w m t v e f g)
          λ r o. IsBusy-same m r b o.num_workers o.waitworkers o.size)
