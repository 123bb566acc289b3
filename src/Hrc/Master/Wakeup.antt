-- ===== src/Hrc/Master/Wakeup.antt =====
-- A wake-up is not lost, whether it comes before or after the return of the task.
use my_lpel.Common.{
  ℕ, ◌<◌, ◌≡◌, ◌≢◌, refl, ap, ◌∙◌, Bool, true, false, ◌∷◌, ==-refl, ◌>>=◌, Yields, Yields-bind,
  Yields-map, update, Double, Ptr, null,
}
use my_lpel.ReadyQueue.{ReadyQueue, capacity}
use my_lpel.Hrc.World.{ready, blocked, inqueue, returned, World}
use my_lpel.Hrc.Priority.{Settings}
use my_lpel.Hrc.Master.{wakeup, return, Master, set_state, handle}
use my_lpel.Hrc.Master.Invariant.{Inv}
use my_lpel.Hrc.Master.Offer.{Placed, given, kept}
use my_lpel.Hrc.Master.Assign.{on_wakeup-early, on_wakeup-Offered}
use my_lpel.Hrc.Master.Return.{return_blocked-Rescued, return_blocked-Reordered}

module _ {D : Type 0} ⦃d : Double D⦄ (Q : ReadyQueue D) (c : Settings D) where
  -- the task was sent to one worker, or is queued once
  pub data Runnable (m : Master Q c) (t : Ptr) (r : Master Q c) : Type 0 where
    sent_on : (i : ℕ) → r.state t ≡ ready → r.sent ≡ (i, t) ∷ m.sent → Runnable m t r
    in_queue : r.state t ≡ inqueue → Q.holds r.ready_tasks t ≡ 1 → r.sent ≡ m.sent → Runnable m t r

  pub record Woken (m : Master Q c) (t : Ptr) (r : Master Q c) : Type 0 where
    pub inv : Inv Q c r
    pub unmarked : r.wakenup t ≡ false
    pub runnable : Runnable m t r

  Placed-Runnable :
      (low : Bool) (m : Master Q c) (t : Ptr) (r : Master Q c)
      → Inv Q c r
      → Placed Q c low m t r
      → Runnable m t r
  Placed-Runnable low m t r v (given i l f sent waiting state size) =
      sent_on i (state t ∙ rw (==-refl t)) sent
  Placed-Runnable low m t r v (kept why sent waiting state size) =
      let e : r.state t ≡ inqueue = state t ∙ rw (==-refl t) in in_queue e (v.queued t ∙ rw e) sent

  Runnable-from :
      (m u : Master Q c) (t : Ptr) (r : Master Q c)
      → u.sent ≡ m.sent
      → Runnable u t r
      → Runnable m t r
  Runnable-from m u t r e (sent_on i f g) = sent_on i f (g ∙ ap (◌∷◌ (i, t)) e)
  Runnable-from m u t r e (in_queue f g h) = in_queue f g (h ∙ e)

  module _ (w w' : World) (m : Master Q c) (t : Ptr) (v : Inv Q c m) (ne : t ≢ null)
      (room : Q.size m.ready_tasks < capacity) (e : m.state t ≡ blocked)
      (asleep : m.wakenup t ≡ false) where
    return_first :
        Yields (Woken m t) (handle Q c w m (return t) >>= λ r. handle Q c w' r (wakeup t))
    unfolding handle set_state
    return_first = rw e (
        Yields-bind (return_blocked-Reordered Q c w m t v asleep e) λ u a.
          let state : u.state t ≡ returned = ap (λ f. f t) a.state ∙ rw (==-refl t) in
          Yields-map (on_wakeup-Offered Q c w' u t a.inv ne (rw a.size room) state) λ r o. record {
            inv = o.inv;
            unmarked = ap (λ f. f t) (o.wakenup ∙ a.wakenup) ∙ asleep;
            runnable = Runnable-from m u t r a.sent (Placed-Runnable _ u t r o.inv o.place);
          })

    wakeup_first :
        Yields (Woken m t) (handle Q c w m (wakeup t) >>= λ r. handle Q c w' r (return t))
    unfolding handle
    wakeup_first =
        let u : Master Q c = record m { wakenup = update m.wakenup t true } in
        let v' : Inv Q c u = record { valid = v.valid; queued = v.queued; null_out = v.null_out } in
        rw (on_wakeup-early Q c w m t v ne room (rw e), e)
          (Yields-map (return_blocked-Rescued Q c w' u t v' ne room (rw (==-refl t)) e) λ r o.
            record {
              inv = o.inv;
              unmarked = ap (λ f. f t) o.wakenup ∙ rw (==-refl t);
              runnable = Runnable-from m u t r refl (Placed-Runnable _ u t r o.inv o.place);
            })

    -- In a master whose invariant holds and whose queue has room, a blocked task without wake-up
    -- mark, whose return and wake-up are handled in either order, ends up sent to one worker or
    -- queued once, with no wake-up mark.
    pub wakeup_not_lost :
        Yields (Woken m t) (handle Q c w m (return t) >>= λ r. handle Q c w' r (wakeup t))
        × Yields (Woken m t) (handle Q c w m (wakeup t) >>= λ r. handle Q c w' r (return t))
    wakeup_not_lost = (return_first, wakeup_first)
