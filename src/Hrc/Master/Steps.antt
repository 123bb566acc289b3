-- ===== src/Hrc/Master/Steps.antt =====
-- Every message that can arrive is handled, and the invariant stays.
use my_lpel.Common.{
  ℕ, ◌<◌, ◌≡◌, ◌≢◌, refl, inl, inr, Bool, [], Bool-cases, Yields, yields, Yields-map, Double, Ptr,
  null,
}
use my_lpel.ReadyQueue.{ReadyQueue, capacity}
use my_lpel.Hrc.World.{created, ready, blocked, zombie, is_returned, returned_of, World}
use my_lpel.Hrc.Priority.{Settings}
use my_lpel.Hrc.Master.{
  Msg, terminate, wakeup, assign, request, return, Master, set_state, return_as, on_wakeup, handle,
}
use my_lpel.Hrc.Master.Invariant.{Inv}
use my_lpel.Hrc.Master.Offer.{Offered}
use my_lpel.Hrc.Master.Assign.{on_assign-Offered, on_wakeup-early, on_wakeup-Offered}
use my_lpel.Hrc.Master.Return.{
  return_ready-Offered, return_blocked-Rescued, return_blocked-Reordered, return_zombie-Destroyed,
}
use my_lpel.Hrc.Master.Request.{Answered, waits, gets, on_request-Answered}

module _ {D : Type 0} ⦃d : Double D⦄ (Q : ReadyQueue D) (c : Settings D) where
  -- the messages that can arrive, by the state of the task that they name
  pub data Legal (w : World) (m : Master Q c) : Msg → Type 0 where
    stop : Legal w m terminate
    wake : (t : Ptr) → t ≢ null → Legal w m (wakeup t)
    new : (t : Ptr) → t ≢ null → m.state t ≡ created → Legal w m (assign t)
    ask : (wid : ℕ) → wid < m.num_workers → Legal w m (request wid)
    blocks : (t : Ptr) → t ≢ null → m.state t ≡ blocked → Legal w m (return t)
    yields_back : (t : Ptr) → t ≢ null → m.state t ≡ ready → Legal w m (return t)
    ends :
        (t : Ptr)
        → m.state t ≡ zombie
        → w.in_streams t ≡ []
        → w.out_streams t ≡ []
        → Legal w m (return t)

  -- the invariant, and the messages that were sent are only added to
  pub record Stepped (m r : Master Q c) : Type 0 where
    pub inv : Inv Q c r
    pub num_workers : r.num_workers ≡ m.num_workers

  Offered-Stepped :
      (low : Bool) (m : Master Q c) (t : Ptr) (r : Master Q c) → Offered Q c low m t r → Stepped m r
  Offered-Stepped low m t r o = record { inv = o.inv; num_workers = o.num_workers }

  Answered-Stepped :
      (m : Master Q c) (wid : ℕ) (r : Master Q c) → Inv Q c m → Answered Q c m wid r → Stepped m r
  Answered-Stepped m wid r v (waits why e) = rw e (record {
    inv = record { valid = v.valid; queued = v.queued; null_out = v.null_out };
    num_workers = refl;
  })
  Answered-Stepped m wid r v
        (gets t best high inv sent waiting state size workers freed woken flag) =
      record { inv = inv; num_workers = workers }

  module _ (w : World) (m : Master Q c) (v : Inv Q c m)
      (room : Q.size m.ready_tasks < capacity) where
    wake_step : (t : Ptr) → t ≢ null → Yields (Stepped m) (on_wakeup Q c w m t)
    wake_step t ne = elim (Bool-cases (is_returned (m.state t))) [
      | inl e ↦
          Yields-map (on_wakeup-Offered Q c w m t v ne room (returned_of _ e))
            (Offered-Stepped _ m t)
      | inr e ↦ rw (on_wakeup-early Q c w m t v ne room e) (
          yields (record {
            inv = record { valid = v.valid; queued = v.queued; null_out = v.null_out };
            num_workers = refl;
          }))
    ]

    block_step :
        (t : Ptr)
        → t ≢ null
        → m.state t ≡ blocked
        → Yields (Stepped m) (return_as Q c w m t blocked)
    unfolding set_state
    block_step t ne e = elim (Bool-cases (m.wakenup t)) [
      | inl woken ↦
          Yields-map (return_blocked-Rescued Q c w m t v ne room woken e)
            λ r o. record { inv = o.inv; num_workers = o.num_workers }
      | inr asleep ↦
          Yields-map (return_blocked-Reordered Q c w m t v asleep e)
            λ r a. record { inv = a.inv; num_workers = a.num_workers }
    ]

    -- If the ready queue is in order, has room for one more task and holds exactly the tasks in
    -- state INQUEUE, each once, then each legal message (of a task that is not NULL and in a
    -- state that the sender leaves, or of a worker that exists) is handled without a fault, and
    -- the queue is again so.
    pub handle-Stepped : (msg : Msg) → Legal w m msg → Yields (Stepped m) (handle Q c w m msg)
    unfolding handle return_as
    handle-Stepped _ stop = yields (record {
      inv = record { valid = v.valid; queued = v.queued; null_out = v.null_out };
      num_workers = refl;
    })
    handle-Stepped _ (wake t ne) = wake_step t ne
    handle-Stepped _ (new t ne e) =
        Yields-map (on_assign-Offered Q c w m t v ne room e) (Offered-Stepped _ m t)
    handle-Stepped _ (ask wid p) =
        Yields-map (on_request-Answered Q c m wid v p) λ r. Answered-Stepped m wid r v
    handle-Stepped _ (blocks t ne e) = rw e (block_step t ne e)
    handle-Stepped _ (yields_back t ne e) =
        rw e (Yields-map (return_ready-Offered Q c w m t v ne room e) (Offered-Stepped _ m t))
    handle-Stepped _ (ends t e f g) = rw e (
        Yields-map (return_zombie-Destroyed Q c w m t v e f g)
          λ r o. record { inv = o.inv; num_workers = o.num_workers })
