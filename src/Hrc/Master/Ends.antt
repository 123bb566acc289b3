-- ===== src/Hrc/Master/Ends.antt =====
-- The master is told to end by a message only.
use my_lpel.Common.{
  ℕ, ◌<◌, ◌≡◌, ◌≢◌, refl, inl, inr, Bool, true, false, ◌||◌, Bool-cases, Yields, yields, Yields-map,
  Double, Ptr, null,
}
use my_lpel.ReadyQueue.{ReadyQueue, capacity}
use my_lpel.Hrc.World.{blocked, is_returned, returned_of, World}
use my_lpel.Hrc.Priority.{Settings}
use my_lpel.Hrc.Master.{Msg, Master, set_state, return_as, on_wakeup, handle}
use my_lpel.Hrc.Master.Invariant.{Inv}
use my_lpel.Hrc.Master.Assign.{on_assign-Offered, on_wakeup-early, on_wakeup-Offered}
use my_lpel.Hrc.Master.Return.{
  return_ready-Offered, return_blocked-Rescued, return_blocked-Reordered, return_zombie-Destroyed,
}
use my_lpel.Hrc.Master.Request.{Answered, waits, gets, on_request-Answered}
use my_lpel.Hrc.Master.Steps.{Legal, stop, wake, new, ask, blocks, yields_back, ends}

-- a message to end
abbrev pub stops : Msg → Bool
stops Msg.terminate = true
stops _ = false

module _ {D : Type 0} ⦃d : Double D⦄ (Q : ReadyQueue D) (c : Settings D) (w : World)
    (m : Master Q c) (v : Inv Q c m) (room : Q.size m.ready_tasks < capacity) where
  abbrev Same : Master Q c → Type 0
  Same r = r.terminate ≡ m.terminate

  wake-Same : (t : Ptr) → t ≢ null → Yields Same (on_wakeup Q c w m t)
  wake-Same t ne = elim (Bool-cases (is_returned (m.state t))) [
    | inl e ↦
        Yields-map (on_wakeup-Offered Q c w m t v ne room (returned_of _ e)) λ r o. o.terminate
    | inr e ↦ rw (on_wakeup-early Q c w m t v ne room e) (yields refl)
  ]

  block-Same :
      (t : Ptr) → t ≢ null → m.state t ≡ blocked → Yields Same (return_as Q c w m t blocked)
  unfolding set_state
  block-Same t ne e = elim (Bool-cases (m.wakenup t)) [
    | inl woken ↦ Yields-map (return_blocked-Rescued Q c w m t v ne room woken e) λ r o. o.terminate
    | inr asleep ↦ Yields-map (return_blocked-Reordered Q c w m t v asleep e) λ r a. a.terminate
  ]

  answer-Same : {wid : ℕ} {r : Master Q c} → Answered Q c m wid r → Same r
  answer-Same (waits why e) = rw e refl
  answer-Same (gets t best high inv sent waiting state size n freed woken flag) = flag

  pub handle-terminate :
      (msg : Msg)
      → Legal Q c w m msg
      → Yields (λ r. r.terminate ≡ (stops msg || m.terminate)) (handle Q c w m msg)
  unfolding handle return_as
  handle-terminate _ stop = yields refl
  handle-terminate _ (wake t ne) = wake-Same t ne
  handle-terminate _ (new t ne e) =
      Yields-map (on_assign-Offered Q c w m t v ne room e) λ r o. o.terminate
  handle-terminate _ (ask wid p) =
      Yields-map (on_request-Answered Q c m wid v p) λ r a. answer-Same a
  handle-terminate _ (blocks t ne e) = rw e (block-Same t ne e)
  handle-terminate _ (yields_back t ne e) =
      rw e (Yields-map (return_ready-Offered Q c w m t v ne room e) λ r o. o.terminate)
  handle-terminate _ (ends t e f g) =
      rw e (Yields-map (return_zombie-Destroyed Q c w m t v e f g) λ r o. o.terminate)
