-- ===== src/Hrc/Master/Request.antt =====
-- WORKER_MSG_REQUEST.
use my_lpel.Common.{
  ℕ, ◌+◌, ◌≤◌, ◌<◌, ◌≡◌, ◌≢◌, refl, inl, inr, ◌⊎◌, true, false, ◌∷◌, arith, ◌==◌, Bool-cases,
  ==-true, ==-refl, ==-ne, ltb-true, ok, ◌>>=◌, Yields, yields, Yields-bind, Yields-open, update,
  Double, Ptr, null,
}
use my_lpel.ReadyQueue.{ReadyQueue}
use my_lpel.Hrc.World.{ready}
use my_lpel.Hrc.Priority.{Settings}
use my_lpel.Hrc.Master.{Master, set_state, send_task, same_double, keep_waiting, on_request}
use my_lpel.Hrc.Master.Invariant.{Inv}

module _ {D : Type 0} ⦃d : Double D⦄ (Q : ReadyQueue D) (c : Settings D) (m : Master Q c)
    (wid : ℕ) where
  -- a queued task with the highest priority of all that are queued
  pub record Best (t : Ptr) : Type 0 where
    pub held : 0 < Q.holds m.ready_tasks t
    pub highest : (x : Ptr) → 0 < Q.holds m.ready_tasks x → d.rank (m.prior x) ≤ d.rank (m.prior t)

  -- the worker has to wait, since no task is queued or the best one is withheld; or it gets the best
  pub data Answered (r : Master Q c) : Type 0 where
    waits :
        (Q.size m.ready_tasks ≡ 0)
          ⊎ ((t : Ptr) × Best t × (same_double Q c (m.prior t) c.dbl_min ≡ true))
        → r ≡ record m { waitworkers = update m.waitworkers wid true }
        → Answered r
    gets :
        (t : Ptr)
        → Best t
        → same_double Q c (m.prior t) c.dbl_min ≡ false
        → Inv Q c r
        → r.sent ≡ (wid, t) ∷ m.sent
        → r.waitworkers ≡ m.waitworkers
        → ((x : Ptr) → r.state x ≡ update m.state t ready x)
        → Q.size m.ready_tasks ≡ Q.size r.ready_tasks + 1
        → r.num_workers ≡ m.num_workers
        → r.destroyed ≡ m.destroyed
        → r.wakenup ≡ m.wakenup
        → r.terminate ≡ m.terminate
        → Answered r

  module _ (v : Inv Q c m) (inside : wid < m.num_workers) where
    keep_waiting-ok :
        keep_waiting Q c m wid ≡ ok (record m { waitworkers = update m.waitworkers wid true })
    unfolding keep_waiting
    keep_waiting-ok = rw (ltb-true wid m.num_workers inside)

    head_ne_null : (t : Ptr) → 0 < Q.holds m.ready_tasks t → t ≢ null
    head_ne_null t held e = ground (arith, v.queued t, v.null_out)

    on_request-empty : Q.size m.ready_tasks ≡ 0 → Yields Answered (on_request Q c m wid)
    unfolding on_request
    on_request-empty e =
        rw (Q.peek_empty m.prior m.ready_tasks v.valid e, keep_waiting-ok)
          (yields (waits (inl e) refl))

    give-Answered :
        (t : Ptr)
        → Q.peek m.ready_tasks ≡ ok t
        → Best t
        → same_double Q c (m.prior t) c.dbl_min ≡ false
        → 0 < Q.size m.ready_tasks
        → Yields Answered (
            send_task Q c (set_state Q c m t ready) wid t >>= λ r.
            Q.pop r.prior r.ready_tasks >>= λ (u, q). ok (record r { ready_tasks = q }))
    unfolding send_task set_state
    give-Answered t seen best high filled =
        rw (==-refl t, ltb-true wid m.num_workers inside)
          (Yields-bind (Q.pop_takes m.prior m.ready_tasks v.valid filled)
            λ (u, q) (seen', valid, shrunk, taken).
              let same : u ≡ t = cc in
              yields (
                gets t best high
                  (record {
                    valid = valid;
                    queued = λ x. ground (arith, same, taken x, v.queued x, v.queued t);
                    null_out = ground (arith, v.null_out);
                  })
                  refl refl (λ x. refl) shrunk refl refl refl refl))

    on_request-filled : 0 < Q.size m.ready_tasks → Yields Answered (on_request Q c m wid)
    unfolding on_request
    on_request-filled h =
        let (t, seen, (held, highest)) =
          Yields-open (Q.peek_highest m.prior m.ready_tasks v.valid h) in
        let best : Best t = record { held = held; highest = highest } in
        let something : (t == null) ≡ false = ==-ne t null (λ e. head_ne_null t held e) in
        rw (seen, something)
          (elim (Bool-cases (same_double Q c (m.prior t) c.dbl_min)) [
            | inl low ↦ rw (low, keep_waiting-ok) (yields (waits (inr (t, best, low)) refl))
            | inr high ↦ rw high (give-Answered t seen best high h)
          ])

    -- With the invariant, a worker that exists and asks gets a queued task of the highest
    -- priority, or is noted as waiting when none is queued or the best is withheld.
    pub on_request-Answered : Yields Answered (on_request Q c m wid)
    on_request-Answered = elim (Bool-cases (Q.size m.ready_tasks == 0)) [
      | inl e ↦ on_request-empty (==-true _ 0 e)
      | inr ne ↦ on_request-filled (ground arith)
    ]
