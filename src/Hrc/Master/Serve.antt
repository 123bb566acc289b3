-- ===== src/Hrc/Master/Serve.antt =====
-- `servePendingReq`: the first waiting worker gets the task.
use my_lpel.Common.{
  ℕ, zero, suc, ◌+◌, ◌<◌, ◌≡◌, inl, inr, Bool, true, false, ◌∷◌, arith, ◌==◌, Bool-cases, ==-true,
  ltb-true, ok, Yields, yields, update, Double, Ptr,
}
use my_lpel.ReadyQueue.{ReadyQueue}
use my_lpel.Hrc.World.{is_ready, World}
use my_lpel.Hrc.Priority.{Settings, cal_priority}
use my_lpel.Hrc.Master.{Master, set_prior, send_task, serve_loop, serve_pending}

module _ {D : Type 0} ⦃d : Double D⦄ (Q : ReadyQueue D) (c : Settings D) where
  -- `i` is the first of the workers that wait
  pub record First (m : Master Q c) (i : ℕ) : Type 0 where
    pub inside : i < m.num_workers
    pub waits : m.waitworkers i ≡ true
    pub first : (j : ℕ) → j < i → m.waitworkers j ≡ false

  -- the task went to the first waiting worker, which no longer waits; or nobody waits
  pub data Served (m : Master Q c) (t : Ptr) : Bool × Master Q c → Type 0 where
    to_worker :
        (i : ℕ)
        → First m i
        → Served m t
            (true, record m { waitworkers = update m.waitworkers i false; sent = (i, t) ∷ m.sent })
    to_nobody : ((j : ℕ) → j < m.num_workers → m.waitworkers j ≡ false) → Served m t (false, m)

  send_task-ok :
      (m : Master Q c) (i : ℕ) (t : Ptr)
      → is_ready (m.state t) ≡ true
      → i < m.num_workers
      → send_task Q c m i t ≡ ok (record m { sent = (i, t) ∷ m.sent })
  unfolding send_task
  send_task-ok m i t r p = rw (r, ltb-true i m.num_workers p)

  serve_loop-Served :
      (k i : ℕ) (m : Master Q c) (t : Ptr)
      → i + k ≡ m.num_workers
      → is_ready (m.state t) ≡ true
      → ((j : ℕ) → j < i → m.waitworkers j ≡ false)
      → Yields (Served m t) (serve_loop Q c k i m t)
  unfolding serve_loop
  serve_loop-Served zero i m t e r before = yields (to_nobody λ j p. before j (omega arith))
  serve_loop-Served (suc k) i m t e r before = elim (Bool-cases (m.waitworkers i)) [
    | inl waits ↦
        rw
          (
            waits,
            send_task-ok (record m { waitworkers = update m.waitworkers i false }) i t r
                (omega arith),
          )
          (yields (to_worker i (record { inside = omega arith; waits = waits; first = before })))
    | inr busy ↦ rw busy (
        serve_loop-Served k (i + 1) m t (omega arith) r λ j p. elim (Bool-cases (j == i)) [
          | inl here ↦ rw (==-true j i here) busy
          | inr other ↦ before j (ground arith)
        ])
  ]

  pub serve_pending-Served :
      (w : World) (m : Master Q c) (t : Ptr)
      → is_ready (m.state t) ≡ true
      → Yields (Served (set_prior Q c m t (cal_priority c w t)) t) (serve_pending Q c w m t)
  unfolding serve_pending set_prior
  serve_pending-Served w m t r =
      serve_loop-Served m.num_workers 0 (set_prior Q c m t (cal_priority c w t)) t (omega arith) r
        λ j p. absurd (omega arith)
