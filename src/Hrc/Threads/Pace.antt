-- ===== src/Hrc/Threads/Pace.antt =====
-- `LpelTaskCheckYield`: how many records a task processes before it yields.
use my_lpel.Common.{
  ℕ, ◌+◌, ◌-◌, ◌^◌, ◌≤◌, ◌<◌, ◌≡◌, ◌≢◌, refl, inl, inr, Bool, true, false, [], ◌∷◌, ◌++◌, arith,
  ◌==◌, ltb-true, Bool-cases, ==-refl, ==-ne, ==-true, ==-false, Yields, yields, Double, Ptr, null,
}
use my_lpel.Common.Int.{ℤ, pos, negsuc, eqb_ℤ}
use my_lpel.ReadyQueue.{ReadyQueue}
use my_lpel.Hrc.World.{ready, running}
use my_lpel.Hrc.Priority.{Settings}
use my_lpel.Hrc.Master.{request, set_state}
use my_lpel.Hrc.Threads.{
  Shared, set_task, set_context, set_current, to_master, request_task, context_of,
  worker_task_yield, count_record, check_yield, checked_yield, task_start, is_negative,
}

module _ {D : Type 0} ⦃d : Double D⦄ (Q : ReadyQueue D) (c : Settings D) (s : Shared Q c)
    (t : Ptr) where
  -- The task goes on, with no limit or with one more record counted; or it has used up its limit, is
  -- READY, and worker `i`, on which it ran, has asked for another task.
  pub data Checked (i : ℕ) : Bool × Shared Q c → Type 0 where
    unlimited : is_negative (s.limits t).rec_limit ≡ true → Checked i (false, s)
    counted :
        {r : Shared Q c}
        → (l : ℕ) → (s.limits t).rec_limit ≡ pos l
        → (s.limits t).rec_cnt < l
        → (r.limits t).rec_cnt ≡ (s.limits t).rec_cnt + 1
        → (r.limits t).rec_limit ≡ pos l
        → r.master ≡ s.master
        → Checked i (false, r)
    leaves :
        {r : Shared Q c}
        → (s.limits t).rec_limit ≡ pos (s.limits t).rec_cnt
        → r.master.state t ≡ ready
        → r.mastermb ≡ s.mastermb ++ (request i ∷ [])
        → r.limits ≡ s.limits
        → Checked i (true, r)

  -- the task runs on worker `i`, and has counted no more than its limit, if it has one
  pub record IsPaced (i : ℕ) : Type 0 where
    pub runs : s.master.state t ≡ running
    pub hosted : s.worker_context t ≢ null
    pub wid : (s.context (s.worker_context t)).wid ≡ pos i
    pub within : (l : ℕ) → (s.limits t).rec_limit ≡ pos l → (s.limits t).rec_cnt ≤ l
    pub small : (l : ℕ) → (s.limits t).rec_limit ≡ pos l → l < 2 ^ 31

  eqb-pos : (a b : ℕ) → eqb_ℤ (pos a) (pos b) ≡ (a == b)
  eqb-pos a b = ground arith

  yields_now :
      (i : ℕ)
      → IsPaced i
      → (l : ℕ) → (s.limits t).rec_limit ≡ pos l
      → (s.limits t).rec_cnt ≡ l
      → Yields (Checked i) (check_yield Q c s t)
  unfolding check_yield worker_task_yield context_of set_task set_state set_current set_context
      request_task to_master
  yields_now i v l limit full =
      rw
        (
          v.runs,
          limit,
          eqb-pos (s.limits t).rec_cnt l,
          full,
          ==-refl l,
          ==-ne _ null v.hosted,
          v.wid,
        )
        (yields (leaves (rw full limit) (rw (==-refl t) refl) refl refl))

  counts_now :
      (i : ℕ)
      → IsPaced i
      → (l : ℕ) → (s.limits t).rec_limit ≡ pos l
      → (s.limits t).rec_cnt ≢ l
      → Yields (Checked i) (check_yield Q c s t)
  unfolding check_yield count_record
  counts_now i v l limit ne =
      let less : (s.limits t).rec_cnt < l = ground (arith, v.within l limit, ne) in
      rw
        (
          v.runs,
          limit,
          eqb-pos (s.limits t).rec_cnt l,
          ==-ne _ l ne,
          ltb-true (s.limits t).rec_cnt (2 ^ 31 - 1) (omega (arith, less, v.small l limit)),
        )
        (yields (counted l limit less (rw (==-refl t) refl) (rw (==-refl t) refl) refl))

  check_yield-limit :
      (i : ℕ)
      → IsPaced i
      → (z : ℤ) → (s.limits t).rec_limit ≡ z
      → Yields (Checked i) (check_yield Q c s t)
  unfolding check_yield
  check_yield-limit i v (negsuc k) limit = rw (v.runs, limit) (yields (unlimited (rw limit refl)))
  check_yield-limit i v (pos l) limit = elim (Bool-cases ((s.limits t).rec_cnt == l)) [
    | inl full ↦ yields_now i v l limit (==-true _ l full)
    | inr less ↦ counts_now i v l limit (==-false _ l less)
  ]

  -- A running task of a worker that has counted no more records than its limit, if it has one,
  -- goes on uncounted without a limit, counts one more record while that does not exceed the
  -- limit, and otherwise is READY after its worker has asked for another task.
  pub check_yield-Checked : (i : ℕ) → IsPaced i → Yields (Checked i) (check_yield Q c s t)
  check_yield-Checked i v = check_yield-limit i v (s.limits t).rec_limit refl

  -- back on a worker, the record that is processed next is the first to be counted
  pub checked_yield-restart :
      s.master.state t ≡ ready
      → Yields
          (λ r.
            (r.master.state t ≡ running)
            × ((r.limits t).rec_cnt ≡ 1)
            × ((r.limits t).rec_limit ≡ (s.limits t).rec_limit))
          (checked_yield Q c s t)
  unfolding checked_yield task_start count_record set_task set_state
  checked_yield-restart now =
      rw (now, ==-refl t) (yields (rw (==-refl t) refl, rw (==-refl t) refl, rw (==-refl t) refl))
