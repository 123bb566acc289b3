-- ===== src/Hrc/Master.antt =====
-- sched/hierarchy/hrc_worker_op.c: the master, which hands ready tasks to the workers that ask for
-- one. The streams are written by the tasks, so a handler is given them as they are when it runs.
pub mod Invariant
pub mod Serve
pub mod Neighbours
pub mod Offer
pub mod Assign
pub mod Return
pub mod Request
pub mod Steps
pub mod Wakeup
pub mod Loop
pub mod Busy
pub mod Ends
mod Tests
use my_lpel.Common.{
  ℕ, zero, suc, ◌+◌, ◌-◌, ◌*◌, ◌/◌, ◌%◌, ◌^◌, ◌≤◌, ◌<◌, ◌≡◌, ◌≢◌, ◌↔◌, refl, sym, ap, ◌∙◌, inl, inr,
  ◌⊎◌, Bool, true, false, not, ◌&&◌, ◌||◌, Option, none, some, List, [], ◌∷◌, ◌++◌, map, arith, ltb,
  leb, ◌==◌, if◌then◌else◌, Bool-cases, ==-true, ==-false, ==-refl, ==-ne, ltb-true, ltb-false, Res,
  ok, fault, Fault, segv, assertion, overflow, fuel, ◌>>=◌, ◌>>◌, assert, Yields, yields,
  Yields-bind, Yields-map, Yields-open, Yields-of, hit, update, update_self, occurs, occurs-suc,
  occurs-at, occurs-twice, occurs-update, occurs-update_above, occurs-index, Double, Ptr, null,
}
use my_lpel.ReadyQueue.{ReadyQueue}
use my_lpel.Hrc.World.{
  TaskState, created, ready, blocked, zombie, inqueue, returned, running, mutex, is_inqueue,
  is_ready, is_created, is_returned, is_zombie, is_empty, World,
}
use my_lpel.Hrc.Priority.{Side, input, output, neighbour, Settings, cal_priority}

-- `workermsg_t`
pub data Msg : Type 0 where
  terminate : Msg
  wakeup : Ptr → Msg
  assign : Ptr → Msg
  request : ℕ → Msg
  return : Ptr → Msg

-- A message, with what the tasks have written when the master handles it: the streams, and states.
pub record Event : Type 0 where
  pub world : World
  pub writes : List (Ptr × TaskState)
  pub msg : Msg

module _ {D : Type 0} ⦃d : Double D⦄ (Q : ReadyQueue D) (c : Settings D) where
  -- `masterctx_t` and the fields of the tasks that the master writes. `sent` is what was sent to
  -- the workers' mailboxes, the last first; `destroyed` are the tasks that were freed.
  pub record Master : Type 0 where
    pub ready_tasks : Q.Queue
    pub waitworkers : ℕ → Bool
    pub num_workers : ℕ
    pub terminate : Bool
    pub state : Ptr → TaskState
    pub wakenup : Ptr → Bool
    pub prior : Ptr → D
    pub sent : List (ℕ × Ptr)
    pub destroyed : List Ptr

  -- equality of doubles other than NaN
  abbrev pub same_double : D → D → Bool
  same_double x y = not (d.lt x y) && not (d.lt y x)

  unfoldable pub set_state : Master → Ptr → TaskState → Master
  set_state m t s = record m { state = update m.state t s }

  unfoldable pub set_prior : Master → Ptr → D → Master
  set_prior m t p = record m { prior = update m.prior t p }

  -- `sendTask`
  unfoldable pub send_task : Master → ℕ → Ptr → Res Master
  send_task m wid t = do
    assert (is_ready (m.state t))
    if ltb wid m.num_workers then ok (record m { sent = (wid, t) ∷ m.sent }) else fault segv

  -- the loop of `servePendingReq` from worker `i` on, for `k` workers; `false` for its -1
  unfoldable pub serve_loop : ℕ → ℕ → Master → Ptr → Res (Bool × Master)
  serve_loop zero i m t = ok (false, m)
  serve_loop (suc k) i m t =
      let next = serve_loop k (i + 1) m t in
      let serve : Res (Bool × Master) = do
        r ← send_task (record m { waitworkers = update m.waitworkers i false }) i t
        ok (true, r)
      in if m.waitworkers i then serve else next

  -- `servePendingReq`
  unfoldable pub serve_pending : World → Master → Ptr → Res (Bool × Master)
  serve_pending w m t = serve_loop m.num_workers 0 (set_prior m t (cal_priority c w t)) t

  -- `LpelTaskqueuePush`, with the change of state before it
  unfoldable pub enqueue : Master → Ptr → Res Master
  enqueue m t = do
    q ← Q.push m.prior m.ready_tasks t
    ok (record m { state = update m.state t inqueue; ready_tasks = q })

  -- one round of `updatePriorityList`
  unfoldable pub update_task : World → Master → Ptr → Res Master
  update_task w m t =
      let move : Res Master = do
        (prior, q) ← Q.update_priority m.prior m.ready_tasks t (cal_priority c w t)
        ok (record m { prior = prior; ready_tasks = q })
      in if not (t == null) && is_inqueue (m.state t) then move else ok m

  -- `updatePriorityList`
  unfoldable pub update_list : World → Side → List Ptr → Master → Res Master
  update_list w side [] m = ok m
  update_list w side (x ∷ list) m = update_task w m (neighbour w side x) >>= update_list w side list

  -- `updatePriorityNeigh`
  unfoldable pub update_neigh : World → Master → Ptr → Res Master
  update_neigh w m t =
      update_list w input (w.in_streams t) m >>= update_list w output (w.out_streams t)

  -- WORKER_MSG_ASSIGN
  unfoldable pub on_assign : World → Master → Ptr → Res Master
  on_assign w m t = do
    assert (is_created (m.state t))
    (served, r) ← serve_pending w (set_state m t ready) t
    if served then ok r else enqueue (set_prior r t c.dbl_max) t

  -- WORKER_MSG_RETURN of a task that can run
  unfoldable pub return_ready : World → Master → Ptr → Res Master
  return_ready w m t =
      let offer : Res Master = do
        (served, r) ← serve_pending w (set_prior m t (cal_priority c w t)) t
        let requeue : Res Master = do
          u ← update_neigh w r t
          enqueue (set_prior u t (cal_priority c w t)) t
        if served then ok r else requeue
      in if same_double (cal_priority c w t) c.dbl_min
        then enqueue (set_prior m t (cal_priority c w t)) t
        else offer

  -- `LpelTaskDestroy`
  unfoldable pub destroy : World → Master → Ptr → Res Master
  destroy w m t = do
    assert (is_zombie (m.state t))
    assert (is_empty (w.in_streams t))
    assert (is_empty (w.out_streams t))
    ok (record m { destroyed = t ∷ m.destroyed })

  -- WORKER_MSG_RETURN, by the state of the task
  unfoldable pub return_as : World → Master → Ptr → TaskState → Res Master
  return_as w m t TaskState.blocked =
      if m.wakenup t
      then return_ready w
          (record m { wakenup = update m.wakenup t false; state = update m.state t ready }) t
      else update_neigh w (set_state m t returned) t
  return_as w m t TaskState.ready = return_ready w m t
  return_as w m t TaskState.zombie = do r ← update_neigh w m t; destroy w r t
  return_as w m t _ = fault assertion

  -- WORKER_MSG_WAKEUP
  unfoldable pub on_wakeup : World → Master → Ptr → Res Master
  on_wakeup w m t =
      let woken = set_state m t ready in
      let offer : Res Master = do
        (served, r) ← serve_pending w (set_prior woken t (cal_priority c w t)) t
        if served then ok r else enqueue r t
      in if not (is_returned (m.state t))
        then ok (record m { wakenup = update m.wakenup t true })
        else if same_double (cal_priority c w t) c.dbl_min
        then enqueue (set_prior woken t (cal_priority c w t)) t
        else offer

  -- `waitworkers[wid] = 1`
  unfoldable pub keep_waiting : Master → ℕ → Res Master
  keep_waiting m wid =
      if ltb wid m.num_workers
      then ok (record m { waitworkers = update m.waitworkers wid true })
      else fault segv

  -- WORKER_MSG_REQUEST
  unfoldable pub on_request : Master → ℕ → Res Master
  on_request m wid = do
    t ← Q.peek m.ready_tasks
    let give : Res Master = do
      r ← send_task (set_state m t ready) wid t
      (u, q) ← Q.pop r.prior r.ready_tasks
      ok (record r { ready_tasks = q })
    if t == null
        then keep_waiting m wid
        else if same_double (m.prior t) c.dbl_min
        then keep_waiting m wid
        else give

  -- the `switch` of `MasterLoop`
  unfoldable pub handle : World → Master → Msg → Res Master
  handle w m terminate = ok (record m { terminate = true })
  handle w m (wakeup t) = on_wakeup w m t
  handle w m (assign t) = on_assign w m t
  handle w m (request wid) = on_request m wid
  handle w m (return t) = return_as w m t (m.state t)

  -- the states that tasks have written since the last message
  pub apply_writes : List (Ptr × TaskState) → Master → Master
  apply_writes [] m = m
  apply_writes ((t, s) ∷ writes) m = apply_writes writes (set_state m t s)

  -- `MasterLoop` on the messages that arrive; `false` if it waits for another message
  pub master_loop : List Event → Master → Res (Bool × Master)
  master_loop [] m = ok (false, m)
  master_loop (ev ∷ evs) m = do
    r ← handle ev.world (apply_writes ev.writes m) ev.msg
    let rest = master_loop evs r
    if r.terminate && Q.size r.ready_tasks == 0 then ok (true, r) else rest
