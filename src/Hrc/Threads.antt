-- ===== src/Hrc/Threads.antt =====
-- sched/hierarchy/hrc_worker_op.c and hrc_task.c: the workers, the wrappers and the tasks that run on
-- them, which share the states of the tasks and send each other messages. A mailbox is the list of
-- its messages. A call is cut where the code switches between a task and its worker.
pub mod Pace
mod Tests
use my_lpel.Common.{
  ℕ, zero, suc, ◌+◌, ◌-◌, ◌^◌, Bool, true, false, not, ◌&&◌, ◌||◌, List, [], ◌∷◌, ◌++◌, ltb, ◌==◌,
  if◌then◌else◌, Res, ok, fault, segv, assertion, overflow, ◌>>=◌, ◌>>◌, assert, update, Double,
  Ptr, null,
}
use my_lpel.Common.Int.{ℤ, pos, negsuc, eqb_ℤ}
use my_lpel.ReadyQueue.{ReadyQueue}
use my_lpel.Hrc.World.{
  TaskState, ready, blocked, zombie, running, is_ready, is_created, is_blocked, is_running, World,
}
use my_lpel.Hrc.Priority.{Settings}
use my_lpel.Hrc.Master.{Msg, terminate, wakeup, assign, request, return, Master, set_state, destroy}

-- `workerctx_t`: the context of a worker, with its index, or of a wrapper, whose `wid` is negative
pub record Context : Type 0 where
  pub wid : ℤ
  pub terminate : Bool
  pub current_task : Ptr
  pub mailbox : List Msg
  pub next : Ptr

-- The counter is a C `int` that starts at 0 and is not decremented.
pub record Limits : Type 0 where
  pub rec_cnt : ℕ
  pub rec_limit : ℤ
  pub rec_limit_factor : ℤ

abbrev pub is_negative : ℤ → Bool
is_negative (pos n) = false
is_negative (negsuc n) = true

-- `!LpelMailboxHasIncoming`
abbrev pub is_none : List Msg → Bool
is_none [] = true
is_none (msg ∷ msgs) = false

-- whether a task is among those that were freed
abbrev pub is_freed : Ptr → List Ptr → Bool
is_freed t [] = false
is_freed t (x ∷ xs) = t == x || is_freed t xs

module _ {D : Type 0} ⦃d : Double D⦄ (Q : ReadyQueue D) (c : Settings D) where
  -- `workers` is the table of the workers' contexts, `freewrappers` the head of the list of contexts
  -- that can be used again; the states of the tasks are in `master`.
  pub record Shared : Type 0 where
    pub master : Master Q c
    pub mastermb : List Msg
    pub context : Ptr → Context
    pub workers : ℕ → Ptr
    pub worker_context : Ptr → Ptr
    pub limits : Ptr → Limits
    pub freewrappers : Ptr

  unfoldable pub set_context : Shared → Ptr → Context → Shared
  set_context s p x = record s { context = update s.context p x }

  unfoldable pub set_task : Shared → Ptr → TaskState → Shared
  set_task s t x = record s { master = set_state Q c s.master t x }

  unfoldable pub set_current : Shared → Ptr → Ptr → Shared
  set_current s p t = set_context s p (record (s.context p) { current_task = t })

  -- `LpelMailboxSend` to the master
  unfoldable pub to_master : Shared → Msg → Shared
  to_master s msg = record s { mastermb = s.mastermb ++ (msg ∷ []) }

  -- `LpelMailboxSend` to a worker or wrapper
  unfoldable pub to_context : Shared → Ptr → Msg → Shared
  to_context s p msg =
      set_context s p (record (s.context p) { mailbox = (s.context p).mailbox ++ (msg ∷ []) })

  -- `t->worker_context`, of which a field is read next
  unfoldable pub context_of : Shared → Ptr → Res Ptr
  context_of s t = if s.worker_context t == null then fault segv else ok (s.worker_context t)

  -- `LpelWorkerRunTask`
  unfoldable pub run_task : Shared → Ptr → Shared
  run_task s t =
      if s.worker_context t == null
      then to_master s (assign t)
      else to_context s (s.worker_context t) (assign t)

  -- `returnTask`
  unfoldable pub return_task : Shared → Ptr → Shared
  return_task s t = to_master s (return t)

  -- `requestTask`; only workers call it, whose `wid` is not negative
  unfoldable pub request_task : Shared → ℤ → Shared
  request_task s (pos i) = to_master s (request i)
  request_task s (negsuc i) = s

  -- `sendWakeup` to the master
  unfoldable pub wake_master : Shared → Ptr → Shared
  wake_master s t = to_master s (wakeup t)

  -- `sendWakeup` to a wrapper
  unfoldable pub wake_wrapper : Shared → Ptr → Ptr → Shared
  wake_wrapper s p t = to_context s p (wakeup t)

  -- `LpelWorkerTaskWakeup`
  unfoldable pub worker_task_wakeup : Shared → Ptr → Shared
  worker_task_wakeup s t =
      let wc = s.worker_context t in
      if wc == null
      then wake_master s t
      else if is_negative (s.context wc).wid
      then wake_wrapper s wc t
      else wake_master s t

  -- `*t` of a task, which must not have been freed
  unfoldable pub deref : Master Q c → Ptr → Res (Unit {0})
  deref m t = if is_freed t m.destroyed then fault segv else ok tt

  -- `LpelTaskUnblock`; LpelWorkerTaskWakeup reads a field of the task
  unfoldable pub unblock : Shared → Ptr → Res Shared
  unblock s t = do assert (not (t == null)); deref s.master t; ok (worker_task_wakeup s t)

  -- the loop of `LpelWorkerBroadcast` from worker `i` on, for `k` workers
  unfoldable pub broadcast_loop : ℕ → ℕ → Msg → Shared → Shared
  broadcast_loop zero i msg s = s
  broadcast_loop (suc k) i msg s = broadcast_loop k (i + 1) msg (to_context s (s.workers i) msg)

  -- `LpelWorkerBroadcast`
  unfoldable pub broadcast : Msg → Shared → Shared
  broadcast msg s = broadcast_loop s.master.num_workers 0 msg s

  -- `LpelWorkerTaskExit`, up to the switch
  unfoldable pub worker_task_exit : Shared → Ptr → Res Shared
  worker_task_exit s t = do
    p ← context_of s t
    if is_negative (s.context p).wid
        then ok (set_context s p (record (s.context p) { terminate = true }))
        else ok (set_current (request_task s (s.context p).wid) p null)

  -- `LpelWorkerTaskBlock`, up to the switch
  unfoldable pub worker_task_block : Shared → Ptr → Res Shared
  worker_task_block s t = do
    p ← context_of s t
    if is_negative (s.context p).wid
        then ok (set_current s p null)
        else ok (set_current (request_task s (s.context p).wid) p null)

  -- `LpelWorkerTaskYield`, up to the switch
  unfoldable pub worker_task_yield : Shared → Ptr → Res Shared
  worker_task_yield s t = do
    p ← context_of s t
    if is_negative (s.context p).wid
        then ok s
        else ok (set_current (request_task s (s.context p).wid) p null)

  -- `LpelTaskStart`
  unfoldable pub lpel_task_start : Shared → Ptr → Res Shared
  lpel_task_start s t = do assert (is_created (s.master.state t)); ok (run_task s t)

  -- `TaskStart`: what a task does first when it is switched to
  unfoldable pub task_start : Shared → Ptr → Res Shared
  task_start s t = do
    assert (is_ready (s.master.state t))
    ok (
        set_task (record s { limits = update s.limits t (record (s.limits t) { rec_cnt = 0 }) }) t
          running)

  -- the start of `LpelTaskExit`
  unfoldable pub exit : Shared → Ptr → Res Shared
  exit s t = do assert (is_running (s.master.state t)); ok (set_task s t zombie)

  -- the start of `LpelTaskYield`
  unfoldable pub task_yield : Shared → Ptr → Res Shared
  task_yield s t = do assert (is_running (s.master.state t)); ok (set_task s t ready)

  -- the start of `LpelTaskBlockStream`
  unfoldable pub block_stream : Shared → Ptr → Res Shared
  block_stream s t = do assert (is_running (s.master.state t)); ok (set_task s t blocked)

  -- `rec_cnt ++`
  unfoldable pub count_record : Shared → Ptr → Res Shared
  count_record s t =
      if ltb (s.limits t).rec_cnt (2 ^ 31 - 1)
      then ok (record s {
        limits = update s.limits t (record (s.limits t) { rec_cnt = (s.limits t).rec_cnt + 1 });
      })
      else fault overflow

  -- `LpelTaskCheckYield`; `true` says that the task yields, and calls `checked_yield` when it is back.
  -- The count is tested before it is increased, although the comment there has it the other way
  -- round.
  unfoldable pub check_yield : Shared → Ptr → Res (Bool × Shared)
  check_yield s t =
      let counted : Res (Bool × Shared) = (do r ← count_record s t; ok (false, r)) in
      let leave : Res (Bool × Shared) = (do
        r ← worker_task_yield (set_task s t ready) t
        ok (true, r)) in
      let test : Res (Bool × Shared) =
        if eqb_ℤ (pos (s.limits t).rec_cnt) (s.limits t).rec_limit then leave else counted in
      do
        assert (is_running (s.master.state t))
        if is_negative (s.limits t).rec_limit then ok (false, s) else test

  -- the rest of `LpelTaskCheckYield` after the task was switched to again
  unfoldable pub checked_yield : Shared → Ptr → Res Shared
  checked_yield s t = do r ← task_start s t; count_record r t

  -- `LpelTaskSetRecLimit`
  abbrev pub set_rec_limit : Shared → Ptr → ℤ → Shared
  set_rec_limit s t lim = record s {
    limits = update s.limits t (record (s.limits t) { rec_limit_factor = lim });
  }

  -- what `WorkerLoop` of the worker with context `p` does with a message, up to the switch to a task
  unfoldable pub worker_receive : Shared → Ptr → Msg → Res Shared
  worker_receive s p (assign t) = do
    assert (is_ready (s.master.state t))
    ok (set_current (record s { worker_context = update s.worker_context t p }) p t)
  worker_receive s p terminate = ok (set_context s p (record (s.context p) { terminate = true }))
  worker_receive s p (wakeup t) = fault assertion
  worker_receive s p (request i) = fault assertion
  worker_receive s p (return t) = fault assertion

  -- `WorkerLoop` after the switch back from task `t`
  unfoldable pub worker_back : Shared → Ptr → Ptr → Res Shared
  worker_back s p t = do
    assert (not (is_running (s.master.state t)))
    ok (
        return_task
          (record (set_current s p null) { worker_context = update s.worker_context t null }) t)

  -- what `WrapperLoop` does with a message
  unfoldable pub wrapper_receive : Shared → Ptr → Msg → Res Shared
  wrapper_receive s p (assign t) = do
    assert (is_created (s.master.state t))
    ok (set_current (set_task s t ready) p t)
  wrapper_receive s p (wakeup t) = do
    assert (is_blocked (s.master.state t))
    ok (set_current (set_task s t ready) p t)
  wrapper_receive s p terminate = fault assertion
  wrapper_receive s p (request i) = fault assertion
  wrapper_receive s p (return t) = fault assertion

  -- `LpelTaskDestroy`
  unfoldable pub task_destroy : World → Shared → Ptr → Res Shared
  task_destroy w s t = do m ← destroy Q c w s.master t; ok (record s { master = m })

  -- `addFreeWrapper`
  unfoldable pub add_free_wrapper : Shared → Ptr → Res Shared
  add_free_wrapper s p = do
    assert (is_none (s.context p).mailbox && (s.context p).terminate)
    ok (record (set_context s p (record (s.context p) { next = s.freewrappers })) {
      freewrappers = p;
    })

  -- `getFreeWrapper`
  unfoldable pub get_free_wrapper : Shared → Ptr × Shared
  get_free_wrapper s =
      let w = s.freewrappers in
      if w == null then (null, s) else (
        w,
        record (set_context s w (record (s.context w) { next = null })) {
          freewrappers = (s.context w).next;
        },
      )

  -- `LpelCreateWrapperContext`; `new` is what malloc returns if no context is free
  unfoldable pub create_wrapper_context : Shared → ℤ → Ptr → Ptr × Shared
  create_wrapper_context s wid new =
      let (free, r) = get_free_wrapper s in
      let fresh : Context = record {
        wid = wid;
        terminate = false;
        current_task = null;
        mailbox = [];
        next = null;
      } in
      if free == null then (new, set_context r new fresh) else (
        free,
        set_context r free
            (record (r.context free) { wid = wid; terminate = false; current_task = null }),
      )

  -- the loop of `LpelWorkersInit` from worker `i` on, for `k` workers; with `terminate` and
  -- `current_task` as `WorkerThread` sets them first
  unfoldable pub init_loop : ℕ → ℕ → Shared → Shared
  init_loop zero i s = s
  init_loop (suc k) i s = init_loop k (i + 1) (
      set_context s (s.workers i)
        (record { wid = pos i; terminate = false; current_task = null; mailbox = []; next = null }))

  -- `LpelWorkersInit` for the master and `n` workers; `q` is the empty queue, `workers` are the
  -- addresses that malloc returns, and `s` is what the memory held before
  unfoldable pub workers_init : ℕ → Q.Queue → (ℕ → Ptr) → Shared → Shared
  workers_init n q workers s = init_loop n 0 (record s {
    workers = workers;
    mastermb = [];
    freewrappers = null;
    master = record s.master {
      ready_tasks = q;
      num_workers = n;
      waitworkers = λ i. false;
      terminate = false;
    };
  })
