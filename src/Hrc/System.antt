-- ===== src/Hrc/System.antt =====
-- The threads of the hierarchical scheduler together: the master, the workers, and the tasks that the
-- workers run, interleaved in any order. A step of a thread reaches to the next message that it sends
-- or receives, or to the next switch between a worker and its task.
pub mod Sound
pub mod Current
pub mod Woken
pub mod Ask
pub mod Work
pub mod Leave
pub mod Switch
pub mod Receive
pub mod Hand
pub mod Deliver
pub mod Round
pub mod Untouched
pub mod Manage
pub mod Run
pub mod Init
pub mod Reach
mod Tests
use my_lpel.Common.{
  ℕ, ◌<◌, ◌≡◌, ◌≢◌, Bool, true, false, ◌&&◌, List, [], ◌∷◌, ◌==◌, if◌then◌else◌, Res, ok, ◌>>=◌,
  ◌>>◌, fault, update, Double, Ptr, null, arith,
}
use my_lpel.ReadyQueue.{ReadyQueue, capacity}
use my_lpel.Hrc.World.{TaskState, zombie, World}
use my_lpel.Hrc.Priority.{Settings}
use my_lpel.Hrc.Master.{Msg, terminate, return, assign, wakeup, Master, handle}
use my_lpel.Hrc.Threads.{
  Context, Shared, is_freed, deref, set_context, to_master, to_context, request_task, broadcast,
  lpel_task_start, task_start, exit, task_yield, block_stream, unblock, worker_task_exit,
  worker_task_block, worker_task_yield, worker_receive, worker_back, workers_init,
}

-- what the running task does next: it ends, blocks or yields, or it unblocks another task
pub data Choice : Type 0 where
  exits blocks gives_up : Choice
  wakes : Ptr → Choice

-- Where a worker is: before its first request; at `LpelMailboxRecv`; in a task, before `TaskStart`,
-- running, or past `TaskStop`; after the switch back from a task; or past its loop.
pub data Phase : Type 0 where
  starts receives ends : Phase
  dispatched runs left : Ptr → Phase
  stopped : Ptr → Choice → Phase

-- where `WorkerLoop` goes on after a message; only WORKER_MSG_TERMINATE sets `wc->terminate`
abbrev pub phase_of : Msg → Phase
phase_of (Msg.assign t) = dispatched t
phase_of _ = ends

-- a task that is woken is not NULL and was not freed
abbrev pub Named : List Ptr → Choice → Type 0
Named freed (wakes x) = (x ≢ null) × (is_freed x freed ≡ false)
Named freed _ = Unit

-- the property of the result, if there is one
abbrev pub IfOk : {A : Type 0} → (A → Type 0) → Res A → Type 0
IfOk P (ok a) = P a
IfOk P (fault e) = Unit

module _ {D : Type 0} ⦃d : Double D⦄ (Q : ReadyQueue D) (c : Settings D) where
  -- `over` says that the master's loop has ended, `started` for which tasks `LpelTaskStart` was called,
  -- and `woken` for which `LpelTaskUnblock` was called since they last started to run. No step reads
  -- the last two.
  pub record System : Type 0 where
    pub shared : Shared Q c
    pub phase : ℕ → Phase
    pub started : Ptr → Bool
    pub woken : Ptr → Bool
    pub over : Bool

  -- worker `i` is now in the phase, and has left the memory so
  pub moved : System → ℕ → Phase → Shared Q c → System
  moved sys i p s = record sys { shared = s; phase = update sys.phase i p }

  -- the next step of worker `i` and of the task on it
  pub receive : System → ℕ → Ptr → List Msg → Res System
  receive sys i p [] = ok sys
  receive sys i p (msg ∷ msgs) =
      let taken = set_context Q c sys.shared p (record (sys.shared.context p) { mailbox = msgs }) in
      do s ← worker_receive Q c taken p msg; ok (moved sys i (phase_of msg) s)

  -- `LpelTaskSelf`, called by a task on worker `i`
  abbrev pub task_self : System → ℕ → Ptr
  task_self sys i = (sys.shared.context (sys.shared.workers i)).current_task

  pub run_choice : System → ℕ → Ptr → Choice → Res System
  run_choice sys i t exits = do s ← exit Q c sys.shared t; ok (moved sys i (stopped t exits) s)
  run_choice sys i t blocks = do
    s ← block_stream Q c sys.shared t
    ok (moved sys i (stopped t blocks) s)
  run_choice sys i t gives_up = do
    s ← task_yield Q c sys.shared t
    ok (moved sys i (stopped t gives_up) s)
  run_choice sys i t (wakes x) = do
    s ← unblock Q c sys.shared x
    ok (record sys { shared = s; woken = update sys.woken x true })

  pub switch_back : Shared Q c → Ptr → Choice → Res (Shared Q c)
  switch_back s t exits = worker_task_exit Q c s t
  switch_back s t blocks = worker_task_block Q c s t
  switch_back s t gives_up = worker_task_yield Q c s t
  switch_back s t (wakes x) = ok s

  pub worker_step : System → ℕ → Choice → Phase → Res System
  worker_step sys i choice starts = ok (
      moved sys i receives
        (request_task Q c sys.shared (sys.shared.context (sys.shared.workers i)).wid))
  worker_step sys i choice receives =
      receive sys i (sys.shared.workers i) (sys.shared.context (sys.shared.workers i)).mailbox
  worker_step sys i choice (dispatched t) = do
    s ← task_start Q c sys.shared t
    ok (record (moved sys i (runs t) s) { woken = update sys.woken t false })
  worker_step sys i choice (runs t) = run_choice sys i (task_self sys i) choice
  worker_step sys i choice (stopped t how) = do
    s ← switch_back sys.shared t how
    ok (moved sys i (left t) s)
  worker_step sys i choice (left t) = do
    s ← worker_back Q c sys.shared (sys.shared.workers i) t
    ok (moved sys i receives s)
  worker_step sys i choice ends = ok sys

  -- the messages that the master has sent, the last first
  pub deliver : List (ℕ × Ptr) → Shared Q c → Shared Q c
  deliver [] s = s
  deliver ((i, t) ∷ sent) s =
      let before = deliver sent s in to_context Q c before (before.workers i) (Msg.assign t)

  -- The master reads fields of the task that a message names.
  pub read_task : Master Q c → Msg → Res (Unit {0})
  read_task m (assign t) = deref Q c m t
  read_task m (wakeup t) = deref Q c m t
  read_task m (return t) = deref Q c m t
  read_task m _ = ok tt

  -- one round of `MasterLoop`; `MasterThread` ends with a broadcast
  pub master_step : System → World → List Msg → Res System
  master_step sys w [] = ok sys
  master_step sys w (msg ∷ msgs) = do
    read_task sys.shared.master msg
    m ← handle Q c w sys.shared.master msg
    let s = deliver m.sent (record sys.shared { mastermb = msgs; master = record m { sent = [] } })
    if m.terminate && Q.size m.ready_tasks == 0
        then ok (record sys { shared = broadcast Q c terminate s; over = true })
        else ok (record sys { shared = s })

  -- `LpelTaskStart` of a new task, by any thread
  pub start_step : System → Ptr → Res System
  start_step sys t = do
    s ← lpel_task_start Q c sys.shared t
    ok (record sys { shared = s; started = update sys.started t true })

  -- who moves: a worker, the master, or another thread that starts a task or calls
  -- `LpelWorkersTerminate`
  pub data Action : Type 0 where
    worker : ℕ → Choice → Action
    master : World → Action
    start : Ptr → Action
    stop : Action

  pub act : System → Action → Res System
  act sys (worker i choice) = worker_step sys i choice (sys.phase i)
  act sys (master w) = if sys.over then ok sys else master_step sys w sys.shared.mastermb
  act sys (start t) = start_step sys t
  act sys stop = ok (record sys { shared = to_master Q c sys.shared terminate })

  pub run : List Action → System → Res System
  run [] sys = ok sys
  run (a ∷ actions) sys = do r ← act sys a; run actions r

  -- before any thread runs
  pub initial : ℕ → Q.Queue → (ℕ → Ptr) → Shared Q c → System
  initial n q workers s = record {
    shared = workers_init Q c n q workers s;
    phase = λ i. starts;
    started = λ t. false;
    woken = λ t. false;
    over = false;
  }

  -- a task has closed its streams when its end is handled, and no wake-up for it arrives after that
  abbrev pub Closed : World → Master Q c → List Msg → Type 0
  Closed w m (return t ∷ msgs) = m.state t ≡ zombie → (w.in_streams t ≡ []) × (w.out_streams t ≡ [])
  Closed w m (wakeup t ∷ msgs) = is_freed t m.destroyed ≡ false
  Closed w m _ = Unit

  -- A worker that exists moves; the queue of the master has room; a task is started once.
  abbrev pub Permitted : System → Action → Type 0
  Permitted sys (worker i choice) =
      (i < sys.shared.master.num_workers) × Named sys.shared.master.destroyed choice
  Permitted sys (master w) =
      (Q.size sys.shared.master.ready_tasks < capacity)
      × Closed w sys.shared.master sys.shared.mastermb
  Permitted sys (start t) = (t ≢ null) × (sys.started t ≡ false)
  Permitted sys stop = Unit

  abbrev pub Schedule : List Action → System → Type 0
  Schedule [] sys = Unit
  Schedule (a ∷ actions) sys = Permitted sys a × IfOk (Schedule actions) (act sys a)
