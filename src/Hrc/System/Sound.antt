-- ===== src/Hrc/System/Sound.antt =====
-- What holds of the threads together at any time: each started task is in one place, and each worker
-- has one request on its way, noted or answered, or is at work.
use my_lpel.Common.{
  ℕ, suc, ◌+◌, ◌<◌, ◌≤◌, ◌≡◌, ◌≢◌, refl, Bool, true, false, not, ◌&&◌, List, [], ◌∷◌, ◌++◌, ltb,
  ◌==◌, if◌then◌else◌, hit, arith, Double, Ptr, null,
}
use my_lpel.Common.Int.{pos}
use my_lpel.ReadyQueue.{ReadyQueue}
use my_lpel.Hrc.World.{TaskState, created, ready, is_ready, is_returned}
use my_lpel.Hrc.Priority.{Settings}
use my_lpel.Hrc.Master.{Msg, terminate, wakeup, assign, request, return, Master}
use my_lpel.Hrc.Master.Invariant.{Inv}
use my_lpel.Hrc.Threads.{Context, is_freed}
use my_lpel.Hrc.System.{
  exits, blocks, gives_up, wakes, Phase, starts, receives, dispatched, runs, stopped, left, ends,
  System,
}

abbrev pub one : Bool → ℕ
one b = if b then 1 else 0

-- how often a message of a kind stands in a mailbox
unfoldable pub count : (Msg → Bool) → List Msg → ℕ
count f [] = 0
count f (msg ∷ msgs) = one (f msg) + count f msgs

pub count-snoc :
    (f : Msg → Bool) (msgs : List Msg) (msg : Msg)
    → count f (msgs ++ (msg ∷ [])) ≡ count f msgs + one (f msg)
unfolding count
count-snoc f [] msg = ground arith
count-snoc f (x ∷ msgs) msg = ground (arith, count-snoc f msgs msg)

unfoldable pub times : Ptr → List Ptr → ℕ
times t [] = 0
times t (x ∷ xs) = hit t x + times t xs

pub is_freed-times : (t : Ptr) (xs : List Ptr) → times t xs ≡ 0 → is_freed t xs ≡ false
unfolding times
is_freed-times t [] e = refl
is_freed-times t (x ∷ xs) e =
    let here : t == x ≡ false = ground (arith, e) in
    rw here (is_freed-times t xs (ground (arith, e)))

abbrev pub assigns : Ptr → Msg → Bool
assigns t (assign x) = t == x
assigns t _ = false

abbrev pub returns : Ptr → Msg → Bool
returns t (return x) = t == x
returns t _ = false

abbrev pub wakes_up : Ptr → Msg → Bool
wakes_up t (wakeup x) = t == x
wakes_up t _ = false

abbrev pub requests : ℕ → Msg → Bool
requests i (request j) = i == j
requests i _ = false

abbrev pub wakes_null : Msg → Bool
wakes_null (wakeup t) = t == null
wakes_null _ = false

-- a worker that has not asked for its next task
abbrev pub is_working : Phase → Bool
is_working receives = false
is_working (left t) = false
is_working ends = false
is_working _ = true

abbrev pub has_task : Phase → Bool
has_task starts = false
has_task receives = false
has_task ends = false
has_task _ = true

abbrev pub is_ending : Phase → Bool
is_ending ends = true
is_ending _ = false

-- the task that a worker has, or NULL
abbrev pub task_on : Phase → Ptr
task_on (dispatched t) = t
task_on (runs t) = t
task_on (stopped t how) = t
task_on (left t) = t
task_on _ = null

-- the task on the worker is the current task of its context
abbrev pub is_inside : Phase → Bool
is_inside (dispatched t) = true
is_inside (runs t) = true
is_inside _ = false

-- a state in which a task is returned
abbrev pub is_stopped : TaskState → Bool
is_stopped TaskState.ready = true
is_stopped TaskState.blocked = true
is_stopped TaskState.zombie = true
is_stopped _ = false

-- the state of a task on a worker
abbrev pub suits : Phase → TaskState → Bool
suits (dispatched t) s = is_ready s
suits (runs t) TaskState.running = true
suits (runs t) _ = false
suits (stopped t exits) TaskState.zombie = true
suits (stopped t exits) _ = false
suits (stopped t blocks) TaskState.blocked = true
suits (stopped t blocks) _ = false
suits (stopped t gives_up) TaskState.ready = true
suits (stopped t gives_up) _ = false
suits (stopped t (wakes x)) s = false
suits (left t) s = is_stopped s
suits _ s = true

-- the mailbox of a worker, to which the task `box` (or none, if NULL) was sent, and then, if
-- `told`, that it is to end
abbrev pub box_of : Ptr → Bool → List Msg
box_of box told =
    (if box == null then [] else (assign box ∷ [])) ++ (if told then (terminate ∷ []) else [])

-- a worker that is in a task has it as its current task
pub record Currents (n : ℕ) (context : Ptr → Context) (workers : ℕ → Ptr) (phase : ℕ → Phase)
    : Type 0 where
  pub task :
      (i : ℕ)
      → i < n
      → is_inside (phase i) ≡ true
      → (context (workers i)).current_task ≡ task_on (phase i)

-- a task that runs, or needs a wake-up to run again
abbrev pub may_sleep : TaskState → Bool
may_sleep TaskState.running = true
may_sleep TaskState.blocked = true
may_sleep TaskState.returned = true
may_sleep _ = false

-- A RETURNED task has no mark. A task that was woken since it last started to run is about to run
-- again, or has a mark or a message that says so.
pub record Marks (woken : Ptr → Bool) (mb : List Msg) (state : Ptr → TaskState)
    (wakenup : Ptr → Bool) : Type 0 where
  pub answered : (t : Ptr) → is_returned (state t) ≡ true → wakenup t ≡ false
  pub unlost :
      (t : Ptr)
      → woken t ≡ true
      → may_sleep (state t) ≡ true
      → 0 < count (wakes_up t) mb + one (wakenup t)

module _ {D : Type 0} ⦃d : Double D⦄ (Q : ReadyQueue D) (c : Settings D) where
  -- Each task is once in one of these places: not started; in a message of the master's mailbox; in
  -- the ready queue; RETURNED; freed; in the mailbox of worker `dest t - 1`; on worker
  -- `host t - 1`.
  pub record Tokens (mb : List Msg) (m : Master Q c) (started : Ptr → Bool) (dest host : Ptr → ℕ)
      : Type 0 where
    pub token :
        (t : Ptr)
        → count (assigns t) mb
            + count (returns t) mb
            + Q.holds m.ready_tasks t
            + one (is_returned (m.state t))
            + times t m.destroyed
            + one (ltb 0 (dest t))
            + one (ltb 0 (host t))
            + one (not (started t))
          ≡ 1
    pub new : (t : Ptr) → 0 < count (assigns t) mb + one (not (started t)) → m.state t ≡ created
    pub back : (t : Ptr) → 0 < count (returns t) mb → is_stopped (m.state t) ≡ true
    pub sent : (t : Ptr) → 0 < dest t → m.state t ≡ ready
    pub null_new : started null ≡ false
    pub null_wake : count wakes_null mb ≡ 0

  -- Each worker has asked once, or waits, or is sent the task `box i`, or is at work.
  pub record Turns (n : ℕ) (mb : List Msg) (waitworkers : ℕ → Bool) (phase : ℕ → Phase)
      (box : ℕ → Ptr) : Type 0 where
    pub turn :
        (i : ℕ)
        → i < n
        → count (requests i) mb
            + one (waitworkers i)
            + one (not (box i == null))
            + one (is_working (phase i))
          ≡ 1
    pub stranger : (i : ℕ) → n ≤ i → count (requests i) mb ≡ 0

  -- the mailboxes of the workers, and their contexts, which differ
  pub record Boxes (n : ℕ) (context : Ptr → Context) (workers : ℕ → Ptr) (over : Bool)
      (phase : ℕ → Phase) (dest : Ptr → ℕ) (box : ℕ → Ptr) : Type 0 where
    pub box_dest : (i : ℕ) → i < n → box i ≢ null → dest (box i) ≡ suc i
    pub dest_box : (t : Ptr) (i : ℕ) → dest t ≡ suc i → (i < n) × (box i ≡ t)
    pub mailbox :
        (i : ℕ)
        → i < n
        → (context (workers i)).mailbox ≡ box_of (box i) (over && not (is_ending (phase i)))
    pub wid : (i : ℕ) → i < n → (context (workers i)).wid ≡ pos i
    pub apart : (i j : ℕ) → i < n → j < n → workers i ≡ workers j → i ≡ j
    pub nonnull : (i : ℕ) → i < n → workers i ≢ null
    pub early : (i : ℕ) → i < n → over ≡ false → is_ending (phase i) ≡ false

  -- the tasks on the workers
  pub record Hosts (n : ℕ) (m : Master Q c) (workers : ℕ → Ptr) (worker_context : Ptr → Ptr)
      (phase : ℕ → Phase) (host : Ptr → ℕ) : Type 0 where
    pub on_host : (i : ℕ) → i < n → task_on (phase i) ≢ null → host (task_on (phase i)) ≡ suc i
    pub host_on : (t : Ptr) (i : ℕ) → host t ≡ suc i → (i < n) × (task_on (phase i) ≡ t)
    pub state :
        (i : ℕ)
        → i < n
        → task_on (phase i) ≢ null
        → suits (phase i) (m.state (task_on (phase i))) ≡ true
    pub real : (i : ℕ) → i < n → has_task (phase i) ≡ true → task_on (phase i) ≢ null
    pub hosted : (t : Ptr) (i : ℕ) → host t ≡ suc i → worker_context t ≡ workers i
    pub free : (t : Ptr) → host t ≡ 0 → worker_context t ≡ null

  pub record Sound (sys : System Q c) : Type 0 where
    pub dest : Ptr → ℕ
    pub host : Ptr → ℕ
    pub box : ℕ → Ptr
    pub inv : Inv Q c sys.shared.master
    pub sent : sys.shared.master.sent ≡ []
    pub marks :
        Marks sys.woken sys.shared.mastermb sys.shared.master.state sys.shared.master.wakenup
    pub tokens : Tokens sys.shared.mastermb sys.shared.master sys.started dest host
    pub turns :
        Turns sys.shared.master.num_workers sys.shared.mastermb sys.shared.master.waitworkers
          sys.phase box
    pub boxes :
        Boxes sys.shared.master.num_workers sys.shared.context sys.shared.workers sys.over sys.phase
          dest box
    pub hosts :
        Hosts sys.shared.master.num_workers sys.shared.master sys.shared.workers
          sys.shared.worker_context sys.phase host
    pub current :
        Currents sys.shared.master.num_workers sys.shared.context sys.shared.workers sys.phase
