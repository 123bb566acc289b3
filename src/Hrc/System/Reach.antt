-- ===== src/Hrc/System/Reach.antt =====
-- What is reached from the start: no task runs twice, and none is lost.
use my_lpel.Common.{
  ℕ, zero, suc, ◌+◌, ◌<◌, ◌≤◌, ◌≡◌, ◌≢◌, refl, sym, ap, ◌∙◌, inl, inr, Bool, true, false, List, [],
  ◌∷◌, ◌++◌, ◌==◌, if◌then◌else◌, arith, Yields, Yields-map, Yields-at, ok, Bool-cases, ==-true,
  Double, Ptr, null,
}
use my_lpel.ReadyQueue.{ReadyQueue}
use my_lpel.Hrc.World.{is_returned}
use my_lpel.Hrc.Priority.{Settings}
use my_lpel.Hrc.Master.{terminate, assign}
use my_lpel.Hrc.Threads.{Shared}
use my_lpel.Hrc.System.{receives, System, Action, run, Schedule, initial}
use my_lpel.Hrc.System.Sound.{one, count, times, is_working, task_on, suits, box_of, Sound}
use my_lpel.Hrc.System.Run.{run-Sound}
use my_lpel.Hrc.System.Init.{IsFresh, initial-Sound}

box_of_empty : (box : Ptr) (told : Bool) → box_of box told ≡ [] → box ≡ null
box_of_empty box told e = elim (Bool-cases (box == null)) [
  | inl empty ↦ ==-true box null empty
  | inr full ↦ absurd (box_of_full told (rw full at e))
]
  where
    box_of_full : (told : Bool) → (assign box ∷ []) ++ (if told then (terminate ∷ []) else []) ≢ []
    box_of_full told e = cc

module _ {D : Type 0} ⦃d : Double D⦄ (Q : ReadyQueue D) (c : Settings D) where
  -- Tasks on workers: no task is on two, none is in the ready queue or was freed, each is in a state
  -- that fits, and its context is that of its worker.
  pub record Exclusive (sys : System Q c) : Type 0 where
    pub alone :
        (i j : ℕ)
        → i < sys.shared.master.num_workers
        → j < sys.shared.master.num_workers
        → task_on (sys.phase i) ≢ null
        → task_on (sys.phase i) ≡ task_on (sys.phase j)
        → i ≡ j
    pub unqueued :
        (i : ℕ)
        → i < sys.shared.master.num_workers
        → task_on (sys.phase i) ≢ null
        → Q.holds sys.shared.master.ready_tasks (task_on (sys.phase i)) ≡ 0
    pub unfreed :
        (i : ℕ)
        → i < sys.shared.master.num_workers
        → task_on (sys.phase i) ≢ null
        → times (task_on (sys.phase i)) sys.shared.master.destroyed ≡ 0
    pub fits :
        (i : ℕ)
        → i < sys.shared.master.num_workers
        → task_on (sys.phase i) ≢ null
        → suits (sys.phase i) (sys.shared.master.state (task_on (sys.phase i))) ≡ true
    pub freed_once : (t : Ptr) → times t sys.shared.master.destroyed ≤ 1

  Sound-Exclusive : (sys : System Q c) → Sound Q c sys → Exclusive sys
  Sound-Exclusive sys v = record {
    alone = λ i j p q ne e.
        ground (arith, v.hosts.on_host i p ne, v.hosts.on_host j q (rw (← e) ne), ap v.host e);
    unqueued =
        λ i p ne. ground (arith, v.hosts.on_host i p ne, v.tokens.token (task_on (sys.phase i)));
    unfreed =
        λ i p ne. ground (arith, v.hosts.on_host i p ne, v.tokens.token (task_on (sys.phase i)));
    fits = v.hosts.state;
    freed_once = λ t. omega (arith, v.tokens.token t);
  }

  -- From the state before any thread runs, with an empty ready queue, any schedule of the master,
  -- the workers, their tasks and threads outside fails no assert and faults nowhere, where waking
  -- a freed task and handling a message of one are faults, if a task is started once and not
  -- NULL, has closed its streams when its end is handled, wakes only tasks that are not NULL and
  -- not freed, each wake-up is handled before its task is freed, and the ready queue has room at
  -- each message; then no task is on two workers, none on a worker is queued or was freed, the
  -- state of each fits where its worker is, and none was freed twice.
  pub run-Exclusive :
      (n : ℕ) (q : Q.Queue) (workers : ℕ → Ptr) (s : Shared Q c) (actions : List (Action Q c))
      → IsFresh Q c n q workers s
      → Schedule Q c actions (initial Q c n q workers s)
      → Yields Exclusive (run Q c actions (initial Q c n q workers s))
  run-Exclusive n q workers s actions f h =
      Yields-map (run-Sound Q c actions _ (initial-Sound Q c n q workers s f) h) Sound-Exclusive

  -- no thread but one from outside can move
  pub record IsQuiet (sys : System Q c) : Type 0 where
    pub mastermb : sys.shared.mastermb ≡ []
    pub phase : (i : ℕ) → i < sys.shared.master.num_workers → sys.phase i ≡ receives
    pub mailbox :
        (i : ℕ)
        → i < sys.shared.master.num_workers
        → (sys.shared.context (sys.shared.workers i)).mailbox ≡ []

  -- a started task is queued, RETURNED or freed, in one way only, and all workers are noted
  pub record IsSettled (sys : System Q c) : Type 0 where
    pub task :
        (t : Ptr)
        → sys.started t ≡ true
        → Q.holds sys.shared.master.ready_tasks t
            + one (is_returned (sys.shared.master.state t))
            + times t sys.shared.master.destroyed
          ≡ 1
    pub unwoken : (t : Ptr) → is_returned (sys.shared.master.state t) ≡ true → sys.woken t ≡ false
    pub noted : (i : ℕ) → i < sys.shared.master.num_workers → sys.shared.master.waitworkers i ≡ true

  module _ (sys : System Q c) (v : Sound Q c sys) (h : IsQuiet sys) where
    box_empty : (i : ℕ) → i < sys.shared.master.num_workers → v.box i ≡ null
    box_empty i p = box_of_empty (v.box i) _ (sym (v.boxes.mailbox i p) ∙ h.mailbox i p)

    nowhere_null : (v.dest null ≡ 0) × (v.host null ≡ 0)
    nowhere_null = (
      ground (arith, v.tokens.token null, v.tokens.null_new),
      ground (arith, v.tokens.token null, v.tokens.null_new),
    )

    no_dest : (t : Ptr) (k : ℕ) → v.dest t ≡ k → k ≡ 0
    no_dest t zero e = refl
    no_dest t (suc i) e =
        let (p, on) = v.boxes.dest_box t i e in
        let none : t ≡ null = sym on ∙ box_empty i p in sym e ∙ ap v.dest none ∙ nowhere_null.0

    no_host : (t : Ptr) (k : ℕ) → v.host t ≡ k → k ≡ 0
    no_host t zero e = refl
    no_host t (suc i) e =
        let (p, on) = v.hosts.host_on t i e in
        let none : t ≡ null = sym on ∙ ap task_on (h.phase i p) in
        sym e ∙ ap v.host none ∙ nowhere_null.1

    Sound-IsSettled : IsSettled sys
    unfolding count
    Sound-IsSettled = record {
      task = λ t e.
          let a = rw h.mastermb at v.tokens.token t in
          ground (arith, a, no_dest t _ refl, no_host t _ refl);
      unwoken = λ t e. elim (Bool-cases (sys.woken t)) [
        | inr calm ↦ calm
        | inl woken ↦ absurd (
            ground (
              arith,
              v.marks.answered t e,
              (rw h.mastermb at v.marks.unlost t woken (ground (arith, e))),
            ))
      ];
      noted = λ i p. ground (
        arith,
        (rw h.mastermb at v.turns.turn i p),
        (ap is_working (h.phase i p)),
        box_empty i p,
      );
    }

  -- After any schedule from the state before any thread runs, with an empty ready queue, in which
  -- a task is started once and not NULL, has closed its streams when its end is handled, wakes
  -- only tasks that are not NULL and not freed, each wake-up is handled before its task is freed,
  -- and the ready queue has room at each message, when the mailboxes of the master and of all
  -- workers are empty and every worker waits for a message, each started task is queued, RETURNED
  -- or freed, in one of these ways and once, no RETURNED task was woken since it last started to
  -- run, and every worker is noted as waiting.
  pub run-IsSettled :
      (n : ℕ) (q : Q.Queue) (workers : ℕ → Ptr) (s : Shared Q c) (actions : List (Action Q c))
      (r : System Q c)
      → IsFresh Q c n q workers s
      → Schedule Q c actions (initial Q c n q workers s)
      → run Q c actions (initial Q c n q workers s) ≡ ok r
      → IsQuiet r
      → IsSettled r
  run-IsSettled n q workers s actions r f h e quiet =
      Sound-IsSettled r
        (Yields-at r (run-Sound Q c actions _ (initial-Sound Q c n q workers s f) h) e) quiet
