-- ===== src/Hrc/System/Run.antt =====
-- Schedules of the threads.
use my_lpel.Common.{
  ℕ, ◌<◌, ◌≡◌, ◌≢◌, refl, ap, ◌∙◌, Bool, true, false, List, [], ◌∷◌, ◌++◌, if◌then◌else◌, arith,
  Yields, yields, Yields-open, update, ok, Double, Ptr, null,
}
use my_lpel.ReadyQueue.{ReadyQueue, capacity}
use my_lpel.Hrc.World.{World, created}
use my_lpel.Hrc.Priority.{Settings}
use my_lpel.Hrc.Master.{Msg, terminate, assign, Master}
use my_lpel.Hrc.Threads.{to_master, run_task, lpel_task_start}
use my_lpel.Hrc.System.{
  Choice, Phase, starts, receives, dispatched, runs, stopped, left, ends, System, worker_step,
  Named, master_step, start_step, Action, worker, master, start, stop, act, run, Closed, Permitted,
  Schedule, task_self,
}
use my_lpel.Hrc.System.Sound.{count-snoc, assigns, returns, wakes_null, task_on, Tokens, Sound}
use my_lpel.Hrc.System.Woken.{Marks-carry}
use my_lpel.Hrc.System.Ask.{Tokens-carry, Turns-carry}
use my_lpel.Hrc.System.Work.{starts-Sound, dispatched-Sound}
use my_lpel.Hrc.System.Leave.{runs-Sound}
use my_lpel.Hrc.System.Switch.{stopped-Sound, left-Sound}
use my_lpel.Hrc.System.Receive.{receives-Sound}
use my_lpel.Hrc.System.Manage.{master-Sound}

module _ {D : Type 0} ⦃d : Double D⦄ (Q : ReadyQueue D) (c : Settings D) where
  worker-Sound :
      (sys : System Q c) (i : ℕ) (choice : Choice) (p : Phase)
      → Sound Q c sys
      → i < sys.shared.master.num_workers
      → Named sys.shared.master.destroyed choice
      → sys.phase i ≡ p
      → Yields (Sound Q c) (worker_step Q c sys i choice p)
  unfolding worker_step
  worker-Sound sys i choice starts v inside named e = starts-Sound Q c sys v i inside choice e
  worker-Sound sys i choice receives v inside named e = receives-Sound Q c sys v i inside e choice
  worker-Sound sys i choice (dispatched t) v inside named e =
      dispatched-Sound Q c sys v i inside choice t e
  worker-Sound sys i choice (runs t) v inside named e =
      let self : task_self Q c sys i ≡ t = v.current.task i inside (rw e refl) ∙ ap task_on e in
      rw self (runs-Sound Q c sys v i inside t choice named e)
  worker-Sound sys i choice (stopped t how) v inside named e =
      stopped-Sound Q c sys v i inside t how choice e
  worker-Sound sys i choice (left t) v inside named e = left-Sound Q c sys v i inside t choice e
  worker-Sound sys i choice ends v inside named e = yields v

  Tokens-start :
      {mb : List Msg} {m : Master Q c} {started : Ptr → Bool} {dest host : Ptr → ℕ}
      → (t : Ptr) → t ≢ null
      → started t ≡ false
      → Tokens Q c mb m started dest host
      → Tokens Q c (mb ++ (assign t ∷ [])) m (update started t true) dest host
  Tokens-start {mb} t ne fresh v = record {
    token = λ x. ground (
      arith,
      v.token x,
      count-snoc (assigns x) mb (assign t),
      count-snoc (returns x) mb (assign t),
    );
    new = λ x h. v.new x (ground (arith, count-snoc (assigns x) mb (assign t)));
    back = λ x h. v.back x (ground (arith, count-snoc (returns x) mb (assign t)));
    sent = v.sent;
    null_new = ground (arith, v.null_new);
    null_wake = ground (arith, v.null_wake, count-snoc wakes_null mb (assign t));
  }

  start-Sound :
      (sys : System Q c) (t : Ptr)
      → Sound Q c sys
      → t ≢ null
      → sys.started t ≡ false
      → Yields (Sound Q c) (start_step Q c sys t)
  unfolding start_step lpel_task_start run_task to_master
  start-Sound sys t v ne fresh =
      let now : sys.shared.master.state t ≡ created = v.tokens.new t (ground (arith)) in
      let away : sys.shared.worker_context t ≡ null =
        v.hosts.free t (ground (arith, v.tokens.token t)) in
      rw (now, away)
        (yields (record {
          dest = v.dest;
          host = v.host;
          box = v.box;
          inv = v.inv;
          sent = v.sent;
          marks = Marks-carry (assign t) v.marks;
          tokens = Tokens-start t ne fresh v.tokens;
          turns = Turns-carry Q c (assign t) (λ j. refl) v.turns;
          boxes = v.boxes;
          hosts = v.hosts;
          current = v.current;
        }))

  stop-Sound :
      (sys : System Q c)
      → Sound Q c sys
      → Sound Q c (record sys { shared = to_master Q c sys.shared terminate })
  unfolding to_master
  stop-Sound sys v = record {
    dest = v.dest;
    host = v.host;
    box = v.box;
    inv = v.inv;
    sent = v.sent;
    marks = Marks-carry terminate v.marks;
    tokens = Tokens-carry Q c terminate (λ t. refl) (λ t. refl) refl v.tokens;
    turns = Turns-carry Q c terminate (λ j. refl) v.turns;
    boxes = v.boxes;
    hosts = v.hosts;
    current = v.current;
  }

  mail-Sound :
      (sys : System Q c) (w : World) (mb : List Msg)
      → Sound Q c sys
      → sys.over ≡ false
      → Q.size sys.shared.master.ready_tasks < capacity
      → Closed Q c w sys.shared.master mb
      → sys.shared.mastermb ≡ mb
      → Yields (Sound Q c) (master_step Q c sys w mb)
  unfolding master_step
  mail-Sound sys w [] v going room closed e = yields v
  mail-Sound sys w (msg ∷ msgs) v going room closed e =
      master-Sound Q c sys v w msgs going room msg closed (rw e at v.tokens) (rw e at v.turns)
        (rw e at v.marks)

  turn-Sound :
      (sys : System Q c) (w : World) (over : Bool)
      → Sound Q c sys
      → sys.over ≡ over
      → Q.size sys.shared.master.ready_tasks < capacity
      → Closed Q c w sys.shared.master sys.shared.mastermb
      → Yields (Sound Q c) (if over then ok sys else master_step Q c sys w sys.shared.mastermb)
  turn-Sound sys w true v e room closed = yields v
  turn-Sound sys w false v e room closed = mail-Sound sys w _ v e room closed refl

  act-Sound :
      (sys : System Q c) (a : Action Q c)
      → Sound Q c sys
      → Permitted Q c sys a
      → Yields (Sound Q c) (act Q c sys a)
  unfolding act
  act-Sound sys (worker i choice) v (inside, named) =
      worker-Sound sys i choice (sys.phase i) v inside named refl
  act-Sound sys (master w) v (room, closed) = turn-Sound sys w sys.over v refl room closed
  act-Sound sys (start t) v (ne, fresh) = start-Sound sys t v ne fresh
  act-Sound sys stop v h = yields (stop-Sound sys v)

  pub run-Sound :
      (actions : List (Action Q c)) (sys : System Q c)
      → Sound Q c sys
      → Schedule Q c actions sys
      → Yields (Sound Q c) (run Q c actions sys)
  unfolding run
  run-Sound [] sys v h = yields v
  run-Sound (a ∷ actions) sys v (allowed, later) =
      let (r, stepped, s) = Yields-open (act-Sound sys a v allowed) in
      rw stepped (run-Sound actions r s (rw stepped at later))
