-- ===== src/Hrc/System/Work.antt =====
-- The steps of a worker keep what holds of the threads together.
use my_lpel.Common.{
  ℕ, suc, ◌<◌, ◌≡◌, ◌≢◌, refl, sym, ◌∙◌, Bool, true, false, List, arith, Yields, yields, update,
  update-all, ==-refl, ==-ne, Double, Ptr, null,
}
use my_lpel.ReadyQueue.{ReadyQueue}
use my_lpel.Hrc.World.{TaskState, is_returned, running, is_running, is_inqueue}
use my_lpel.Hrc.Priority.{Settings}
use my_lpel.Hrc.Master.{Msg, request, Master, set_state}
use my_lpel.Hrc.Master.Invariant.{set_state-Inv}
use my_lpel.Hrc.Threads.{Limits, set_task, request_task, to_master, task_start}
use my_lpel.Hrc.System.{
  Choice, Phase, starts, receives, dispatched, runs, stopped, System, moved, worker_step,
}
use my_lpel.Hrc.System.Sound.{
  is_working, is_ending, is_inside, has_task, task_on, suits, may_sleep, Tokens, Hosts, Sound,
}
use my_lpel.Hrc.System.Current.{Currents-move}
use my_lpel.Hrc.System.Woken.{Marks-carry, Marks-state}
use my_lpel.Hrc.System.Ask.{Tokens-carry, Turns-ask, Turns-move, Boxes-move}

module _ {D : Type 0} ⦃d : Double D⦄ (Q : ReadyQueue D) (c : Settings D) where
  -- a move of a worker that keeps its task
  pub Hosts-keep :
      {n : ℕ} {m : Master Q c} {workers : ℕ → Ptr} {worker_context : Ptr → Ptr} {phase : ℕ → Phase}
      {host : Ptr → ℕ}
      → (i : ℕ) (p : Phase) → task_on p ≡ task_on (phase i)
      → (task_on p ≢ null → suits p (m.state (task_on p)) ≡ true)
      → (has_task p ≡ true → task_on p ≢ null)
      → Hosts Q c n m workers worker_context phase host
      → Hosts Q c n m workers worker_context (update phase i p) host
  Hosts-keep {n} {m} {phase} {host} i p same fits real v = record {
    on_host =
        update-all (λ j q. j < n → task_on q ≢ null → host (task_on q) ≡ suc j) phase i p
          (rw same (v.on_host i)) λ j ne. v.on_host j;
    host_on = λ t.
        update-all (λ j q. host t ≡ suc j → (j < n) × (task_on q ≡ t)) phase i p
          (rw same (v.host_on t i)) λ j ne. v.host_on t j;
    state =
        update-all (λ j q. j < n → task_on q ≢ null → suits q (m.state (task_on q)) ≡ true) phase i
          p (λ h. fits) λ j ne. v.state j;
    real =
        update-all (λ j q. j < n → has_task q ≡ true → task_on q ≢ null) phase i p (λ h. real)
          λ j ne. v.real j;
    hosted = v.hosted;
    free = v.free;
  }

  -- the task of worker `i` gets a new state
  pub Tokens-state :
      {mb : List Msg} {m : Master Q c} {started : Ptr → Bool} {dest host : Ptr → ℕ}
      → (t : Ptr) (s : TaskState) → 0 < host t
      → is_returned (m.state t) ≡ false
      → is_returned s ≡ false
      → Tokens Q c mb m started dest host
      → Tokens Q c mb (set_state Q c m t s) started dest host
  unfolding set_state
  Tokens-state t s on out out' v = record {
    token = λ x. ground (arith, v.token x);
    new = λ x h. ground (arith, v.new x h, v.token x);
    back = λ x h. ground (arith, v.back x h, v.token x);
    sent = λ x h. ground (arith, v.sent x h, v.token x);
    null_new = v.null_new;
    null_wake = v.null_wake;
  }

  pub Hosts-state :
      {n : ℕ} {m : Master Q c} {workers : ℕ → Ptr} {worker_context : Ptr → Ptr} {phase : ℕ → Phase}
      {host : Ptr → ℕ}
      → (i : ℕ) (t : Ptr) (s : TaskState) (p : Phase) → i < n
      → t ≢ null
      → task_on (phase i) ≡ t
      → task_on p ≡ t
      → suits p s ≡ true
      → Hosts Q c n m workers worker_context phase host
      → Hosts Q c n (set_state Q c m t s) workers worker_context (update phase i p) host
  unfolding set_state
  Hosts-state {n} {m} {phase} {host} i t s p inside ne before after fits v = record {
    on_host =
        update-all (λ j q. j < n → task_on q ≢ null → host (task_on q) ≡ suc j) phase i p
          (rw (after, ← before) (v.on_host i)) λ j ne. v.on_host j;
    host_on = λ x.
        update-all (λ j q. host x ≡ suc j → (j < n) × (task_on q ≡ x)) phase i p
          (rw (after, ← before) (v.host_on x i)) λ j ne. v.host_on x j;
    state =
        update-all
          (λ j q. j < n → task_on q ≢ null → suits q (update m.state t s (task_on q)) ≡ true) phase
          i p (rw (after, ==-refl t) λ h a. fits)
          λ j other h real.
            let apart : task_on (phase j) ≢ t = λ e.
              other (
                ground (arith, v.on_host j h real, v.on_host i inside (rw before ne), e, before)) in
            rw (==-ne (task_on (phase j)) t apart) (v.state j h real);
    real =
        update-all (λ j q. j < n → has_task q ≡ true → task_on q ≢ null) phase i p
          (λ h a. rw after ne) λ j ne. v.real j;
    hosted = v.hosted;
    free = v.free;
  }

  module _ (sys : System Q c) (v : Sound Q c sys) (i : ℕ)
      (inside : i < sys.shared.master.num_workers) (choice : Choice) where
    pub starts-Sound :
        sys.phase i ≡ starts → Yields (Sound Q c) (worker_step Q c sys i choice starts)
    unfolding worker_step request_task to_master moved
    starts-Sound e = rw (v.boxes.wid i inside) (
        yields (record {
          dest = v.dest;
          host = v.host;
          box = v.box;
          inv = v.inv;
          sent = v.sent;
          marks = Marks-carry (request i) v.marks;
          tokens = Tokens-carry Q c (request i) (λ t. refl) (λ t. refl) refl v.tokens;
          turns = Turns-ask Q c i inside receives (rw e) refl v.turns;
          boxes = Boxes-move Q c i receives (rw e) v.boxes;
          hosts = Hosts-keep i receives (rw e) (λ ne. absurd (ne refl)) (λ e. cc) v.hosts;
          current =
              Currents-move i receives inside v.boxes.apart (λ q ne. refl) (λ a. cc) v.current;
        }))

    -- a task changes state on its worker
    pub state-Sound :
        (lim : Ptr → Limits) (wok : Ptr → Bool) (t : Ptr) (x : TaskState) (p : Phase)
        → task_on (sys.phase i) ≡ t
        → t ≢ null
        → task_on p ≡ t
        → is_working p ≡ is_working (sys.phase i)
        → is_ending p ≡ is_ending (sys.phase i)
        → (is_inside p ≡ true → is_inside (sys.phase i) ≡ true)
        → suits p x ≡ true
        → is_inqueue (sys.shared.master.state t) ≡ false
        → is_returned (sys.shared.master.state t) ≡ false
        → is_inqueue x ≡ false
        → is_returned x ≡ false
        → ((y : Ptr) → wok y ≡ true → sys.woken y ≡ true)
        → (wok t ≡ true → may_sleep x ≡ true → may_sleep (sys.shared.master.state t) ≡ true)
        → Sound Q c
            (record (moved Q c sys i p (set_task Q c (record sys.shared { limits = lim }) t x)) {
              woken = wok;
            })
    unfolding set_task moved set_state
    state-Sound lim wok t x p on ne on' work end within fits a b a' b' older sleeps =
        let hosted : v.host t ≡ suc i = rw (← on) (v.hosts.on_host i inside (rw on ne)) in
        record {
          dest = v.dest;
          host = v.host;
          box = v.box;
          inv = set_state-Inv Q c sys.shared.master t x v.inv a a';
          sent = v.sent;
          marks = Marks-state wok t x b' older sleeps v.marks;
          tokens = Tokens-state t x (ground arith) b b' v.tokens;
          turns = Turns-move Q c i p work v.turns;
          boxes = Boxes-move Q c i p end v.boxes;
          hosts = Hosts-state i t x p inside ne on on' fits v.hosts;
          current =
              Currents-move i p inside v.boxes.apart (λ q ne. refl)
                (λ a. v.current.task i inside (within a) ∙ on ∙ sym on') v.current;
        }

    -- the task that worker `i` runs is a real one, in a state that suits
    pub real_task :
        (t : Ptr) (p : Phase)
        → sys.phase i ≡ p
        → task_on p ≡ t
        → has_task p ≡ true
        → (t ≢ null) × (suits p (sys.shared.master.state t) ≡ true)
    real_task t p e on work =
        let ne : task_on (sys.phase i) ≢ null = v.hosts.real i inside (rw e work) in
        (rw (← on, ← e) ne, rw (← on, ← e) (v.hosts.state i inside ne))

    -- the task of worker `i` passes to another phase and state
    advance :
        (lim : Ptr → Limits) (wok : Ptr → Bool) (t : Ptr) (x : TaskState) (before p : Phase)
        → sys.phase i ≡ before
        → task_on before ≡ t
        → is_working before ≡ true
        → has_task before ≡ true
        → is_ending before ≡ false
        → task_on p ≡ t
        → is_working p ≡ true
        → is_ending p ≡ false
        → is_inside before ≡ true
        → suits p x ≡ true
        → ((s : TaskState)
            → suits before s ≡ true
            → (is_inqueue s ≡ false)
              × (is_returned s ≡ false)
              × (wok t ≡ true → may_sleep x ≡ true → may_sleep s ≡ true))
        → ((y : Ptr) → wok y ≡ true → sys.woken y ≡ true)
        → is_inqueue x ≡ false
        → is_returned x ≡ false
        → Sound Q c
            (record (moved Q c sys i p (set_task Q c (record sys.shared { limits = lim }) t x)) {
              woken = wok;
            })
    advance lim wok t x before p e on work late going on' work' going' within fits out older a b =
        let (ne, fits') = real_task t before e on late in
        let (a', b', sleeps) = out _ fits' in
        state-Sound lim wok t x p (rw (e, on)) ne on' (rw (e, work) work') (rw (e, going) going')
          (λ h. rw e within) fits a' b' a b older sleeps

    pub dispatched-Sound :
        (t : Ptr)
        → sys.phase i ≡ dispatched t
        → Yields (Sound Q c) (worker_step Q c sys i choice (dispatched t))
    unfolding worker_step task_start
    dispatched-Sound t e =
        let (ne, fits) = real_task t (dispatched t) e refl refl in
        rw fits (
          yields (
            advance _ (update sys.woken t false) t running (dispatched t) (runs t) e refl refl refl
              refl refl refl refl refl refl
              (λ s h. (ground arith, ground arith, λ z. ground (arith, z)))
              (λ y z. ground (arith, z)) refl refl))

    pub stops-Sound :
        (t : Ptr) (how : Choice) (x : TaskState)
        → sys.phase i ≡ runs t
        → suits (stopped t how) x ≡ true
        → is_inqueue x ≡ false
        → is_returned x ≡ false
        → (is_running (sys.shared.master.state t) ≡ true)
          × Sound Q c (moved Q c sys i (stopped t how) (set_task Q c sys.shared t x))
    unfolding moved
    stops-Sound t how x e fits a b =
        let (ne, runs_now) = real_task t (runs t) e refl refl in
        (
          ground (arith, runs_now),
          advance sys.shared.limits sys.woken t x (runs t) (stopped t how) e refl refl refl refl
              refl refl refl refl fits (λ s h. (ground arith, ground arith, λ z z'. ground arith))
              (λ y z. z) a b,
        )
