-- ===== src/Hrc/System/Switch.antt =====
-- A worker and its task switch: the worker has asked for another task, and returns this one.
use my_lpel.Common.{
  ℕ, suc, ◌<◌, ◌≡◌, refl, true, false, arith, Yields, yields, update, ok, ==-ne, Double, Ptr, null,
}
use my_lpel.ReadyQueue.{ReadyQueue}
use my_lpel.Hrc.World.{TaskState, is_running}
use my_lpel.Hrc.Priority.{Settings}
use my_lpel.Hrc.Master.{request, return}
use my_lpel.Hrc.Threads.{
  Shared, set_context, set_current, request_task, return_task, to_master, context_of,
  worker_task_exit, worker_task_block, worker_task_yield, worker_back,
}
use my_lpel.Hrc.System.{
  Choice, exits, blocks, gives_up, wakes, receives, stopped, left, System, moved, worker_step,
  switch_back,
}
use my_lpel.Hrc.System.Sound.{task_on, is_stopped, suits, Sound}
use my_lpel.Hrc.System.Current.{Currents-move}
use my_lpel.Hrc.System.Woken.{Marks-carry}
use my_lpel.Hrc.System.Ask.{Tokens-carry, Turns-ask, Turns-carry, Turns-move, Boxes-move}
use my_lpel.Hrc.System.Work.{Hosts-keep, real_task}
use my_lpel.Hrc.System.Leave.{Boxes-context, same_mailbox, same_wid, Hosts-release, Tokens-return}

module _ {D : Type 0} ⦃d : Double D⦄ (Q : ReadyQueue D) (c : Settings D) where
  -- `worker_task_exit`, `worker_task_block` and `worker_task_yield` do the same on a worker
  asked : Shared Q c → Ptr → ℕ → Shared Q c
  asked s p i = set_current Q c (to_master Q c s (request i)) p null

  module _ (sys : System Q c) (v : Sound Q c sys) (i : ℕ)
      (inside : i < sys.shared.master.num_workers) where
    asked-Sound :
        (t : Ptr) (how : Choice)
        → sys.phase i ≡ stopped t how
        → Sound Q c (moved Q c sys i (left t) (asked sys.shared (sys.shared.workers i) i))
    unfolding asked moved set_current set_context to_master
    asked-Sound t how e =
        let (ne, fits) = real_task Q c sys v i inside exits t (stopped t how) e refl refl in
        record {
          dest = v.dest;
          host = v.host;
          box = v.box;
          inv = v.inv;
          sent = v.sent;
          marks = Marks-carry (request i) v.marks;
          tokens = Tokens-carry Q c (request i) (λ t. refl) (λ t. refl) refl v.tokens;
          turns = Turns-ask Q c i inside (left t) (rw e) refl v.turns;
          boxes =
              Boxes-context Q c (same_mailbox Q c sys.shared.context (sys.shared.workers i) _ refl)
                (same_wid Q c sys.shared.context (sys.shared.workers i) _ refl)
                (Boxes-move Q c i (left t) (rw e) v.boxes);
          hosts =
              Hosts-keep Q c i (left t) (rw e) (λ a. stopped_suits how _ fits) (λ a. ne) v.hosts;
          current =
              Currents-move i (left t) inside v.boxes.apart
                (λ q far. rw (==-ne q (sys.shared.workers i) far) refl) (λ a. cc) v.current;
        }
      where
        stopped_suits :
            (how : Choice) (s : TaskState) → suits (stopped t how) s ≡ true → is_stopped s ≡ true
        stopped_suits exits s h = ground (arith, h)
        stopped_suits blocks s h = ground (arith, h)
        stopped_suits gives_up s h = ground (arith, h)
        stopped_suits (wakes x) s h = cc

    context_here :
        (t : Ptr) (how : Choice)
        → sys.phase i ≡ stopped t how
        → context_of Q c sys.shared t ≡ ok (sys.shared.workers i)
    unfolding context_of
    context_here t how e =
        let (ne, fits) = real_task Q c sys v i inside exits t (stopped t how) e refl refl in
        let place : v.host t ≡ suc i = rw e at (v.hosts.on_host i inside (rw e ne)) in
        rw (v.hosts.hosted t i place, ==-ne _ null (v.boxes.nonnull i inside))

    pub stopped-Sound :
        (t : Ptr) (how choice : Choice)
        → sys.phase i ≡ stopped t how
        → Yields (Sound Q c) (worker_step Q c sys i choice (stopped t how))
    unfolding worker_step switch_back worker_task_exit worker_task_block worker_task_yield
        request_task asked
    stopped-Sound t exits choice e =
        rw (context_here t exits e, v.boxes.wid i inside) (yields (asked-Sound t exits e))
    stopped-Sound t blocks choice e =
        rw (context_here t blocks e, v.boxes.wid i inside) (yields (asked-Sound t blocks e))
    stopped-Sound t gives_up choice e =
        rw (context_here t gives_up e, v.boxes.wid i inside) (yields (asked-Sound t gives_up e))
    stopped-Sound t (wakes x) choice e =
        let (ne, fits) = real_task Q c sys v i inside exits t (stopped t (wakes x)) e refl refl in
        absurd cc

    pub left-Sound :
        (t : Ptr) (choice : Choice)
        → sys.phase i ≡ left t
        → Yields (Sound Q c) (worker_step Q c sys i choice (left t))
    unfolding worker_step worker_back return_task to_master moved set_current set_context
    left-Sound t choice e =
        let (ne, fits) = real_task Q c sys v i inside exits t (left t) e refl refl in
        let on : task_on (sys.phase i) ≡ t = rw e in
        let place : v.host t ≡ suc i = rw e at (v.hosts.on_host i inside (rw e ne)) in
        let stopped_now : is_running (sys.shared.master.state t) ≡ false = ground (arith, fits) in
        rw stopped_now (
          yields (record {
            dest = v.dest;
            host = update v.host t 0;
            box = v.box;
            inv = v.inv;
            sent = v.sent;
            marks = Marks-carry (return t) v.marks;
            tokens = Tokens-return Q c t (omega (arith, place)) fits v.tokens;
            turns =
                Turns-carry Q c (return t) (λ j. refl) (Turns-move Q c i receives (rw e) v.turns);
            boxes =
                Boxes-context Q c
                  (same_mailbox Q c sys.shared.context (sys.shared.workers i) _ refl)
                  (same_wid Q c sys.shared.context (sys.shared.workers i) _ refl)
                  (Boxes-move Q c i receives (rw e) v.boxes);
            hosts = Hosts-release Q c i t inside ne on v.hosts;
            current =
                Currents-move i receives inside v.boxes.apart
                  (λ q far. rw (==-ne q (sys.shared.workers i) far) refl) (λ a. cc) v.current;
          }))
