-- ===== src/Hrc/System/Leave.antt =====
-- A running task wakes another, or leaves its worker.
use my_lpel.Common.{
  ℕ, zero, suc, ◌<◌, ◌≡◌, ◌≢◌, refl, inl, inr, Bool, true, List, [], ◌∷◌, ◌++◌, ◌==◌, arith, Yields,
  yields, update, update-all, Bool-cases, ==-ne, ==-true, Double, Ptr, null,
}
use my_lpel.ReadyQueue.{ReadyQueue}
use my_lpel.Hrc.World.{ready, blocked, zombie}
use my_lpel.Hrc.Priority.{Settings}
use my_lpel.Hrc.Master.{Msg, wakeup, return, Master}
use my_lpel.Hrc.Threads.{
  Context, to_master, exit, task_yield, block_stream, unblock, deref, worker_task_wakeup,
  wake_master,
}
use my_lpel.Hrc.System.{
  Choice, exits, blocks, gives_up, wakes, Phase, receives, runs, System, run_choice, Named,
}
use my_lpel.Hrc.System.Sound.{
  count-snoc, assigns, returns, wakes_null, has_task, task_on, is_stopped, suits, Tokens, Boxes,
  Hosts, Sound,
}
use my_lpel.Hrc.System.Woken.{Marks-wake}
use my_lpel.Hrc.System.Ask.{Tokens-carry, Turns-carry}
use my_lpel.Hrc.System.Work.{stops-Sound}

module _ {D : Type 0} ⦃d : Double D⦄ (Q : ReadyQueue D) (c : Settings D) where
  -- contexts whose mailbox and index are as before
  pub Boxes-context :
      {n : ℕ} {context context' : Ptr → Context} {workers : ℕ → Ptr} {over : Bool}
      {phase : ℕ → Phase} {dest : Ptr → ℕ} {box : ℕ → Ptr}
      → ((p : Ptr) → (context' p).mailbox ≡ (context p).mailbox)
      → ((p : Ptr) → (context' p).wid ≡ (context p).wid)
      → Boxes Q c n context workers over phase dest box
      → Boxes Q c n context' workers over phase dest box
  Boxes-context {workers} same_box same_wid v = record {
    box_dest = v.box_dest;
    dest_box = v.dest_box;
    mailbox = λ i h. rw (same_box (workers i)) (v.mailbox i h);
    wid = λ i h. rw (same_wid (workers i)) (v.wid i h);
    apart = v.apart;
    nonnull = v.nonnull;
    early = v.early;
  }

  pub same_mailbox :
      (context : Ptr → Context) (p : Ptr) (x : Context)
      → x.mailbox ≡ (context p).mailbox
      → (q : Ptr) → (update context p x q).mailbox ≡ (context q).mailbox
  same_mailbox context p x same q = elim (Bool-cases (q == p)) [
    | inl e ↦ rw (e, ==-true q p e) same
    | inr ne ↦ rw ne refl
  ]

  pub same_wid :
      (context : Ptr → Context) (p : Ptr) (x : Context)
      → x.wid ≡ (context p).wid
      → (q : Ptr) → (update context p x q).wid ≡ (context q).wid
  same_wid context p x same q = elim (Bool-cases (q == p)) [
    | inl e ↦ rw (e, ==-true q p e) same
    | inr ne ↦ rw ne refl
  ]

  -- the task of a worker has been returned
  pub Hosts-release :
      {n : ℕ} {m : Master Q c} {workers : ℕ → Ptr} {worker_context : Ptr → Ptr} {phase : ℕ → Phase}
      {host : Ptr → ℕ}
      → (i : ℕ) (t : Ptr) → i < n
      → t ≢ null
      → task_on (phase i) ≡ t
      → Hosts Q c n m workers worker_context phase host
      → Hosts Q c n m workers
          (update worker_context t null)
          (update phase i receives)
          (update host t 0)
  Hosts-release {n} {m} {workers} {worker_context} {phase} {host} i t inside ne on v =
      let place : host t ≡ suc i = rw (← on) (v.on_host i inside (rw on ne)) in
      record {
        on_host =
            update-all (λ j q. j < n → task_on q ≢ null → update host t 0 (task_on q) ≡ suc j) phase
              i receives (λ h a. absurd (a refl))
              λ j other h a. ground (arith, v.on_host j h a, place);
        host_on = λ x.
            update-all (λ j q. update host t 0 x ≡ suc j → (j < n) × (task_on q ≡ x)) phase i
              receives (λ h. ground (arith, v.host_on x i, place, on))
              λ j other h. v.host_on x j (ground arith);
        state =
            update-all (λ j q. j < n → task_on q ≢ null → suits q (m.state (task_on q)) ≡ true)
              phase i receives (λ h a. refl) λ j other. v.state j;
        real =
            update-all (λ j q. j < n → has_task q ≡ true → task_on q ≢ null) phase i receives
              (λ h a. cc) λ j other. v.real j;
        hosted = λ x j h. elim (Bool-cases (x == t)) [
          | inl e ↦ absurd (ground (arith))
          | inr other ↦ rw other (v.hosted x j (rw other at h))
        ];
        free = λ x h. ground (arith, v.free x);
      }

  pub Tokens-return :
      {mb : List Msg} {m : Master Q c} {started : Ptr → Bool} {dest host : Ptr → ℕ}
      → (t : Ptr) → 0 < host t
      → is_stopped (m.state t) ≡ true
      → Tokens Q c mb m started dest host
      → Tokens Q c (mb ++ (return t ∷ [])) m started dest (update host t 0)
  Tokens-return {mb} t on stopped_now v = record {
    token = λ x. ground (
      arith,
      v.token x,
      count-snoc (assigns x) mb (return t),
      count-snoc (returns x) mb (return t),
    );
    new = λ x h. v.new x (ground (arith, count-snoc (assigns x) mb (return t)));
    back = λ x h. elim (Bool-cases (x == t)) [
      | inl e ↦ rw (==-true x t e) stopped_now
      | inr other ↦ v.back x (ground (arith, count-snoc (returns x) mb (return t)))
    ];
    sent = v.sent;
    null_new = v.null_new;
    null_wake = ground (arith, v.null_wake, count-snoc wakes_null mb (return t));
  }

  module _ (sys : System Q c) (v : Sound Q c sys) (i : ℕ)
      (inside : i < sys.shared.master.num_workers) where
    woken_from :
        (x : Ptr) (k : ℕ)
        → v.host x ≡ k
        → worker_task_wakeup Q c sys.shared x ≡ wake_master Q c sys.shared x
    unfolding worker_task_wakeup
    woken_from x zero e = rw (v.hosts.free x e)
    woken_from x (suc j) e =
        let (h, on) = v.hosts.host_on x j e in
        rw (v.hosts.hosted x j e, v.boxes.wid j h) (ground arith)

    wakes-Sound :
        (x : Ptr)
        → x ≢ null
        → Sound Q c
            (record sys { shared = wake_master Q c sys.shared x; woken = update sys.woken x true })
    unfolding wake_master to_master
    wakes-Sound x ne = record {
      dest = v.dest;
      host = v.host;
      box = v.box;
      inv = v.inv;
      sent = v.sent;
      marks = Marks-wake x v.marks;
      tokens = Tokens-carry Q c (wakeup x) (λ t. refl) (λ t. refl) (==-ne x null ne) v.tokens;
      turns = Turns-carry Q c (wakeup x) (λ j. refl) v.turns;
      boxes = v.boxes;
      hosts = v.hosts;
      current = v.current;
    }

    pub runs-Sound :
        (t : Ptr) (choice : Choice)
        → Named sys.shared.master.destroyed choice
        → sys.phase i ≡ runs t
        → Yields (Sound Q c) (run_choice Q c sys i t choice)
    unfolding run_choice exit block_stream task_yield unblock deref
    runs-Sound t exits named e =
        let (now, s) = stops-Sound Q c sys v i inside exits t exits zombie e refl refl refl in
        rw now (yields s)
    runs-Sound t blocks named e =
        let (now, s) = stops-Sound Q c sys v i inside exits t blocks blocked e refl refl refl in
        rw now (yields s)
    runs-Sound t gives_up named e =
        let (now, s) = stops-Sound Q c sys v i inside exits t gives_up ready e refl refl refl in
        rw now (yields s)
    runs-Sound t (wakes x) (ne, live) e =
        rw (==-ne x null ne, live, woken_from x (v.host x) refl) (yields (wakes-Sound x ne))
