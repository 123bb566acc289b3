-- ===== src/Hrc/System/Hand.antt =====
-- The master takes a task in hand with a message, and puts it in another place.
use my_lpel.Common.{
  ℕ, suc, ◌+◌, ◌<◌, ◌≡◌, ◌≢◌, Bool, true, false, not, List, ◌∷◌, ltb, ◌==◌, if◌then◌else◌, hit,
  arith, update, ==-ne, Double, Ptr, null,
}
use my_lpel.ReadyQueue.{ReadyQueue}
use my_lpel.Hrc.World.{TaskState, is_returned, ready, zombie, created, returned, inqueue}
use my_lpel.Hrc.Priority.{Settings}
use my_lpel.Hrc.Master.{Msg, wakeup, assign, request, return, Master}
use my_lpel.Hrc.Master.Invariant.{Inv}
use my_lpel.Hrc.System.{Phase}
use my_lpel.Hrc.System.Sound.{
  one, count, times, assigns, returns, wakes_null, task_on, is_stopped, Tokens, Hosts,
}

module _ {D : Type 0} ⦃d : Double D⦄ (Q : ReadyQueue D) (c : Settings D) where
  -- the master has task `t` in hand, and all other tasks are in one place each
  pub record InHand (mb : List Msg) (m : Master Q c) (started : Ptr → Bool) (dest host : Ptr → ℕ)
      (t : Ptr) : Type 0 where
    pub nonnull : t ≢ null
    pub token :
        (x : Ptr)
        → count (assigns x) mb
            + count (returns x) mb
            + (if x == t then 0 else Q.holds m.ready_tasks x + one (is_returned (m.state x)))
            + times x m.destroyed
            + one (ltb 0 (dest x))
            + one (ltb 0 (host x))
            + one (not (started x))
            + hit x t
          ≡ 1
    pub new : (x : Ptr) → 0 < count (assigns x) mb + one (not (started x)) → m.state x ≡ created
    pub back : (x : Ptr) → 0 < count (returns x) mb → is_stopped (m.state x) ≡ true
    pub sent : (x : Ptr) → 0 < dest x → m.state x ≡ ready
    pub null_new : started null ≡ false
    pub null_wake : count wakes_null mb ≡ 0

  -- a message that is taken from the mailbox with its task
  pub take_assign :
      {mb : List Msg} {m : Master Q c} {started : Ptr → Bool} {dest host : Ptr → ℕ} {t : Ptr}
      → Inv Q c m
      → Tokens Q c (assign t ∷ mb) m started dest host
      → InHand mb m started dest host t × (m.state t ≡ created)
  unfolding count
  take_assign {mb} {m} {started} {dest} {host} {t} inv v =
      let now : m.state t ≡ created = v.new t (ground arith) in
      (
        record {
          nonnull = λ e. ground (arith, v.token null, v.null_new, e);
          token = λ x. ground (arith, v.token x, inv.queued x, now);
          new = λ x h. v.new x (ground arith);
          back = λ x h. v.back x (ground arith);
          sent = v.sent;
          null_new = v.null_new;
          null_wake = ground (arith, v.null_wake);
        },
        now,
      )

  pub take_return :
      {mb : List Msg} {m : Master Q c} {started : Ptr → Bool} {dest host : Ptr → ℕ} {t : Ptr}
      → Inv Q c m
      → Tokens Q c (return t ∷ mb) m started dest host
      → InHand mb m started dest host t × (is_stopped (m.state t) ≡ true)
  unfolding count
  take_return {mb} {m} {started} {dest} {host} {t} inv v =
      let now : is_stopped (m.state t) ≡ true = v.back t (ground arith) in
      (
        record {
          nonnull = λ e. ground (arith, v.token null, v.null_new, e);
          token = λ x. ground (arith, v.token x, inv.queued x, now);
          new = λ x h. v.new x (ground arith);
          back = λ x h. v.back x (ground arith);
          sent = v.sent;
          null_new = v.null_new;
          null_wake = ground (arith, v.null_wake);
        },
        now,
      )

  pub take_wakeup :
      {mb : List Msg} {m : Master Q c} {started : Ptr → Bool} {dest host : Ptr → ℕ} {t : Ptr}
      → Inv Q c m
      → m.state t ≡ returned
      → Tokens Q c (wakeup t ∷ mb) m started dest host
      → InHand mb m started dest host t
  unfolding count
  take_wakeup {mb} {m} {started} {dest} {host} {t} inv now v = record {
    nonnull = λ e. ground (arith, v.null_wake, e);
    token = λ x. ground (arith, v.token x, inv.queued x, now);
    new = λ x h. v.new x (ground arith);
    back = λ x h. v.back x (ground arith);
    sent = v.sent;
    null_new = v.null_new;
    null_wake = ground (arith, v.null_wake);
  }

  -- the best task of the queue
  pub take_queued :
      {mb : List Msg} {m : Master Q c} {started : Ptr → Bool} {dest host : Ptr → ℕ} {t : Ptr}
      {i : ℕ}
      → Inv Q c m
      → 0 < Q.holds m.ready_tasks t
      → Tokens Q c (request i ∷ mb) m started dest host
      → InHand mb m started dest host t
  unfolding count
  take_queued {mb} {m} {started} {dest} {host} {t} inv held v = record {
    nonnull = λ e. ground (arith, held, inv.queued t, inv.null_out, e);
    token = λ x. ground (arith, v.token x, inv.queued x, held, inv.queued t);
    new = λ x h. v.new x (ground arith);
    back = λ x h. v.back x (ground arith);
    sent = v.sent;
    null_new = v.null_new;
    null_wake = ground (arith, v.null_wake);
  }

  module _ {mb : List Msg} {m r : Master Q c} {started : Ptr → Bool} {dest host : Ptr → ℕ} {t : Ptr}
      (v : InHand mb m started dest host t) (inv : Inv Q c m) (inv' : Inv Q c r) where
    pub given-Tokens :
        (i : ℕ)
        → r.destroyed ≡ m.destroyed
        → ((x : Ptr) → r.state x ≡ update m.state t ready x)
        → Tokens Q c mb r started (update dest t (suc i)) host
    given-Tokens i same now = record {
      token = λ x. rw same (ground (arith, v.token x, inv.queued x, inv'.queued x, now x));
      new = λ x h. ground (arith, v.new x h, v.token x, now x);
      back = λ x h. ground (arith, v.back x h, v.token x, now x);
      sent = λ x h. ground (arith, v.sent x, now x);
      null_new = v.null_new;
      null_wake = v.null_wake;
    }

    pub kept-Tokens :
        r.destroyed ≡ m.destroyed
        → ((x : Ptr) → r.state x ≡ update m.state t inqueue x)
        → Tokens Q c mb r started dest host
    kept-Tokens same now = record {
      token = λ x. rw same (ground (arith, v.token x, inv.queued x, inv'.queued x, now x));
      new = λ x h. ground (arith, v.new x h, v.token x, now x);
      back = λ x h. ground (arith, v.back x h, v.token x, now x);
      sent = λ x h. ground (arith, v.sent x h, v.token x, now x);
      null_new = v.null_new;
      null_wake = v.null_wake;
    }

    pub parked-Tokens :
        r.destroyed ≡ m.destroyed
        → ((x : Ptr) → r.state x ≡ update m.state t returned x)
        → Tokens Q c mb r started dest host
    parked-Tokens same now = record {
      token = λ x. rw same (ground (arith, v.token x, inv.queued x, inv'.queued x, now x));
      new = λ x h. ground (arith, v.new x h, v.token x, now x);
      back = λ x h. ground (arith, v.back x h, v.token x, now x);
      sent = λ x h. ground (arith, v.sent x h, v.token x, now x);
      null_new = v.null_new;
      null_wake = v.null_wake;
    }

    pub freed-Tokens :
        r.destroyed ≡ t ∷ m.destroyed
        → m.state t ≡ zombie
        → r.state ≡ m.state
        → Tokens Q c mb r started dest host
    unfolding times
    freed-Tokens grown dead same = record {
      token = λ x.
          rw (grown, same)
            (ground (arith, v.token x, inv.queued x, (rw same at inv'.queued x), dead));
      new = λ x h. rw same (v.new x h);
      back = λ x h. rw same (v.back x h);
      sent = λ x h. rw same (v.sent x h);
      null_new = v.null_new;
      null_wake = v.null_wake;
    }

    -- the tasks on the workers are others
    pub Hosts-others :
        {n : ℕ} {workers : ℕ → Ptr} {worker_context : Ptr → Ptr} {phase : ℕ → Phase}
        → (s : TaskState) → ((x : Ptr) → r.state x ≡ update m.state t s x)
        → Hosts Q c n m workers worker_context phase host
        → Hosts Q c n r workers worker_context phase host
    Hosts-others {phase} s now h = record {
      on_host = h.on_host;
      host_on = h.host_on;
      state = λ j inside real.
          let other : task_on (phase j) ≢ t =
            λ e. ground (arith, h.on_host j inside real, v.token t, e) in
          rw (now (task_on (phase j)), ==-ne _ t other) (h.state j inside real);
      real = h.real;
      hosted = h.hosted;
      free = h.free;
    }
