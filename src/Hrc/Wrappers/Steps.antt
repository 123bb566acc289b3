-- ===== src/Hrc/Wrappers/Steps.antt =====
-- The steps of a wrapper keep what holds of it, each by its phase.
use my_lpel.Common.{
  ◌≡◌, ◌≢◌, inl, inr, refl, true, false, [], ok, Yields, yields, ==-refl, ==-ne, ==-true, ==-false,
  Bool-cases, ◌==◌, Double, Ptr, null,
}
use my_lpel.ReadyQueue.{ReadyQueue}
use my_lpel.Hrc.World.{created, ready, zombie, running, blocked, World}
use my_lpel.Hrc.Priority.{Settings}
use my_lpel.Hrc.Master.{wakeup, assign, set_state, destroy}
use my_lpel.Hrc.Threads.{
  Shared, is_negative, set_context, set_task, set_current, wrapper_receive, task_start, exit,
  block_stream, task_yield, worker_task_exit, worker_task_block, worker_task_yield, context_of,
  task_destroy, add_free_wrapper,
}
use my_lpel.Hrc.System.{
  Choice, exits, blocks, gives_up, wakes, Phase, receives, dispatched, runs, stopped, left, ends,
}
use my_lpel.Hrc.Wrappers.{receive, loop_top, run_choice, switch_back, loop_end, wrapper_step, May}
use my_lpel.Hrc.Wrappers.Wake.{unblock-ok, wake-IsWrapper, other-IsWrapper}
use my_lpel.Hrc.Wrappers.Sound.{
  Mail, At, begins, sleeps, waits, works, blocking, exiting, exited, over, IsWrapper,
}

module _ {D : Type 0} ⦃d : Double D⦄ (Q : ReadyQueue D) (c : Settings D) (ctx t : Ptr) where
  -- what all steps but the last rely on
  pub record Base (s : Shared Q c) : Type 0 where
    pub nonnull : (ctx ≢ null) × (t ≢ null)
    pub mine : s.worker_context t ≡ ctx
    pub wid : is_negative (s.context ctx).wid ≡ true

  pub going :
      (s : Shared Q c) (p : Phase)
      → Base s
      → At Q c ctx t (s.context ctx) (s.master.state t) p
      → p ≢ ends
      → IsWrapper Q c ctx t (record { shared = s; phase = p })
  going s p b at ne = record {
    nonnull = b.nonnull;
    mine = b.mine;
    wid = b.wid;
    at = at;
    freed = λ e. absurd (ne e);
  }

  module _ (s : Shared Q c) (b : Base s) (w : World) (choice : Choice) where
    pub loop_new :
        s.master.state t ≡ created
        → (s.context ctx).current_task ≡ null
        → (s.context ctx).terminate ≡ false
        → Mail Q c ctx t (s.context ctx).mailbox (assign t)
        → Yields (IsWrapper Q c ctx t) (loop_top Q c s ctx)
    unfolding loop_top receive wrapper_receive set_context set_task set_state set_current
    loop_new state cur term (inl empty) =
        rw (cur, empty)
          (yields (going s receives b (rw state (begins (inr refl) cur term (inl empty))) λ e. cc))
    loop_new state cur term (inr full) =
        rw (cur, full, state)
          (yields (
            going _ receives
              (record { nonnull = b.nonnull; mine = b.mine; wid = rw (==-refl ctx) b.wid })
              (rw (==-refl ctx, ==-refl t) (waits (inl refl) refl term (inl refl))) λ e. cc))

    pub loop_asleep :
        s.master.state t ≡ blocked
        → (s.context ctx).current_task ≡ null
        → (s.context ctx).terminate ≡ false
        → Mail Q c ctx t (s.context ctx).mailbox (wakeup t)
        → Yields (IsWrapper Q c ctx t) (loop_top Q c s ctx)
    unfolding loop_top receive wrapper_receive set_context set_task set_state set_current
    loop_asleep state cur term (inl empty) =
        rw (cur, empty)
          (yields (going s receives b (rw state (sleeps (inl refl) cur term (inl empty))) λ e. cc))
    loop_asleep state cur term (inr full) =
        rw (cur, full, state)
          (yields (
            going _ receives
              (record { nonnull = b.nonnull; mine = b.mine; wid = rw (==-refl ctx) b.wid })
              (rw (==-refl ctx, ==-refl t) (waits (inl refl) refl term (inl refl))) λ e. cc))

    pub loop_ready :
        s.master.state t ≡ ready
        → (s.context ctx).current_task ≡ t
        → (s.context ctx).terminate ≡ false
        → Mail Q c ctx t (s.context ctx).mailbox (wakeup t)
        → Yields (IsWrapper Q c ctx t) (loop_top Q c s ctx)
    unfolding loop_top
    loop_ready state cur term mail =
        rw (cur, ==-ne t null b.nonnull.1)
          (yields (
            going s (dispatched t) b (rw state (waits (inr (inr (inl refl))) cur term mail))
              λ e. cc))

    pub dispatch :
        s.master.state t ≡ ready
        → (s.context ctx).current_task ≡ t
        → (s.context ctx).terminate ≡ false
        → Mail Q c ctx t (s.context ctx).mailbox (wakeup t)
        → Yields (IsWrapper Q c ctx t) (wrapper_step Q c w ctx choice s (dispatched t))
    unfolding wrapper_step task_start set_task set_state
    dispatch state cur term mail = rw state (
        yields (
          going _ (runs t) (record { nonnull = b.nonnull; mine = b.mine; wid = b.wid })
            (rw (==-refl t) (works refl cur term mail)) λ e. cc))

    pub choose :
        (how : Choice)
        → May Q c ctx t s how
        → s.master.state t ≡ running
        → (s.context ctx).current_task ≡ t
        → (s.context ctx).terminate ≡ false
        → Mail Q c ctx t (s.context ctx).mailbox (wakeup t)
        → Yields (IsWrapper Q c ctx t) (run_choice Q c s t how)
    unfolding run_choice exit block_stream task_yield set_task set_state
    choose exits empty state cur term mail = rw state (
        yields (
          going _ (stopped t exits) (record { nonnull = b.nonnull; mine = b.mine; wid = b.wid })
            (rw (==-refl t) (exiting refl cur term empty)) λ e. cc))
    choose blocks may state cur term mail = rw state (
        yields (
          going _ (stopped t blocks) (record { nonnull = b.nonnull; mine = b.mine; wid = b.wid })
            (rw (==-refl t) (blocking refl cur term mail)) λ e. cc))
    choose gives_up may state cur term mail = rw state (
        yields (
          going _ (stopped t gives_up) (record { nonnull = b.nonnull; mine = b.mine; wid = b.wid })
            (rw (==-refl t) (waits (inr (inr (inr refl))) cur term mail)) λ e. cc))
    choose (wakes x) (ne, live, mine, others) state cur term mail =
        let still = going s (runs t) b (rw state (works refl cur term mail)) λ e. cc in
        rw (unblock-ok Q c s x ne live) (elim (Bool-cases (x == t)) [
          | inl e ↦
              rw (==-true x t e)
                (yields (wake-IsWrapper Q c ctx t _ still (inl state) (mine (==-true x t e))))
          | inr e ↦ yields (other-IsWrapper Q c ctx t _ x still λ i. ==-false x t e (others i))
        ])

    here : context_of Q c s t ≡ ok ctx
    unfolding context_of
    here = rw (b.mine, ==-ne ctx null b.nonnull.0)

    pub exit_back :
        s.master.state t ≡ zombie
        → (s.context ctx).current_task ≡ t
        → (s.context ctx).mailbox ≡ []
        → Yields (IsWrapper Q c ctx t) (switch_back Q c s t exits)
    unfolding switch_back worker_task_exit set_context
    exit_back state cur empty =
        rw (here, b.wid)
          (yields (
            going _ (left t)
              (record { nonnull = b.nonnull; mine = b.mine; wid = rw (==-refl ctx) b.wid })
              (rw (==-refl ctx, state) (exited refl cur refl empty)) λ e. cc))

    pub block_back :
        s.master.state t ≡ blocked
        → (s.context ctx).terminate ≡ false
        → Mail Q c ctx t (s.context ctx).mailbox (wakeup t)
        → Yields (IsWrapper Q c ctx t) (switch_back Q c s t blocks)
    unfolding switch_back worker_task_block set_current set_context
    block_back state term mail =
        rw (here, b.wid)
          (yields (
            going _ (left t)
              (record { nonnull = b.nonnull; mine = b.mine; wid = rw (==-refl ctx) b.wid })
              (rw (==-refl ctx, state) (sleeps (inr refl) refl term mail)) λ e. cc))

    pub yield_back :
        s.master.state t ≡ ready
        → (s.context ctx).current_task ≡ t
        → (s.context ctx).terminate ≡ false
        → Mail Q c ctx t (s.context ctx).mailbox (wakeup t)
        → Yields (IsWrapper Q c ctx t) (switch_back Q c s t gives_up)
    unfolding switch_back worker_task_yield
    yield_back state cur term mail =
        rw (here, b.wid)
          (yields (going s (left t) b (rw state (waits (inr (inl refl)) cur term mail)) λ e. cc))

    pub go_on :
        (s.context ctx).terminate ≡ false
        → At Q c ctx t (s.context ctx) (s.master.state t) receives
        → Yields (IsWrapper Q c ctx t) (loop_end Q c w s ctx)
    unfolding loop_end
    go_on term at = rw term (yields (going s receives b at λ e. cc))

    pub end_of :
        s.master.state t ≡ zombie
        → (s.context ctx).current_task ≡ t
        → (s.context ctx).terminate ≡ true
        → (s.context ctx).mailbox ≡ []
        → (w.in_streams t ≡ []) × (w.out_streams t ≡ [])
        → Yields (IsWrapper Q c ctx t) (loop_end Q c w s ctx)
    unfolding loop_end task_destroy destroy add_free_wrapper set_context
    end_of state cur term empty (no_in, no_out) =
        rw (term, cur, state, no_in, no_out, term, empty)
          (yields (record {
            nonnull = b.nonnull;
            mine = b.mine;
            wid = rw (==-refl ctx) b.wid;
            at = rw (==-refl ctx, state) (over refl refl);
            freed = λ e. (refl, (_, refl));
          }))
