-- ===== src/Hrc/Wrappers/Run.antt =====
-- A wrapper and its task never fail an assert, and the context is free again at the end.
use my_lpel.Common.{
  ◌≡◌, ◌≢◌, inl, inr, refl, true, List, [], ◌∷◌, ◌++◌, ◌==◌, Yields, yields, Yields-open, ==-refl,
  ==-ne, ==-false, Bool-cases, Double, Ptr, null,
}
use my_lpel.Common.Int.{ℤ}
use my_lpel.ReadyQueue.{ReadyQueue}
use my_lpel.Hrc.World.{TaskState, created, zombie, World}
use my_lpel.Hrc.Priority.{Settings}
use my_lpel.Hrc.Master.{Msg, assign, set_state}
use my_lpel.Hrc.Threads.{
  Context, Shared, is_negative, set_context, set_task, get_free_wrapper, to_context, run_task,
  lpel_task_start, create_wrapper_context,
}
use my_lpel.Hrc.System.{Choice, Phase, receives, ends}
use my_lpel.Hrc.Wrappers.{
  Wrapper, wrapper_step, Action, moves, start, wake, act, run, Permitted, Schedule, May, create,
}
use my_lpel.Hrc.Wrappers.Sound.{
  At, begins, sleeps, waits, works, blocking, exiting, exited, over, IsWrapper,
}
use my_lpel.Hrc.Wrappers.Wake.{unblock-ok, wake-IsWrapper}
use my_lpel.Hrc.Wrappers.Steps.{
  Base, going, loop_new, loop_asleep, loop_ready, dispatch, choose, exit_back, block_back,
  yield_back, go_on, end_of,
}

module _ {D : Type 0} ⦃d : Double D⦄ (Q : ReadyQueue D) (c : Settings D) (ctx t : Ptr) where
  module _ (s : Shared Q c) (b : Base Q c ctx t s) (w : World) (choice : Choice) where
    step-IsWrapper :
        (p : Phase) (y : Context) (st : TaskState)
        → At Q c ctx t y st p
        → s.context ctx ≡ y
        → s.master.state t ≡ st
        → (p ≡ ends → IsWrapper Q c ctx t (record { shared = s; phase = p }))
        → May Q c ctx t s choice
        → (s.master.state t ≡ zombie → (w.in_streams t ≡ []) × (w.out_streams t ≡ []))
        → Yields (IsWrapper Q c ctx t) (wrapper_step Q c w ctx choice s p)
    unfolding wrapper_step
    step-IsWrapper p y _ (begins (inl q) cur term mail) e state at_end may closed = rw q (
        yields (
          going Q c ctx t s receives b
            (rw state (begins (inr refl) (rw e cur) (rw e term) (rw e mail))) λ e. cc))
    step-IsWrapper p y _ (begins (inr q) cur term mail) e state at_end may closed =
        rw q (loop_new Q c ctx t s b w choice state (rw e cur) (rw e term) (rw e mail))
    step-IsWrapper p y _ (sleeps (inl q) cur term mail) e state at_end may closed =
        rw q (loop_asleep Q c ctx t s b w choice state (rw e cur) (rw e term) (rw e mail))
    step-IsWrapper p y _ (sleeps (inr q) cur term mail) e state at_end may closed = rw q (
        go_on Q c ctx t s b w choice (rw e term)
          (rw state (sleeps (inl refl) (rw e cur) (rw e term) (rw e mail))))
    step-IsWrapper p y _ (waits (inl q) cur term mail) e state at_end may closed =
        rw q (loop_ready Q c ctx t s b w choice state (rw e cur) (rw e term) (rw e mail))
    step-IsWrapper p y _ (waits (inr (inl q)) cur term mail) e state at_end may closed = rw q (
        go_on Q c ctx t s b w choice (rw e term)
          (rw state (waits (inl refl) (rw e cur) (rw e term) (rw e mail))))
    step-IsWrapper p y _ (waits (inr (inr (inl q))) cur term mail) e state at_end may closed =
        rw q (dispatch Q c ctx t s b w choice state (rw e cur) (rw e term) (rw e mail))
    step-IsWrapper p y _ (waits (inr (inr (inr q))) cur term mail) e state at_end may closed =
        rw q (yield_back Q c ctx t s b w choice state (rw e cur) (rw e term) (rw e mail))
    step-IsWrapper p y _ (works q cur term mail) e state at_end may closed =
        let self : (s.context ctx).current_task ≡ t = rw e cur in
        rw (q, self) (choose Q c ctx t s b w choice choice may state self (rw e term) (rw e mail))
    step-IsWrapper p y _ (blocking q cur term mail) e state at_end may closed =
        rw q (block_back Q c ctx t s b w choice state (rw e term) (rw e mail))
    step-IsWrapper p y _ (exiting q cur term empty) e state at_end may closed =
        rw q (exit_back Q c ctx t s b w choice state (rw e cur) (rw e empty))
    step-IsWrapper p y _ (exited q cur term empty) e state at_end may closed =
        rw q
          (end_of Q c ctx t s b w choice state (rw e cur) (rw e term) (rw e empty) (closed state))
    step-IsWrapper p y _ (over q empty) e state at_end may closed =
        rw q (yields (let end = rw q at at_end in end refl))

  At-start :
      (y : Context) (st : TaskState) (p : Phase) (msgs : List Msg)
      → st ≡ created
      → msgs ≡ assign t ∷ []
      → At Q c ctx t y st p
      → At Q c ctx t (record y { mailbox = msgs }) st p
  At-start y _ p msgs h e (begins q cur term mail) = begins q cur term (inr e)
  At-start y _ p msgs h e _ = absurd cc

  start-IsWrapper :
      (x : Wrapper Q c)
      → IsWrapper Q c ctx t x
      → x.shared.master.state t ≡ created
      → (x.shared.context ctx).mailbox ≡ []
      → Yields (IsWrapper Q c ctx t) (act Q c ctx t x start)
  unfolding act lpel_task_start run_task to_context set_context
  start-IsWrapper x v h empty =
      rw (h, v.mine, ==-ne ctx null v.nonnull.0)
        (yields (record {
          nonnull = v.nonnull;
          mine = v.mine;
          wid = rw (==-refl ctx) v.wid;
          at = rw (==-refl ctx) (
              At-start (x.shared.context ctx) _ x.phase
                ((x.shared.context ctx).mailbox ++ (assign t ∷ [])) h (rw empty refl) v.at);
          freed = v.freed;
        }))

  act-IsWrapper :
      (x : Wrapper Q c) (a : Action Q c)
      → IsWrapper Q c ctx t x
      → Permitted Q c ctx t x a
      → Yields (IsWrapper Q c ctx t) (act Q c ctx t x a)
  unfolding act
  act-IsWrapper x (moves w choice) v (may, closed) =
      step-IsWrapper x.shared (record { nonnull = v.nonnull; mine = v.mine; wid = v.wid }) w choice
        x.phase _ _ v.at refl refl (λ e. v) may closed
  act-IsWrapper x start v (h, empty) = start-IsWrapper x v h empty
  act-IsWrapper x wake v (h, empty, live) =
      rw (unblock-ok Q c x.shared t v.nonnull.1 live)
        (yields (wake-IsWrapper Q c ctx t x v h empty))

  run-IsWrapper :
      (actions : List (Action Q c)) (x : Wrapper Q c)
      → IsWrapper Q c ctx t x
      → Schedule Q c ctx t actions x
      → Yields (IsWrapper Q c ctx t) (run Q c ctx t actions x)
  unfolding run
  run-IsWrapper [] x v h = yields v
  run-IsWrapper (a ∷ actions) x v (allowed, later) =
      let (r, stepped, s) = Yields-open (act-IsWrapper x a v allowed) in
      rw stepped (run-IsWrapper actions r s (rw stepped at later))

module _ {D : Type 0} ⦃d : Double D⦄ (Q : ReadyQueue D) (c : Settings D) (s : Shared Q c) (t : Ptr)
    (wid : ℤ) (new : Ptr) where
  -- a free context was left with an empty mailbox
  abbrev pub FreeIsClean : Type 0
  FreeIsClean = s.freewrappers ≢ null → (s.context s.freewrappers).mailbox ≡ []

  create-IsWrapper :
      t ≢ null
      → new ≢ null
      → is_negative wid ≡ true
      → FreeIsClean
      → IsWrapper Q c (create Q c s t wid new).0 t (create Q c s t wid new).1
  unfolding create create_wrapper_context get_free_wrapper set_context set_task set_state
  create-IsWrapper ne ne' neg clean = elim (Bool-cases (s.freewrappers == null)) [
    | inl e ↦ rw e (record {
      nonnull = (ne', ne);
      mine = rw (==-refl t) refl;
      wid = rw (==-refl new) neg;
      at = rw (==-refl t, ==-refl new) (begins (inl refl) refl refl (inl refl));
      freed = λ e. absurd cc;
    })
    | inr used ↦
        rw (used, used)
          (record {
            nonnull = (==-false s.freewrappers null used, ne);
            mine = rw (==-refl t) refl;
            wid = rw (==-refl s.freewrappers) neg;
            at =
                rw (==-refl t, ==-refl s.freewrappers)
                  (begins (inl refl) refl refl (inl (clean (==-false s.freewrappers null used))));
            freed = λ e. absurd cc;
          })
  ]

  -- A wrapper with a negative index that is made for a task, on a free context that was left with
  -- an empty mailbox or on a new one, fails no assert on any schedule in which the task is
  -- started once, is woken only while it runs or is blocked with no message waiting, has no
  -- message waiting when it ends, has closed its streams then, and wakes only tasks that are not
  -- NULL and not freed, itself only with no message waiting, others only if their context is not
  -- that of the wrapper; at the end the task was freed and the context can be used again.
  pub run-create-IsWrapper :
      (actions : List (Action Q c))
      → t ≢ null
      → new ≢ null
      → is_negative wid ≡ true
      → FreeIsClean
      → Schedule Q c (create Q c s t wid new).0 t actions (create Q c s t wid new).1
      → Yields
          (IsWrapper Q c (create Q c s t wid new).0 t)
          (run Q c (create Q c s t wid new).0 t actions (create Q c s t wid new).1)
  run-create-IsWrapper actions ne ne' neg clean h =
      run-IsWrapper Q c (create Q c s t wid new).0 t actions (create Q c s t wid new).1
        (create-IsWrapper ne ne' neg clean) h
