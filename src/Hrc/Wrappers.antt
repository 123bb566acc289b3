-- ===== src/Hrc/Wrappers.antt =====
-- sched/hierarchy/hrc_worker_op.c: a wrapper, the thread of its own that a task gets which the master
-- does not schedule. Others start the task and wake it; the wrapper's steps reach to the next switch
-- or message.
pub mod Sound
pub mod Wake
pub mod Steps
pub mod Run
mod Tests
use my_lpel.Common.{
  ◌≡◌, ◌≢◌, ◌⊎◌, update, refl, Bool, true, false, List, [], ◌∷◌, ◌==◌, if◌then◌else◌, Res, ok,
  ◌>>=◌, Double, Ptr, null, fault,
}
use my_lpel.Common.Int.{ℤ}
use my_lpel.ReadyQueue.{ReadyQueue}
use my_lpel.Hrc.World.{created, zombie, running, blocked, is_running, is_blocked, World}
use my_lpel.Hrc.Priority.{Settings}
use my_lpel.Hrc.Master.{Msg}
use my_lpel.Hrc.Threads.{
  Shared, set_context, set_task, wrapper_receive, task_start, exit, block_stream, task_yield,
  worker_task_exit, worker_task_block, worker_task_yield, task_destroy, add_free_wrapper, unblock,
  is_freed, lpel_task_start, create_wrapper_context,
}
use my_lpel.Hrc.System.{
  Choice, exits, blocks, gives_up, wakes, Phase, starts, receives, dispatched, runs, stopped, left,
  ends, IfOk,
}

module _ {D : Type 0} ⦃d : Double D⦄ (Q : ReadyQueue D) (c : Settings D) where
  -- the wrapper has its context at `ctx`; `receives` is the top of the loop
  pub record Wrapper : Type 0 where
    pub shared : Shared Q c
    pub phase : Phase

  pub receive : Shared Q c → Ptr → List Msg → Res Wrapper
  receive s ctx [] = ok (record { shared = s; phase = receives })
  receive s ctx (msg ∷ msgs) = do
    r ←
        wrapper_receive Q c (set_context Q c s ctx (record (s.context ctx) { mailbox = msgs })) ctx
          msg
    ok (record { shared = r; phase = receives })

  -- `WrapperLoop` from its top to the switch, or past a message
  pub loop_top : Shared Q c → Ptr → Res Wrapper
  loop_top s ctx =
      if (s.context ctx).current_task == null
      then receive s ctx (s.context ctx).mailbox
      else ok (record { shared = s; phase = dispatched (s.context ctx).current_task })

  -- the task is what `LpelTaskSelf` gives it
  pub run_choice : Shared Q c → Ptr → Choice → Res Wrapper
  run_choice s t exits = do r ← exit Q c s t; ok (record { shared = r; phase = stopped t exits })
  run_choice s t blocks = do
    r ← block_stream Q c s t
    ok (record { shared = r; phase = stopped t blocks })
  run_choice s t gives_up = do
    r ← task_yield Q c s t
    ok (record { shared = r; phase = stopped t gives_up })
  run_choice s t (wakes x) = do r ← unblock Q c s x; ok (record { shared = r; phase = runs t })

  pub switch_back : Shared Q c → Ptr → Choice → Res Wrapper
  switch_back s t exits = do
    r ← worker_task_exit Q c s t
    ok (record { shared = r; phase = left t })
  switch_back s t blocks = do
    r ← worker_task_block Q c s t
    ok (record { shared = r; phase = left t })
  switch_back s t _ = do r ← worker_task_yield Q c s t; ok (record { shared = r; phase = left t })

  -- the end of the loop's body, and of the thread
  pub loop_end : World → Shared Q c → Ptr → Res Wrapper
  loop_end w s ctx =
      let finish : Res Wrapper = do
        r ← task_destroy Q c w s (s.context ctx).current_task
        u ← add_free_wrapper Q c r ctx
        ok (record { shared = u; phase = ends })
      in if (s.context ctx).terminate then finish else ok (record { shared = s; phase = receives })

  -- `WrapperThread`
  pub wrapper_step : World → Ptr → Choice → Shared Q c → Phase → Res Wrapper
  wrapper_step w ctx choice s starts = ok (record { shared = s; phase = receives })
  wrapper_step w ctx choice s receives = loop_top s ctx
  wrapper_step w ctx choice s (dispatched t) = do
    r ← task_start Q c s t
    ok (record { shared = r; phase = runs t })
  wrapper_step w ctx choice s (runs t) = run_choice s (s.context ctx).current_task choice
  wrapper_step w ctx choice s (stopped t how) = switch_back s t how
  wrapper_step w ctx choice s (left t) = loop_end w s ctx
  wrapper_step w ctx choice s ends = ok (record { shared = s; phase = ends })

  -- the wrapper moves; another thread starts the task, or wakes it
  pub data Action : Type 0 where
    moves : World → Choice → Action
    start wake : Action

  pub act : Ptr → Ptr → Wrapper → Action → Res Wrapper
  act ctx t x (moves w choice) = wrapper_step w ctx choice x.shared x.phase
  act ctx t x start = do r ← lpel_task_start Q c x.shared t; ok (record x { shared = r })
  act ctx t x wake = do r ← unblock Q c x.shared t; ok (record x { shared = r })

  pub run : Ptr → Ptr → List Action → Wrapper → Res Wrapper
  run ctx t [] x = ok x
  run ctx t (a ∷ actions) x = do r ← act ctx t x a; run ctx t actions r

  -- What the task may do: it ends when no wake-up waits for it. It wakes a task that is not NULL and
  -- was not freed, itself only once, and another one, which has another context or none.
  abbrev pub May : Ptr → Ptr → Shared Q c → Choice → Type 0
  May ctx t s exits = (s.context ctx).mailbox ≡ []
  May ctx t s (wakes x) =
      (x ≢ null)
      × (is_freed x s.master.destroyed ≡ false)
      × (x ≡ t → (s.context ctx).mailbox ≡ [])
      × (s.worker_context x ≡ ctx → x ≡ t)
  May ctx t s _ = Unit

  -- A task is started once. It is woken only while it runs or is blocked, and not again before it was
  -- handed the first wake-up; a task that was woken blocks before it ends, with no stream left.
  abbrev pub Permitted : Ptr → Ptr → Wrapper → Action → Type 0
  Permitted ctx t x (moves w choice) =
      May ctx t x.shared choice
      × (x.shared.master.state t ≡ zombie → (w.in_streams t ≡ []) × (w.out_streams t ≡ []))
  Permitted ctx t x start =
      (x.shared.master.state t ≡ created) × ((x.shared.context ctx).mailbox ≡ [])
  Permitted ctx t x wake =
      ((x.shared.master.state t ≡ running) ⊎ (x.shared.master.state t ≡ blocked))
      × ((x.shared.context ctx).mailbox ≡ [])
      × (is_freed t x.shared.master.destroyed ≡ false)

  abbrev pub Schedule : Ptr → Ptr → List Action → Wrapper → Type 0
  Schedule ctx t [] x = Unit
  Schedule ctx t (a ∷ actions) x =
      Permitted ctx t x a × IfOk (Schedule ctx t actions) (act ctx t x a)

  -- `LpelTaskCreate` of a task with a wrapper: the context, at `new` if none is free, and the task
  pub create : Shared Q c → Ptr → ℤ → Ptr → Ptr × Wrapper
  create s t wid new =
      let (ctx, r) = create_wrapper_context Q c s wid new in
      (
        ctx,
        record {
          shared = record (set_task Q c r t created) {
            worker_context = update r.worker_context t ctx;
          };
          phase = starts;
        },
      )
