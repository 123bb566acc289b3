-- ===== src/Hrc/Wrappers/Wake.antt =====
-- A wake-up of the task of a wrapper, or of another one.
use my_lpel.Common.{
  sym, ◌≡◌, ◌≢◌, ◌⊎◌, inl, inr, refl, List, [], ◌∷◌, ◌++◌, ◌==◌, ok, false, ==-refl, ==-ne,
  Bool-cases, Double, Ptr, null,
}
use my_lpel.ReadyQueue.{ReadyQueue}
use my_lpel.Hrc.World.{TaskState, running, blocked}
use my_lpel.Hrc.Priority.{Settings}
use my_lpel.Hrc.Master.{Msg, wakeup}
use my_lpel.Hrc.Threads.{
  Context, Shared, is_freed, deref, unblock, wake_master, to_master, is_negative, set_context,
  worker_task_wakeup, wake_wrapper, to_context,
}
use my_lpel.Hrc.System.{Phase}
use my_lpel.Hrc.Wrappers.{Wrapper}
use my_lpel.Hrc.Wrappers.Sound.{
  At, begins, sleeps, waits, works, blocking, exiting, exited, over, IsWrapper,
}

module _ {D : Type 0} ⦃d : Double D⦄ (Q : ReadyQueue D) (c : Settings D) where
  pub unblock-ok :
      (s : Shared Q c) (x : Ptr)
      → x ≢ null
      → is_freed x s.master.destroyed ≡ false
      → unblock Q c s x ≡ ok (worker_task_wakeup Q c s x)
  unfolding unblock deref
  unblock-ok s x ne live = rw (==-ne x null ne, live) refl

module _ {D : Type 0} ⦃d : Double D⦄ (Q : ReadyQueue D) (c : Settings D) (ctx t : Ptr) where
  At-wake :
      (y : Context) (st : TaskState) (p : Phase) (msgs : List Msg)
      → (st ≡ running) ⊎ (st ≡ blocked)
      → msgs ≡ wakeup t ∷ []
      → At Q c ctx t y st p
      → At Q c ctx t (record y { mailbox = msgs }) st p
  At-wake y _ p msgs h e (begins q cur term mail) = absurd (elim h [ inl a ↦ cc | inr a ↦ cc ])
  At-wake y _ p msgs h e (sleeps q cur term mail) = sleeps q cur term (inr e)
  At-wake y _ p msgs h e (waits q cur term mail) = absurd (elim h [ inl a ↦ cc | inr a ↦ cc ])
  At-wake y _ p msgs h e (works q cur term mail) = works q cur term (inr e)
  At-wake y _ p msgs h e (blocking q cur term mail) = blocking q cur term (inr e)
  At-wake y _ p msgs h e (exiting q cur term empty) = absurd (elim h [ inl a ↦ cc | inr a ↦ cc ])
  At-wake y _ p msgs h e (exited q cur term empty) = absurd (elim h [ inl a ↦ cc | inr a ↦ cc ])
  At-wake y _ p msgs h e (over q empty) = absurd (elim h [ inl a ↦ cc | inr a ↦ cc ])

  pub wake-IsWrapper :
      (x : Wrapper Q c)
      → IsWrapper Q c ctx t x
      → (x.shared.master.state t ≡ running) ⊎ (x.shared.master.state t ≡ blocked)
      → (x.shared.context ctx).mailbox ≡ []
      → IsWrapper Q c ctx t (record x { shared = worker_task_wakeup Q c x.shared t })
  unfolding worker_task_wakeup wake_wrapper to_context set_context
  wake-IsWrapper x v h empty =
      rw (v.mine, ==-ne ctx null v.nonnull.0, v.wid)
        (record {
          nonnull = v.nonnull;
          mine = v.mine;
          wid = rw (==-refl ctx) v.wid;
          at = rw (==-refl ctx) (
              At-wake (x.shared.context ctx) _ x.phase
                ((x.shared.context ctx).mailbox ++ (wakeup t ∷ [])) h (rw empty refl) v.at);
          freed = v.freed;
        })

  -- the wrapper's context is not the one of the task that is woken
  pub other-IsWrapper :
      (x : Wrapper Q c) (y : Ptr)
      → IsWrapper Q c ctx t x
      → x.shared.worker_context y ≢ ctx
      → IsWrapper Q c ctx t (record x { shared = worker_task_wakeup Q c x.shared y })
  unfolding worker_task_wakeup wake_wrapper to_context set_context wake_master to_master
  other-IsWrapper x y v other = elim (Bool-cases (x.shared.worker_context y == null)) [
    | inl none_there ↦
        rw none_there
          (record { nonnull = v.nonnull; mine = v.mine; wid = v.wid; at = v.at; freed = v.freed })
    | inr there ↦
        elim (Bool-cases (is_negative (x.shared.context (x.shared.worker_context y)).wid)) [
          | inl low ↦
              let apart : ctx ≢ x.shared.worker_context y = λ e. other (sym e) in
              rw (there, low)
                (record {
                  nonnull = v.nonnull;
                  mine = v.mine;
                  wid = rw (==-ne ctx (x.shared.worker_context y) apart) v.wid;
                  at = rw (==-ne ctx (x.shared.worker_context y) apart) v.at;
                  freed = v.freed;
                })
          | inr high ↦
              rw (there, high)
                (record {
                  nonnull = v.nonnull;
                  mine = v.mine;
                  wid = v.wid;
                  at = v.at;
                  freed = v.freed;
                })
        ]
  ]
