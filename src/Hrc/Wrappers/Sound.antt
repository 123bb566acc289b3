-- ===== src/Hrc/Wrappers/Sound.antt =====
-- Where a wrapper is, and what holds of its task then.
use my_lpel.Common.{◌≡◌, ◌≢◌, ◌⊎◌, true, false, List, [], ◌∷◌, Double, Ptr, null}
use my_lpel.ReadyQueue.{ReadyQueue}
use my_lpel.Hrc.World.{TaskState, created, ready, zombie, running, blocked}
use my_lpel.Hrc.Priority.{Settings}
use my_lpel.Hrc.Master.{Msg, wakeup, assign}
use my_lpel.Hrc.Threads.{Context, is_negative}
use my_lpel.Hrc.System.{
  exits, blocks, gives_up, Phase, starts, receives, dispatched, runs, stopped, left, ends,
}
use my_lpel.Hrc.Wrappers.{Wrapper}

module _ {D : Type 0} ⦃d : Double D⦄ (Q : ReadyQueue D) (c : Settings D) (ctx t : Ptr) where
  -- the mailbox holds nothing but perhaps one message
  abbrev pub Mail : List Msg → Msg → Type 0
  Mail msgs msg = (msgs ≡ []) ⊎ (msgs ≡ msg ∷ [])

  -- where the wrapper is, with the state of its task, `current_task` and the mailbox
  pub data At : Context → TaskState → Phase → Type 0 where
    begins :
        {x : Context} {p : Phase}
        → (p ≡ starts) ⊎ (p ≡ receives)
        → x.current_task ≡ null
        → x.terminate ≡ false
        → Mail x.mailbox (assign t)
        → At x created p
    sleeps :
        {x : Context} {p : Phase}
        → (p ≡ receives) ⊎ (p ≡ left t)
        → x.current_task ≡ null
        → x.terminate ≡ false
        → Mail x.mailbox (wakeup t)
        → At x blocked p
    waits :
        {x : Context} {p : Phase}
        → (p ≡ receives) ⊎ (p ≡ left t) ⊎ (p ≡ dispatched t) ⊎ (p ≡ stopped t gives_up)
        → x.current_task ≡ t
        → x.terminate ≡ false
        → Mail x.mailbox (wakeup t)
        → At x ready p
    works :
        {x : Context} {p : Phase}
        → p ≡ runs t
        → x.current_task ≡ t
        → x.terminate ≡ false
        → Mail x.mailbox (wakeup t)
        → At x running p
    blocking :
        {x : Context} {p : Phase}
        → p ≡ stopped t blocks
        → x.current_task ≡ t
        → x.terminate ≡ false
        → Mail x.mailbox (wakeup t)
        → At x blocked p
    exiting :
        {x : Context} {p : Phase}
        → p ≡ stopped t exits
        → x.current_task ≡ t
        → x.terminate ≡ false
        → x.mailbox ≡ []
        → At x zombie p
    exited :
        {x : Context} {p : Phase}
        → p ≡ left t
        → x.current_task ≡ t
        → x.terminate ≡ true
        → x.mailbox ≡ []
        → At x zombie p
    over : {x : Context} {p : Phase} → p ≡ ends → x.mailbox ≡ [] → At x zombie p

  pub record IsWrapper (x : Wrapper Q c) : Type 0 where
    pub nonnull : (ctx ≢ null) × (t ≢ null)
    pub mine : x.shared.worker_context t ≡ ctx
    pub wid : is_negative (x.shared.context ctx).wid ≡ true
    pub at : At (x.shared.context ctx) (x.shared.master.state t) x.phase
    -- at the end the task was freed, and the context can be used again
    pub freed :
        x.phase ≡ ends
        → (x.shared.freewrappers ≡ ctx) × ((ts : List Ptr) × (x.shared.master.destroyed ≡ t ∷ ts))
