-- ===== src/Hrc/System/Untouched.antt =====
-- What a message to the master leaves as it was.
use my_lpel.Common.{ℕ, ◌≡◌, ◌≢◌, refl, Bool, false, List, ◌∷◌, arith, Double, Ptr}
use my_lpel.ReadyQueue.{ReadyQueue}
use my_lpel.Hrc.World.{returned, ready, inqueue, blocked}
use my_lpel.Hrc.Priority.{Settings}
use my_lpel.Hrc.Master.{Msg, return, Master, set_state}
use my_lpel.Hrc.Master.Offer.{Placed, given, kept}
use my_lpel.Hrc.Master.Neighbours.{Reordered}
use my_lpel.Hrc.System.{Phase}
use my_lpel.Hrc.System.Sound.{count, assigns, returns, Tokens, wakes_up, Hosts, Marks}
use my_lpel.Hrc.System.Woken.{Marks-drop, Marks-resume}

module _ {D : Type 0} ⦃d : Double D⦄ (Q : ReadyQueue D) (c : Settings D) where
  pub Hosts-same :
      {n : ℕ} {m r : Master Q c} {workers : ℕ → Ptr} {worker_context : Ptr → Ptr}
      {phase : ℕ → Phase} {host : Ptr → ℕ}
      → r.state ≡ m.state
      → Hosts Q c n m workers worker_context phase host
      → Hosts Q c n r workers worker_context phase host
  Hosts-same {phase} same h = record {
    on_host = h.on_host;
    host_on = h.host_on;
    state = λ i inside a. rw same (h.state i inside a);
    real = h.real;
    hosted = h.hosted;
    free = h.free;
  }

  -- a message without a task leaves all tasks where they are
  pub Tokens-drop :
      {mb : List Msg} {m : Master Q c} {started : Ptr → Bool} {dest host : Ptr → ℕ}
      → (msg : Msg) → ((x : Ptr) → assigns x msg ≡ false)
      → ((x : Ptr) → returns x msg ≡ false)
      → Tokens Q c (msg ∷ mb) m started dest host
      → Tokens Q c mb m started dest host
  unfolding count
  Tokens-drop msg a b v = record {
    token = λ x. ground (arith, v.token x, a x, b x);
    new = λ x h. v.new x (ground (arith, a x));
    back = λ x h. v.back x (ground (arith, b x));
    sent = v.sent;
    null_new = v.null_new;
    null_wake = ground (arith, v.null_wake);
  }

  pub Tokens-same :
      {mb : List Msg} {m r : Master Q c} {started : Ptr → Bool} {dest host : Ptr → ℕ}
      → r.state ≡ m.state
      → r.ready_tasks ≡ m.ready_tasks
      → r.destroyed ≡ m.destroyed
      → Tokens Q c mb m started dest host
      → Tokens Q c mb r started dest host
  Tokens-same a b e v = record {
    token = λ x. rw (a, b, e) (v.token x);
    new = λ x h. rw a (v.new x h);
    back = λ x h. rw a (v.back x h);
    sent = λ x h. rw a (v.sent x h);
    null_new = v.null_new;
    null_wake = v.null_wake;
  }

  -- the marks after a message
  pub Marks-placed :
      {woken : Ptr → Bool} {mb : List Msg}
      → (m r : Master Q c) (low : Bool) (msg : Msg) (t : Ptr) → Placed Q c low m t r
      → ((x : Ptr) → x ≢ t → wakes_up x msg ≡ false)
      → ((x : Ptr) → x ≢ t → r.wakenup x ≡ m.wakenup x)
      → Marks woken (msg ∷ mb) m.state m.wakenup
      → Marks woken mb r.state r.wakenup
  Marks-placed m r low msg t (given i l f e g now k) other same v =
      Marks-resume msg t ready refl other same now v
  Marks-placed m r low msg t (kept why e g now k) other same v =
      Marks-resume msg t inqueue refl other same now v

  pub Marks-parked :
      {woken : Ptr → Bool} {mb : List Msg}
      → (m r : Master Q c) (t : Ptr) → m.wakenup t ≡ false
      → m.state t ≡ blocked
      → Reordered Q c (set_state Q c m t returned) r
      → Marks woken (return t ∷ mb) m.state m.wakenup
      → Marks woken mb r.state r.wakenup
  unfolding set_state count
  Marks-parked m r t asleep now a v =
      rw (a.wakenup, a.state)
        (record {
          answered = λ x h. ground (arith, v.answered x, asleep, h);
          unlost = λ x woken h. ground (arith, v.unlost x woken, now, h);
        })

  pub Marks-same :
      {woken : Ptr → Bool} {mb : List Msg}
      → (m r : Master Q c) (msg : Msg) → ((x : Ptr) → wakes_up x msg ≡ false)
      → r.state ≡ m.state
      → r.wakenup ≡ m.wakenup
      → Marks woken (msg ∷ mb) m.state m.wakenup
      → Marks woken mb r.state r.wakenup
  Marks-same m r msg other a b v = rw (a, b) (Marks-drop msg other v)
