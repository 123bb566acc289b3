-- ===== src/Hrc/System/Ask.antt =====
-- What a message to the master does to the counts, and the requests of the workers.
use my_lpel.Common.{
  ℕ, ◌<◌, ◌≡◌, Bool, true, false, not, ◌&&◌, List, [], ◌∷◌, ◌++◌, arith, update, update-all, Double,
  Ptr,
}
use my_lpel.ReadyQueue.{ReadyQueue}
use my_lpel.Hrc.Priority.{Settings}
use my_lpel.Hrc.Master.{Msg, request, Master}
use my_lpel.Hrc.Threads.{Context}
use my_lpel.Hrc.System.{Phase}
use my_lpel.Hrc.System.Sound.{
  count-snoc, assigns, returns, requests, wakes_null, is_working, is_ending, box_of, Tokens, Turns,
  Boxes,
}

module _ {D : Type 0} ⦃d : Double D⦄ (Q : ReadyQueue D) (c : Settings D) where
  -- a message that carries no task
  pub Tokens-carry :
      {mb : List Msg} {m : Master Q c} {started : Ptr → Bool} {dest host : Ptr → ℕ}
      → (msg : Msg) → ((t : Ptr) → assigns t msg ≡ false)
      → ((t : Ptr) → returns t msg ≡ false)
      → wakes_null msg ≡ false
      → Tokens Q c mb m started dest host
      → Tokens Q c (mb ++ (msg ∷ [])) m started dest host
  Tokens-carry {mb} msg a b w v = record {
    token = λ t.
        rw (count-snoc (assigns t) mb msg, count-snoc (returns t) mb msg, a t, b t)
          (ground (arith, v.token t));
    new = λ t h. v.new t (ground (arith, count-snoc (assigns t) mb msg, a t));
    back = λ t h. v.back t (ground (arith, count-snoc (returns t) mb msg, b t));
    sent = v.sent;
    null_new = v.null_new;
    null_wake = rw (count-snoc wakes_null mb msg, w) (ground (arith, v.null_wake));
  }

  -- worker `i` asks, and is no longer at work
  pub Turns-ask :
      {n : ℕ} {mb : List Msg} {waitworkers : ℕ → Bool} {phase : ℕ → Phase} {box : ℕ → Ptr}
      → (i : ℕ) → i < n
      → (p : Phase) → is_working (phase i) ≡ true
      → is_working p ≡ false
      → Turns Q c n mb waitworkers phase box
      → Turns Q c n (mb ++ (request i ∷ [])) waitworkers (update phase i p) box
  Turns-ask {mb} {phase} i inside p on off v = record {
    turn = λ j h. ground (arith, v.turn j h, count-snoc (requests j) mb (request i));
    stranger = λ j h. ground (arith, v.stranger j h, count-snoc (requests j) mb (request i));
  }

  -- a message that is no request
  pub Turns-carry :
      {n : ℕ} {mb : List Msg} {waitworkers : ℕ → Bool} {phase : ℕ → Phase} {box : ℕ → Ptr}
      → (msg : Msg) → ((j : ℕ) → requests j msg ≡ false)
      → Turns Q c n mb waitworkers phase box
      → Turns Q c n (mb ++ (msg ∷ [])) waitworkers phase box
  Turns-carry {mb} msg other v = record {
    turn = λ j h. ground (arith, v.turn j h, count-snoc (requests j) mb msg, other j);
    stranger = λ j h. ground (arith, v.stranger j h, count-snoc (requests j) mb msg, other j);
  }

  -- a step of a worker that is at work before and after
  pub Turns-move :
      {n : ℕ} {mb : List Msg} {waitworkers : ℕ → Bool} {phase : ℕ → Phase} {box : ℕ → Ptr}
      → (i : ℕ) (p : Phase) → is_working p ≡ is_working (phase i)
      → Turns Q c n mb waitworkers phase box
      → Turns Q c n mb waitworkers (update phase i p) box
  Turns-move {phase} i p same v = record {
    turn = λ j h. ground (arith, v.turn j h);
    stranger = v.stranger;
  }

  -- the mailboxes do not depend on the phase, but for its end
  pub Boxes-move :
      {n : ℕ} {context : Ptr → Context} {workers : ℕ → Ptr} {over : Bool} {phase : ℕ → Phase}
      {dest : Ptr → ℕ} {box : ℕ → Ptr}
      → (i : ℕ) (p : Phase) → is_ending p ≡ is_ending (phase i)
      → Boxes Q c n context workers over phase dest box
      → Boxes Q c n context workers over (update phase i p) dest box
  Boxes-move {n} {context} {workers} {over} {phase} {box} i p same v = record {
    box_dest = v.box_dest;
    dest_box = v.dest_box;
    mailbox =
        update-all
          (λ j q.
            j < n → (context (workers j)).mailbox ≡ box_of (box j) (over && not (is_ending q)))
          phase i p (rw same (v.mailbox i)) λ j ne. v.mailbox j;
    wid = v.wid;
    apart = v.apart;
    nonnull = v.nonnull;
    early = λ j h e. ground (arith, v.early j h e);
  }
