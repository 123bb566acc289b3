-- ===== src/Hrc/System/Woken.antt =====
-- No wake-up is lost, through the steps of all.
use my_lpel.Common.{
  ◌≡◌, ◌≢◌, ◌∙◌, Bool, true, false, List, [], ◌∷◌, ◌++◌, ◌==◌, arith, update, Bool-cases, ==-true,
  inl, inr, Ptr,
}
use my_lpel.Hrc.World.{TaskState, is_returned}
use my_lpel.Hrc.Master.{Msg, wakeup}
use my_lpel.Hrc.System.Sound.{count, count-snoc, wakes_up, may_sleep, Marks}

-- a message to the master
pub Marks-carry :
    {woken : Ptr → Bool} {mb : List Msg} {state : Ptr → TaskState} {wakenup : Ptr → Bool}
    → (msg : Msg) → Marks woken mb state wakenup
    → Marks woken (mb ++ (msg ∷ [])) state wakenup
Marks-carry {mb} msg v = record {
  answered = v.answered;
  unlost = λ t a b. ground (arith, v.unlost t a b, count-snoc (wakes_up t) mb msg);
}

-- a wake-up
pub Marks-wake :
    {woken : Ptr → Bool} {mb : List Msg} {state : Ptr → TaskState} {wakenup : Ptr → Bool}
    → (x : Ptr) → Marks woken mb state wakenup
    → Marks (update woken x true) (mb ++ (wakeup x ∷ [])) state wakenup
Marks-wake {mb} x v = record {
  answered = v.answered;
  unlost = λ t a b. elim (Bool-cases (t == x)) [
    | inl e ↦ ground (arith, e, count-snoc (wakes_up t) mb (wakeup x))
    | inr far ↦ ground (arith, v.unlost t (rw far at a) b, count-snoc (wakes_up t) mb (wakeup x))
  ];
}

-- a task changes its state
pub Marks-state :
    {woken : Ptr → Bool} {mb : List Msg} {state : Ptr → TaskState} {wakenup : Ptr → Bool}
    → (woken' : Ptr → Bool) (t : Ptr) (x : TaskState) → is_returned x ≡ false
    → ((y : Ptr) → woken' y ≡ true → woken y ≡ true)
    → (woken' t ≡ true → may_sleep x ≡ true → may_sleep (state t) ≡ true)
    → Marks woken mb state wakenup
    → Marks woken' mb (update state t x) wakenup
Marks-state {state} woken' t x out older sleeps v = record {
  answered = λ y h. v.answered y (ground (arith, h, out));
  unlost = λ y a b. elim (Bool-cases (y == t)) [
    | inl e ↦
        let same : y ≡ t = ==-true y t e in
        v.unlost y (older y a) (rw same (sleeps (rw same at a) (rw e at b)))
    | inr far ↦ v.unlost y (older y a) (rw far at b)
  ];
}

-- the master has handled a message that wakes no other task, and task `t` is about to run again
pub Marks-resume :
    {woken : Ptr → Bool} {mb : List Msg} {state state' : Ptr → TaskState}
    {wakenup wakenup' : Ptr → Bool}
    → (msg : Msg) (t : Ptr) (s : TaskState) → may_sleep s ≡ false
    → ((x : Ptr) → x ≢ t → wakes_up x msg ≡ false)
    → ((x : Ptr) → x ≢ t → wakenup' x ≡ wakenup x)
    → ((x : Ptr) → state' x ≡ update state t s x)
    → Marks woken (msg ∷ mb) state wakenup
    → Marks woken mb state' wakenup'
unfolding count
Marks-resume {woken} {mb} {state} {state'} {wakenup} {wakenup'} msg t s up other same now v =
    record {
      answered = λ x h.
          let far : x ≢ t = λ a. ground (arith, now x, h, a, up) in
          same x far ∙ v.answered x (ground (arith, now x, h, far));
      unlost = λ x a b.
          let far : x ≢ t = λ e. ground (arith, now x, b, e, up) in
          ground (arith, v.unlost x a (ground (arith, now x, b, far)), other x far, same x far);
    }

-- the master has handled a message that wakes no task, and all are as before
pub Marks-drop :
    {woken : Ptr → Bool} {mb : List Msg} {state : Ptr → TaskState} {wakenup : Ptr → Bool}
    → (msg : Msg) → ((x : Ptr) → wakes_up x msg ≡ false)
    → Marks woken (msg ∷ mb) state wakenup
    → Marks woken mb state wakenup
unfolding count
Marks-drop msg other v = record {
  answered = v.answered;
  unlost = λ x a b. ground (arith, v.unlost x a b, other x);
}

-- an early wake-up leaves a mark
pub Marks-mark :
    {woken : Ptr → Bool} {mb : List Msg} {state : Ptr → TaskState} {wakenup : Ptr → Bool}
    → (t : Ptr) → is_returned (state t) ≡ false
    → Marks woken (wakeup t ∷ mb) state wakenup
    → Marks woken mb state (update wakenup t true)
unfolding count
Marks-mark t early v = record {
  answered = λ x h. ground (arith, v.answered x h, h, early);
  unlost = λ x a b. ground (arith, v.unlost x a b);
}
