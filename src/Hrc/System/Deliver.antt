-- ===== src/Hrc/System/Deliver.antt =====
-- The master sends a task to a worker, or the end to all.
use my_lpel.Common.{
  ℕ, zero, suc, ◌+◌, ◌<◌, ◌≡◌, ◌≢◌, refl, ◌∙◌, inl, inr, Bool, true, false, List, [], ◌∷◌, ◌++◌,
  ltb, ◌==◌, if◌then◌else◌, arith, update, Bool-cases, ==-refl, ==-ne, ==-true, ==-false, ltb-true,
  ltb-false, Double, Ptr, null,
}
use my_lpel.ReadyQueue.{ReadyQueue}
use my_lpel.Hrc.Priority.{Settings}
use my_lpel.Hrc.Master.{Msg, assign, request}
use my_lpel.Hrc.Threads.{Context, Shared, set_context, to_context, broadcast_loop}
use my_lpel.Hrc.System.{Phase}
use my_lpel.Hrc.System.Sound.{count, requests, Turns, Boxes}
use my_lpel.Hrc.System.Current.{same_current}
use my_lpel.Hrc.System.Leave.{same_wid}

module _ {D : Type 0} ⦃d : Double D⦄ (Q : ReadyQueue D) (c : Settings D) where
  -- a message that is no request is taken
  pub Turns-drop :
      {n : ℕ} {mb : List Msg} {waitworkers : ℕ → Bool} {phase : ℕ → Phase} {box : ℕ → Ptr}
      → (msg : Msg) → ((j : ℕ) → requests j msg ≡ false)
      → Turns Q c n (msg ∷ mb) waitworkers phase box
      → Turns Q c n mb waitworkers phase box
  unfolding count
  Turns-drop msg other v = record {
    turn = λ j h. ground (arith, v.turn j h, other j);
    stranger = λ j h. ground (arith, v.stranger j h, other j);
  }

  -- a waiting worker is sent a task
  pub Turns-give :
      {n : ℕ} {mb : List Msg} {waitworkers : ℕ → Bool} {phase : ℕ → Phase} {box : ℕ → Ptr}
      → (i : ℕ) (t : Ptr) → i < n
      → t ≢ null
      → waitworkers i ≡ true
      → Turns Q c n mb waitworkers phase box
      → Turns Q c n mb (update waitworkers i false) phase (update box i t) × (box i ≡ null)
  Turns-give i t inside ne waiting v = (
    record { turn = λ j h. ground (arith, v.turn j h); stranger = v.stranger },
    ground (arith, v.turn i inside),
  )

  -- a request is noted
  pub Turns-note :
      {n : ℕ} {mb : List Msg} {waitworkers : ℕ → Bool} {phase : ℕ → Phase} {box : ℕ → Ptr}
      → (i : ℕ) → Turns Q c n (request i ∷ mb) waitworkers phase box
      → Turns Q c n mb (update waitworkers i true) phase box
  unfolding count
  Turns-note i v = record {
    turn = λ j h. ground (arith, v.turn j h);
    stranger = λ j h. ground (arith, v.stranger j h);
  }

  -- a request is answered
  pub Turns-answer :
      {n : ℕ} {mb : List Msg} {waitworkers : ℕ → Bool} {phase : ℕ → Phase} {box : ℕ → Ptr}
      → (i : ℕ) (t : Ptr) → i < n
      → t ≢ null
      → Turns Q c n (request i ∷ mb) waitworkers phase box
      → Turns Q c n mb waitworkers phase (update box i t) × (box i ≡ null)
  unfolding count
  Turns-answer i t inside ne v = (
    record {
      turn = λ j h. ground (arith, v.turn j h);
      stranger = λ j h. ground (arith, v.stranger j h);
    },
    ground (arith, v.turn i inside),
  )

  -- the worker that asks exists
  pub asker_inside :
      {n : ℕ} {mb : List Msg} {waitworkers : ℕ → Bool} {phase : ℕ → Phase} {box : ℕ → Ptr}
      → (i : ℕ) → Turns Q c n (request i ∷ mb) waitworkers phase box
      → i < n
  unfolding count
  asker_inside {n} i v = elim (Bool-cases (ltb i n)) [
    | inl less ↦ ground (arith)
    | inr more ↦ absurd (ground (arith, v.stranger i))
  ]

  pub Boxes-give :
      {n : ℕ} {context : Ptr → Context} {workers : ℕ → Ptr} {over : Bool} {phase : ℕ → Phase}
      {dest : Ptr → ℕ} {box : ℕ → Ptr}
      → (i : ℕ) (t : Ptr) → i < n
      → t ≢ null
      → box i ≡ null
      → dest t ≡ 0
      → dest null ≡ 0
      → over ≡ false
      → Boxes Q c n context workers over phase dest box
      → Boxes Q c n
          (update context (workers i) (record (context (workers i)) {
            mailbox = (context (workers i)).mailbox ++ (assign t ∷ []);
          }))
          workers
          over
          phase
          (update dest t (suc i))
          (update box i t)
  Boxes-give {n} {context} {workers} {over} {phase} {dest} {box} i t inside ne empty away null_away
        early v =
      let other : (j : ℕ) → j < n → j ≢ i → workers j ≢ workers i =
        λ j h far e. far (v.apart j i h inside e) in
      record {
        box_dest = λ j h a. ground (arith, v.box_dest j h);
        dest_box = λ x j h. ground (arith, v.dest_box x j, inside, empty, null_away);
        mailbox = λ j h. elim (Bool-cases (j == i)) [
          | inl e ↦
              rw
                (
                  e,
                  ==-true j i e,
                  ==-refl (workers i),
                  v.mailbox i inside,
                  empty,
                  early,
                  ==-ne t null ne,
                )
                refl
          | inr far ↦
              rw (far, ==-ne (workers j) (workers i) (other j h (==-false j i far))) (v.mailbox j h)
        ];
        wid = λ j h. elim (Bool-cases (j == i)) [
          | inl e ↦ rw (==-true j i e, ==-refl (workers i)) (v.wid i inside)
          | inr far ↦ rw (==-ne (workers j) (workers i) (other j h (==-false j i far))) (v.wid j h)
        ];
        apart = v.apart;
        nonnull = v.nonnull;
        early = v.early;
      }

  -- what a broadcast leaves alone
  pub record Kept (s r : Shared Q c) : Type 0 where
    pub master : r.master ≡ s.master
    pub mastermb : r.mastermb ≡ s.mastermb
    pub workers : r.workers ≡ s.workers
    pub worker_context : r.worker_context ≡ s.worker_context
    pub wid : (p : Ptr) → (r.context p).wid ≡ (s.context p).wid
    pub current : (p : Ptr) → (r.context p).current_task ≡ (s.context p).current_task

  pub broadcast_loop-Kept :
      (k i : ℕ) (msg : Msg) (s : Shared Q c) → Kept s (broadcast_loop Q c k i msg s)
  unfolding broadcast_loop to_context set_context
  broadcast_loop-Kept zero i msg s = record {
    master = refl;
    mastermb = refl;
    workers = refl;
    worker_context = refl;
    wid = λ p. refl;
    current = λ p. refl;
  }
  broadcast_loop-Kept (suc k) i msg s =
      let rest = broadcast_loop-Kept k (i + 1) msg (to_context Q c s (s.workers i) msg) in
      record {
        master = rest.master;
        mastermb = rest.mastermb;
        workers = rest.workers;
        worker_context = rest.worker_context;
        wid = λ p. rest.wid p ∙ same_wid Q c s.context (s.workers i) _ refl p;
        current = λ p. rest.current p ∙ same_current s.context (s.workers i) _ refl p;
      }

  pub broadcast_loop_mailbox :
      (base : ℕ → List Msg) (msg : Msg) (workers : ℕ → Ptr) (n k i : ℕ) (s : Shared Q c)
      → i + k ≡ n
      → s.workers ≡ workers
      → ((j l : ℕ) → j < n → l < n → workers j ≡ workers l → j ≡ l)
      → ((j : ℕ)
          → j < n
          → (s.context (workers j)).mailbox ≡ (if ltb j i then base j ++ (msg ∷ []) else base j))
      → (j : ℕ) → j < n
      → ((broadcast_loop Q c k i msg s).context (workers j)).mailbox ≡ base j ++ (msg ∷ [])
  unfolding broadcast_loop to_context set_context
  broadcast_loop_mailbox base msg workers n zero i s e same apart before j h =
      rw (ltb-true j i (omega (arith, e, h))) at (before j h)
  broadcast_loop_mailbox base msg workers n (suc k) i s e same apart before j h =
      broadcast_loop_mailbox base msg workers n k (i + 1) (to_context Q c s (s.workers i) msg)
        (omega (arith, e)) same apart
        (λ l h'. elim (Bool-cases (l == i)) [
          | inl at_i ↦
              rw
                (
                  ==-true l i at_i,
                  same,
                  ==-refl (workers i),
                  ltb-true i (i + 1) (omega arith),
                  before i (omega (arith, e)),
                  ltb-false i i (omega arith),
                )
                refl
          | inr far ↦
              let other : workers l ≢ workers i =
                λ a. ==-false l i far (apart l i h' (omega (arith, e)) a) in
              rw (same, ==-ne (workers l) (workers i) other, before l h') (ground arith)
        ])
        j h
