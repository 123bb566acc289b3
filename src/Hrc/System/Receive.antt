-- ===== src/Hrc/System/Receive.antt =====
-- A worker takes a message from its mailbox.
use my_lpel.Common.{
  ℕ, suc, ◌<◌, ◌≡◌, ◌≢◌, refl, ap, inl, inr, ◌⊎◌, Bool, true, false, not, ◌&&◌, List, [], ◌∷◌, ◌==◌,
  arith, Yields, yields, update, update-all, Bool-cases, ==-refl, ==-ne, ==-true, ==-false, Double,
  Ptr, null,
}
use my_lpel.Common.Int.{pos}
use my_lpel.ReadyQueue.{ReadyQueue}
use my_lpel.Hrc.World.{ready, is_ready}
use my_lpel.Hrc.Priority.{Settings}
use my_lpel.Hrc.Master.{Msg, terminate, assign, Master}
use my_lpel.Hrc.Threads.{Context, set_context, set_current, worker_receive}
use my_lpel.Hrc.System.{
  Choice, Phase, receives, dispatched, ends, System, moved, worker_step, receive,
}
use my_lpel.Hrc.System.Sound.{
  is_working, is_ending, has_task, task_on, suits, box_of, Tokens, Turns, Boxes, Hosts, Sound,
}
use my_lpel.Hrc.System.Current.{Currents-move}
use my_lpel.Hrc.System.Ask.{Turns-move}
use my_lpel.Hrc.System.Work.{Hosts-keep}
use my_lpel.Hrc.System.Leave.{Boxes-context, same_mailbox, same_wid}

-- a mailbox by its task and its end
box_cases :
    (box : Ptr) (told : Bool) (msgs : List Msg)
    → msgs ≡ box_of box told
    → ((box ≢ null) × (msgs ≡ assign box ∷ box_of null told))
      ⊎ ((box ≡ null) × (told ≡ true) × (msgs ≡ terminate ∷ []))
      ⊎ (msgs ≡ [])
box_cases box told msgs e = elim (Bool-cases (box == null)) [
  | inr some_task ↦ inl (==-false box null some_task, rw some_task at e)
  | inl empty ↦ elim (Bool-cases told) [
    | inl told_now ↦ inr (inl (==-true box null empty, told_now, rw (empty, told_now) at e))
    | inr not_yet ↦ inr (inr (rw (empty, not_yet) at e))
  ]
]

module _ {D : Type 0} ⦃d : Double D⦄ (Q : ReadyQueue D) (c : Settings D) where
  -- a task passes from the mailbox of worker `i` to the worker
  Tokens-take :
      {mb : List Msg} {m : Master Q c} {started : Ptr → Bool} {dest host : Ptr → ℕ}
      → (i : ℕ) (t : Ptr) → 0 < dest t
      → Tokens Q c mb m started dest host
      → Tokens Q c mb m started (update dest t 0) (update host t (suc i))
  Tokens-take i t h v = record {
    token = λ x. ground (arith, v.token x);
    new = v.new;
    back = v.back;
    sent = λ x h. v.sent x (ground arith);
    null_new = v.null_new;
    null_wake = v.null_wake;
  }

  Turns-take :
      {n : ℕ} {mb : List Msg} {waitworkers : ℕ → Bool} {phase : ℕ → Phase} {box : ℕ → Ptr}
      → (i : ℕ) (p : Phase) → is_working (phase i) ≡ false
      → is_working p ≡ true
      → box i ≢ null
      → Turns Q c n mb waitworkers phase box
      → Turns Q c n mb waitworkers (update phase i p) (update box i null)
  Turns-take i p off on ne v = record {
    turn = λ j h. ground (arith, v.turn j h);
    stranger = v.stranger;
  }

  Boxes-take :
      {n : ℕ} {context : Ptr → Context} {workers : ℕ → Ptr} {over : Bool} {phase : ℕ → Phase}
      {dest : Ptr → ℕ} {box : ℕ → Ptr}
      → (i : ℕ) (p : Phase) (x : Context) → i < n
      → x.mailbox ≡ box_of null (over && not (is_ending (phase i)))
      → x.wid ≡ pos i
      → is_ending p ≡ is_ending (phase i)
      → box i ≢ null
      → Boxes Q c n context workers over phase dest box
      → Boxes Q c n
          (update context (workers i) x)
          workers
          over
          (update phase i p)
          (update dest (box i) 0)
          (update box i null)
  Boxes-take {n} {context} {workers} {over} {phase} {dest} {box} i p x inside now index same ne v =
      let other : (j : ℕ) → j < n → j ≢ i → workers j ≢ workers i =
        λ j h far e. far (v.apart j i h inside e) in
      record {
        box_dest = λ j h a. ground (arith, v.box_dest j h, v.box_dest i inside);
        dest_box = λ t j h. ground (arith, v.dest_box t j, v.dest_box (box i) i);
        mailbox = λ j h. elim (Bool-cases (j == i)) [
          | inl e ↦ rw (e, ==-true j i e, ==-refl (workers i), same) now
          | inr far ↦
              rw (far, ==-ne (workers j) (workers i) (other j h (==-false j i far))) (v.mailbox j h)
        ];
        wid = λ j h. elim (Bool-cases (j == i)) [
          | inl e ↦ rw (==-true j i e, ==-refl (workers i)) index
          | inr far ↦ rw (==-ne (workers j) (workers i) (other j h (==-false j i far))) (v.wid j h)
        ];
        apart = v.apart;
        nonnull = v.nonnull;
        early = λ j h e. ground (arith, v.early j h e);
      }

  Boxes-end :
      {n : ℕ} {context : Ptr → Context} {workers : ℕ → Ptr} {over : Bool} {phase : ℕ → Phase}
      {dest : Ptr → ℕ} {box : ℕ → Ptr}
      → (i : ℕ) (x : Context) → i < n
      → x.mailbox ≡ []
      → x.wid ≡ pos i
      → over ≡ true
      → box i ≡ null
      → Boxes Q c n context workers over phase dest box
      → Boxes Q c n (update context (workers i) x) workers over (update phase i ends) dest box
  Boxes-end {n} {context} {workers} {over} {phase} {dest} {box} i x inside now index told empty v =
      let other : (j : ℕ) → j < n → j ≢ i → workers j ≢ workers i =
        λ j h far e. far (v.apart j i h inside e) in
      record {
        box_dest = v.box_dest;
        dest_box = v.dest_box;
        mailbox = λ j h. elim (Bool-cases (j == i)) [
          | inl e ↦ rw (e, ==-true j i e, ==-refl (workers i), empty, told) now
          | inr far ↦
              rw (far, ==-ne (workers j) (workers i) (other j h (==-false j i far))) (v.mailbox j h)
        ];
        wid = λ j h. elim (Bool-cases (j == i)) [
          | inl e ↦ rw (==-true j i e, ==-refl (workers i)) index
          | inr far ↦ rw (==-ne (workers j) (workers i) (other j h (==-false j i far))) (v.wid j h)
        ];
        apart = v.apart;
        nonnull = v.nonnull;
        early = λ j h e. cc;
      }

  Hosts-take :
      {n : ℕ} {m : Master Q c} {workers : ℕ → Ptr} {worker_context : Ptr → Ptr} {phase : ℕ → Phase}
      {host : Ptr → ℕ}
      → (i : ℕ) (t : Ptr) → i < n
      → t ≢ null
      → task_on (phase i) ≡ null
      → host t ≡ 0
      → host null ≡ 0
      → is_ready (m.state t) ≡ true
      → Hosts Q c n m workers worker_context phase host
      → Hosts Q c n m workers
          (update worker_context t (workers i))
          (update phase i (dispatched t))
          (update host t (suc i))
  Hosts-take {n} {m} {workers} {worker_context} {phase} {host} i t inside ne off away null_away fits
        v =
      record {
        on_host =
            update-all (λ j q. j < n → task_on q ≢ null → update host t (suc i) (task_on q) ≡ suc j)
              phase i (dispatched t) (λ h a. rw (==-refl t) refl)
              λ j other h a. ground (arith, v.on_host j h a);
        host_on = λ x.
            update-all (λ j q. update host t (suc i) x ≡ suc j → (j < n) × (task_on q ≡ x)) phase i
              (dispatched t) (λ h. ground (arith, v.host_on x i, null_away))
              λ j other h. v.host_on x j (ground arith);
        state =
            update-all (λ j q. j < n → task_on q ≢ null → suits q (m.state (task_on q)) ≡ true)
              phase i (dispatched t) (λ h a. fits) λ j other. v.state j;
        real =
            update-all (λ j q. j < n → has_task q ≡ true → task_on q ≢ null) phase i (dispatched t)
              (λ h a. ne) λ j other. v.real j;
        hosted = λ x j h. elim (Bool-cases (x == t)) [
          | inl e ↦ let same : i ≡ j = ground (arith, h) in rw e (ap workers same)
          | inr other ↦ rw other (v.hosted x j (rw other at h))
        ];
        free = λ x h. ground (arith, v.free x);
      }

  module _ (sys : System Q c) (v : Sound Q c sys) (i : ℕ)
      (inside : i < sys.shared.master.num_workers) (e : sys.phase i ≡ receives) where
    abbrev here : Ptr
    here = sys.shared.workers i

    take-Sound :
        (msgs : List Msg)
        → v.box i ≢ null
        → msgs ≡ box_of null (sys.over && not (is_ending (sys.phase i)))
        → Yields (Sound Q c) (receive Q c sys i here (assign (v.box i) ∷ msgs))
    unfolding receive worker_receive set_context set_current moved
    take-Sound msgs ne rest =
        let t = v.box i in
        let sent_here : v.dest t ≡ suc i = v.boxes.box_dest i inside ne in
        let now : sys.shared.master.state t ≡ ready = v.tokens.sent t (omega (arith, sent_here)) in
        let taken = record (sys.shared.context here) { mailbox = msgs } in
        rw now (
          yields (record {
            dest = update v.dest t 0;
            host = update v.host t (suc i);
            box = update v.box i null;
            inv = v.inv;
            sent = v.sent;
            marks = v.marks;
            tokens = Tokens-take i t (omega (arith, sent_here)) v.tokens;
            turns = Turns-take i (dispatched t) (rw e) refl ne v.turns;
            boxes =
                Boxes-context Q c
                  (same_mailbox Q c (update sys.shared.context here taken) here _ refl)
                  (same_wid Q c (update sys.shared.context here taken) here _ refl)
                  (Boxes-take i (dispatched t) taken inside rest (v.boxes.wid i inside) (rw e) ne
                    v.boxes);
            hosts =
                Hosts-take i t inside ne (rw e) (ground (arith, v.tokens.token t))
                  (ground (arith, v.tokens.token null, v.tokens.null_new)) (rw now) v.hosts;
            current =
                Currents-move i (dispatched t) inside v.boxes.apart
                  (λ q far. rw (==-ne q here far) refl) (λ a. rw (==-refl here) refl) v.current;
          }))

    end-Sound :
        sys.over ≡ true
        → v.box i ≡ null
        → Yields (Sound Q c) (receive Q c sys i here (terminate ∷ []))
    unfolding receive worker_receive set_context moved
    end-Sound told empty =
        let taken = record (sys.shared.context here) { mailbox = [] } in
        yields (record {
          dest = v.dest;
          host = v.host;
          box = v.box;
          inv = v.inv;
          sent = v.sent;
          marks = v.marks;
          tokens = v.tokens;
          turns = Turns-move Q c i ends (rw e) v.turns;
          boxes =
              Boxes-context Q c
                (same_mailbox Q c (update sys.shared.context here taken) here _ refl)
                (same_wid Q c (update sys.shared.context here taken) here _ refl)
                (Boxes-end i taken inside refl (v.boxes.wid i inside) told empty v.boxes);
          hosts = Hosts-keep Q c i ends (rw e) (λ ne. absurd (ne refl)) (λ a. cc) v.hosts;
          current =
              Currents-move i ends inside v.boxes.apart (λ q far. rw (==-ne q here far) refl)
                (λ a. cc) v.current;
        })

    pub receives-Sound :
        (choice : Choice) → Yields (Sound Q c) (worker_step Q c sys i choice receives)
    unfolding worker_step receive
    receives-Sound choice = elim (box_cases _ _ _ (v.boxes.mailbox i inside)) [
      | inl (ne, msgs) ↦ rw msgs (take-Sound _ ne refl)
      | inr (inl (empty, told, msgs)) ↦ rw msgs (end-Sound (ground (arith, told)) empty)
      | inr (inr msgs) ↦ rw msgs (yields v)
    ]
