-- ===== src/Hrc/System/Manage.antt =====
-- The master handles a message and keeps what holds of the threads together.
use my_lpel.Common.{
  ok, ℕ, ◌<◌, ◌≡◌, ◌≢◌, refl, ap, ◌∙◌, inl, inr, true, false, ◌&&◌, List, ◌∷◌, ◌==◌, arith, Yields,
  yields, Yields-bind, Yields-map, update, Bool-cases, ==-ne, Double, Ptr, null,
}
use my_lpel.ReadyQueue.{ReadyQueue, capacity}
use my_lpel.Hrc.World.{TaskState, World, is_returned, returned, returned_of, ready}
use my_lpel.Hrc.Priority.{Settings}
use my_lpel.Hrc.Master.{
  Msg, terminate, wakeup, assign, request, return, Master, set_state, handle, return_as,
}
use my_lpel.Hrc.Master.Assign.{on_assign-Offered, on_wakeup-early, on_wakeup-Offered}
use my_lpel.Hrc.Master.Return.{
  return_ready-Offered, return_blocked-Rescued, return_blocked-Reordered, return_zombie-Destroyed,
}
use my_lpel.Hrc.Master.Neighbours.{Reordered}
use my_lpel.Hrc.Master.Request.{Answered, waits, gets, on_request-Answered}
use my_lpel.Hrc.Threads.{is_freed, deref}
use my_lpel.Hrc.System.{read_task, System, master_step, Closed}
use my_lpel.Hrc.System.Sound.{is_freed-times, count, Tokens, Turns, Marks, Sound}
use my_lpel.Hrc.System.Woken.{Marks-drop, Marks-resume, Marks-mark}
use my_lpel.Hrc.System.Hand.{
  InHand, take_assign, take_return, take_wakeup, take_queued, freed-Tokens,
}
use my_lpel.Hrc.System.Deliver.{Turns-drop, Turns-note, Turns-answer, asker_inside}
use my_lpel.Hrc.System.Round.{
  finish, after, unsent-Sound, sent-Sound, placed-Sound, parked-Sound, unsent,
}
use my_lpel.Hrc.System.Untouched.{
  Hosts-same, Tokens-drop, Tokens-same, Marks-placed, Marks-parked, Marks-same,
}

module _ {D : Type 0} ⦃d : Double D⦄ (Q : ReadyQueue D) (c : Settings D) where
  module _ (sys : System Q c) (v : Sound Q c sys) (w : World) (msgs : List Msg)
      (going : sys.over ≡ false) (room : Q.size sys.shared.master.ready_tasks < capacity) where
    abbrev After : Master Q c → Type 0
    After r = Sound Q c (record sys { shared = after Q c sys msgs r })

    abbrev m : Master Q c
    m = sys.shared.master

    abbrev n : ℕ
    n = m.num_workers

    round :
        (msg : Msg)
        → read_task Q c m msg ≡ ok tt
        → Yields After (handle Q c w m msg)
        → Yields (Sound Q c) (master_step Q c sys w (msg ∷ msgs))
    unfolding master_step after
    round msg live y = rw live (
        Yields-bind y λ r s.
          finish Q c sys (after Q c sys msgs r) (r.terminate && Q.size r.ready_tasks == 0) going s)

    live : (t : Ptr) → is_freed t m.destroyed ≡ false → deref Q c m t ≡ ok tt
    unfolding deref
    live t e = rw e refl

    stop-After :
        Tokens Q c (terminate ∷ msgs) m sys.started v.dest v.host
        → Turns Q c n (terminate ∷ msgs) m.waitworkers sys.phase v.box
        → Marks sys.woken (terminate ∷ msgs) m.state m.wakenup
        → Yields After (handle Q c w m terminate)
    unfolding handle
    stop-After tokens turns marks = yields (
        unsent-Sound Q c sys v msgs (record m { terminate = true })
          (record { valid = v.inv.valid; queued = v.inv.queued; null_out = v.inv.null_out }) refl
          (Marks-drop terminate (λ x. refl) marks) v.sent
          (Tokens-same Q c refl refl refl
            (Tokens-drop Q c terminate (λ x. refl) (λ x. refl) tokens))
          (Turns-drop Q c terminate (λ j. refl) turns) (Hosts-same Q c refl v.hosts))

    assign-After :
        (t : Ptr)
        → Tokens Q c (assign t ∷ msgs) m sys.started v.dest v.host
        → Turns Q c n (assign t ∷ msgs) m.waitworkers sys.phase v.box
        → Marks sys.woken (assign t ∷ msgs) m.state m.wakenup
        → Yields After (handle Q c w m (assign t))
    unfolding handle
    assign-After t tokens turns marks =
        let (hand, now) = take_assign Q c v.inv tokens in
        Yields-map (on_assign-Offered Q c w m t v.inv hand.nonnull room now) λ r o.
          placed-Sound Q c sys v msgs r o.inv o.num_workers
            (Marks-placed Q c m r _ (assign t) t o.place (λ x ne. refl)
              (λ x ne. ap (λ f. f x) o.wakenup) marks)
            false t going hand o.place o.destroyed (Turns-drop Q c (assign t) (λ j. refl) turns)

    wakeup-After :
        (t : Ptr)
        → t ≢ null
        → Tokens Q c (wakeup t ∷ msgs) m sys.started v.dest v.host
        → Turns Q c n (wakeup t ∷ msgs) m.waitworkers sys.phase v.box
        → Marks sys.woken (wakeup t ∷ msgs) m.state m.wakenup
        → Yields After (handle Q c w m (wakeup t))
    unfolding handle
    wakeup-After t ne tokens turns marks =
        let turns' = Turns-drop Q c (wakeup t) (λ j. refl) turns in
        elim (Bool-cases (is_returned (m.state t))) [
          | inl parked ↦
              let hand = take_wakeup Q c v.inv (returned_of _ parked) tokens in
              Yields-map (on_wakeup-Offered Q c w m t v.inv ne room (returned_of _ parked)) λ r o.
                placed-Sound Q c sys v msgs r o.inv o.num_workers
                  (Marks-placed Q c m r _ (wakeup t) t o.place (λ x ne. ==-ne x t ne)
                    (λ x ne. ap (λ f. f x) o.wakenup) marks)
                  _ t going hand o.place o.destroyed turns'
          | inr early ↦ rw (on_wakeup-early Q c w m t v.inv ne room early) (
              yields (
                unsent-Sound Q c sys v msgs (record m { wakenup = update m.wakenup t true })
                  (record { valid = v.inv.valid; queued = v.inv.queued; null_out = v.inv.null_out })
                  refl (Marks-mark t early marks) v.sent
                  (Tokens-same Q c refl refl refl
                    (Tokens-drop Q c (wakeup t) (λ x. refl) (λ x. refl) tokens))
                  turns' (Hosts-same Q c refl v.hosts)))
        ]

    answer-After :
        (i : ℕ)
        → Tokens Q c (request i ∷ msgs) m sys.started v.dest v.host
        → Turns Q c n (request i ∷ msgs) m.waitworkers sys.phase v.box
        → Marks sys.woken (request i ∷ msgs) m.state m.wakenup
        → i < n
        → (r : Master Q c) → Answered Q c m i r
        → After r
    answer-After i tokens turns marks inside r (waits why e) = rw e (
        unsent-Sound Q c sys v msgs (record m { waitworkers = update m.waitworkers i true })
          (record { valid = v.inv.valid; queued = v.inv.queued; null_out = v.inv.null_out }) refl
          (Marks-drop (request i) (λ x. refl) marks) v.sent
          (Tokens-same Q c refl refl refl
            (Tokens-drop Q c (request i) (λ x. refl) (λ x. refl) tokens))
          (Turns-note Q c i turns) (Hosts-same Q c refl v.hosts))
    answer-After i tokens turns marks inside r
          (gets t best high inv sent waiting state size same freed woken flag) =
        let hand = take_queued Q c v.inv best.held tokens in
        let (turns', empty) = Turns-answer Q c i t inside hand.nonnull turns in
        sent-Sound Q c sys v msgs r inv same
          (Marks-resume (request i) t ready refl (λ x ne. refl) (λ x ne. ap (λ f. f x) woken) state
            marks)
          i t inside going hand (sent ∙ ap (λ l. (i, t) ∷ l) v.sent) freed state empty
          (rw waiting turns')

    request-After :
        (i : ℕ)
        → Tokens Q c (request i ∷ msgs) m sys.started v.dest v.host
        → Turns Q c n (request i ∷ msgs) m.waitworkers sys.phase v.box
        → Marks sys.woken (request i ∷ msgs) m.state m.wakenup
        → Yields After (handle Q c w m (request i))
    unfolding handle
    request-After i tokens turns marks =
        let inside = asker_inside Q c i turns in
        Yields-map (on_request-Answered Q c m i v.inv inside)
          λ r a. answer-After i tokens turns marks inside r a

    return-After :
        (t : Ptr)
        → Closed Q c w m (return t ∷ msgs)
        → Tokens Q c (return t ∷ msgs) m sys.started v.dest v.host
        → Turns Q c n (return t ∷ msgs) m.waitworkers sys.phase v.box
        → Marks sys.woken (return t ∷ msgs) m.state m.wakenup
        → (s : TaskState) → m.state t ≡ s
        → Yields After (return_as Q c w m t s)
    unfolding set_state return_as
    return-After t closed tokens turns marks TaskState.blocked now =
        let (hand, why) = take_return Q c v.inv tokens in
        let turns' = Turns-drop Q c (return t) (λ j. refl) turns in
        elim (Bool-cases (m.wakenup t)) [
          | inl woken ↦
              Yields-map (return_blocked-Rescued Q c w m t v.inv hand.nonnull room woken now) λ r o.
                placed-Sound Q c sys v msgs r o.inv o.num_workers
                  (Marks-placed Q c m r _ (return t) t o.place (λ x ne. refl)
                    (λ x ne. ap (λ f. f x) o.wakenup ∙ rw (==-ne x t ne) refl) marks)
                  _ t going hand o.place o.destroyed turns'
          | inr asleep ↦
              Yields-map (return_blocked-Reordered Q c w m t v.inv asleep now)
                λ r a. parked r hand turns' a (Marks-parked Q c m r t asleep now a marks)
        ]
      where
        parked :
            (r : Master Q c)
            → InHand Q c msgs m sys.started v.dest v.host t
            → Turns Q c n msgs m.waitworkers sys.phase v.box
            → Reordered Q c (set_state Q c m t returned) r
            → Marks sys.woken msgs r.state r.wakenup
            → After r
        parked r hand turns' a marks' =
            parked-Sound Q c sys v msgs r a.inv a.num_workers marks' t hand a.sent a.waitworkers
              (λ x. ap (λ f. f x) a.state) a.destroyed turns'
    return-After t closed tokens turns marks TaskState.ready now =
        let (hand, why) = take_return Q c v.inv tokens in
        Yields-map (return_ready-Offered Q c w m t v.inv hand.nonnull room now) λ r o.
          placed-Sound Q c sys v msgs r o.inv o.num_workers
            (Marks-placed Q c m r _ (return t) t o.place (λ x ne. refl)
              (λ x ne. ap (λ f. f x) o.wakenup) marks)
            _ t going hand o.place o.destroyed (Turns-drop Q c (return t) (λ j. refl) turns)
    return-After t closed tokens turns marks TaskState.zombie now =
        let (hand, why) = take_return Q c v.inv tokens in
        let (no_in, no_out) = closed now in
        Yields-map (return_zombie-Destroyed Q c w m t v.inv now no_in no_out) λ r o.
          unsent-Sound Q c sys v msgs r o.inv o.num_workers
            (Marks-same Q c m r (return t) (λ x. refl) o.state o.wakenup marks) (o.sent ∙ v.sent)
            (freed-Tokens Q c hand v.inv (unsent Q c r o.inv) o.destroyed now o.state)
            (rw o.waitworkers (Turns-drop Q c (return t) (λ j. refl) turns))
            (Hosts-same Q c o.state v.hosts)
    return-After t closed tokens turns marks s now =
        let (hand, why) = take_return Q c v.inv tokens in absurd (ground (arith, why, now))

    pub master-Sound :
        (msg : Msg)
        → Closed Q c w m (msg ∷ msgs)
        → Tokens Q c (msg ∷ msgs) m sys.started v.dest v.host
        → Turns Q c n (msg ∷ msgs) m.waitworkers sys.phase v.box
        → Marks sys.woken (msg ∷ msgs) m.state m.wakenup
        → Yields (Sound Q c) (master_step Q c sys w (msg ∷ msgs))
    unfolding handle count read_task
    master-Sound terminate closed tokens turns marks =
        round terminate refl (stop-After tokens turns marks)
    master-Sound (wakeup t) closed tokens turns marks =
        round (wakeup t) (live t closed)
          (wakeup-After t (λ e. ground (arith, tokens.null_wake, e)) tokens turns marks)
    master-Sound (assign t) closed tokens turns marks =
        round (assign t) (live t (is_freed-times t m.destroyed (ground (arith, tokens.token t))))
          (assign-After t tokens turns marks)
    master-Sound (request i) closed tokens turns marks =
        round (request i) refl (request-After i tokens turns marks)
    master-Sound (return t) closed tokens turns marks =
        round (return t) (live t (is_freed-times t m.destroyed (ground (arith, tokens.token t))))
          (return-After t closed tokens turns marks (m.state t) refl)
