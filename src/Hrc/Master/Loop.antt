-- ===== src/Hrc/Master/Loop.antt =====
-- `MasterLoop`.
use my_lpel.Common.{
  ◌<◌, ◌≡◌, refl, ap, ◌∙◌, inl, inr, Bool, true, false, ◌&&◌, ◌||◌, List, [], ◌∷◌, arith, ◌==◌,
  Bool-cases, ok, Yields, yields, Yields-open, Yields-at, Double, Ptr,
}
use my_lpel.ReadyQueue.{ReadyQueue, capacity}
use my_lpel.Hrc.World.{TaskState, is_inqueue}
use my_lpel.Hrc.Priority.{Settings}
use my_lpel.Hrc.Master.{Master, set_state, handle, master_loop, Event, apply_writes}
use my_lpel.Hrc.Master.Invariant.{Inv, set_state-Inv}
use my_lpel.Hrc.Master.Steps.{Legal, handle-Stepped}
use my_lpel.Hrc.Master.Ends.{stops, handle-terminate}

-- one of the messages is a termination message
abbrev pub any_stops : List Event → Bool
any_stops [] = false
any_stops (ev ∷ evs) = stops ev.msg || any_stops evs

module _ {D : Type 0} ⦃d : Double D⦄ (Q : ReadyQueue D) (c : Settings D) where
  -- the tasks write only states of tasks that are not queued
  abbrev pub LegalWrites : List (Ptr × TaskState) → Master Q c → Type 0
  LegalWrites [] m = Unit
  LegalWrites ((t, s) ∷ writes) m =
      (is_inqueue (m.state t) ≡ false)
      × (is_inqueue s ≡ false)
      × LegalWrites writes (set_state Q c m t s)

  -- each message is one that can arrive in the state in which it is handled
  abbrev pub LegalRun : List Event → Master Q c → Type 0
  LegalRun [] m = Unit
  LegalRun (ev ∷ evs) m =
      LegalWrites ev.writes m
      × (Q.size m.ready_tasks < capacity)
      × Legal Q c ev.world (apply_writes Q c ev.writes m) ev.msg
      × ((r : Master Q c)
          → handle Q c ev.world (apply_writes Q c ev.writes m) ev.msg ≡ ok r
          → LegalRun evs r)

  apply_writes-Inv :
      (writes : List (Ptr × TaskState)) (m : Master Q c)
      → LegalWrites writes m
      → Inv Q c m
      → Inv Q c (apply_writes Q c writes m)
  unfolding apply_writes
  apply_writes-Inv [] m h v = v
  apply_writes-Inv ((t, s) ∷ writes) m h v =
      apply_writes-Inv writes (set_state Q c m t s) h.2 (set_state-Inv Q c m t s v h.0 h.1)

  apply_writes_queue :
      (writes : List (Ptr × TaskState)) (m : Master Q c)
      → (apply_writes Q c writes m).ready_tasks ≡ m.ready_tasks
  unfolding apply_writes set_state
  apply_writes_queue [] m = refl
  apply_writes_queue ((t, s) ∷ writes) m = apply_writes_queue writes (set_state Q c m t s)

  apply_writes_terminate :
      (writes : List (Ptr × TaskState)) (m : Master Q c)
      → (apply_writes Q c writes m).terminate ≡ m.terminate
  unfolding apply_writes set_state
  apply_writes_terminate [] m = refl
  apply_writes_terminate ((t, s) ∷ writes) m = apply_writes_terminate writes (set_state Q c m t s)

  -- the loop goes on, or it has ended as it should
  pub record Looped (told : Bool) (r : Bool × Master Q c) : Type 0 where
    pub inv : Inv Q c r.1
    pub ended :
        r.0 ≡ true
        → (told ≡ true)
          × (Q.size r.1.ready_tasks ≡ 0)
          × ((t : Ptr) → is_inqueue (r.1.state t) ≡ false)

  finished :
      (told : Bool) (r : Master Q c)
      → Inv Q c r
      → (r.terminate ≡ true → told ≡ true)
      → (r.terminate && Q.size r.ready_tasks == 0) ≡ true
      → Looped told (true, r)
  finished told r v why h =
      let empty : Q.size r.ready_tasks ≡ 0 = ground arith in
      record {
        inv = v;
        ended = λ _. (
          why (ground arith),
          empty,
          λ t. ground (arith, v.queued t, Q.empty_holds r.ready_tasks t),
        );
      }

  runs_on :
      (evs : List Event) (told : Bool) (m : Master Q c)
      → Inv Q c m
      → LegalRun evs m
      → ((any_stops evs || m.terminate) ≡ true → told ≡ true)
      → Yields (Looped told) (master_loop Q c evs m)
  unfolding master_loop
  runs_on [] told m v h why = yields (record { inv = v; ended = λ e. cc })
  runs_on (ev ∷ evs) told m v (writes, room, legal, later) why =
      let u = apply_writes Q c ev.writes m in
      let v' = apply_writes-Inv ev.writes m writes v in
      let room' : Q.size u.ready_tasks < capacity = rw (apply_writes_queue ev.writes m) room in
      let (r, run, s) = Yields-open (handle-Stepped Q c ev.world u v' room' ev.msg legal) in
      let kept : r.terminate ≡ (stops ev.msg || m.terminate) =
        Yields-at r (handle-terminate Q c ev.world u v' room' ev.msg legal) run
        ∙ ap (λ b. stops ev.msg || b) (apply_writes_terminate ev.writes m) in
      let rest = runs_on evs told r s.inv (later r run) λ e. why (ground (arith, kept, e)) in
      rw run (elim (Bool-cases (r.terminate && Q.size r.ready_tasks == 0)) [
        | inl over ↦
            rw over (yields (finished told r s.inv (λ e. why (ground (arith, kept, e))) over))
        | inr go ↦ rw go rest
      ])

  -- On any legal run from a state with the invariant that was not told to end, where the queue
  -- has room at each message, the loop keeps the invariant, and it ends only if one of the
  -- messages is a termination message, with an empty queue and no task in state INQUEUE.
  pub master_loop-Looped :
      (evs : List Event) (m : Master Q c)
      → Inv Q c m
      → LegalRun evs m
      → m.terminate ≡ false
      → Yields (Looped (any_stops evs)) (master_loop Q c evs m)
  master_loop-Looped evs m v h off = runs_on evs (any_stops evs) m v h λ e. ground (arith, off, e)
