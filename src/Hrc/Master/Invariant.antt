-- ===== src/Hrc/Master/Invariant.antt =====
-- The master's invariant, and what its helpers do to it.
use my_lpel.Common.{
  ◌+◌, ◌<◌, ◌≡◌, ◌≢◌, refl, false, arith, if◌then◌else◌, Yields, yields, Yields-bind, update,
  Double, Ptr, null,
}
use my_lpel.ReadyQueue.{ReadyQueue, capacity}
use my_lpel.Hrc.World.{TaskState, inqueue, is_inqueue}
use my_lpel.Hrc.Priority.{Settings}
use my_lpel.Hrc.Master.{Master, set_state, set_prior, enqueue}

module _ {D : Type 0} ⦃d : Double D⦄ (Q : ReadyQueue D) (c : Settings D) where
  -- the queue is in order, and holds exactly the tasks in state INQUEUE, each once
  pub record Inv (m : Master Q c) : Type 0 where
    pub valid : Q.Valid m.prior m.ready_tasks
    pub queued : (t : Ptr) → Q.holds m.ready_tasks t ≡ (if is_inqueue (m.state t) then 1 else 0)
    pub null_out : is_inqueue (m.state null) ≡ false

  pub set_state-Inv :
      (m : Master Q c) (t : Ptr) (s : TaskState)
      → Inv m
      → is_inqueue (m.state t) ≡ false
      → is_inqueue s ≡ false
      → Inv (set_state Q c m t s)
  unfolding set_state
  set_state-Inv m t s v out out' = record {
    valid = v.valid;
    queued = λ x. ground (arith, v.queued x);
    null_out = ground (arith, v.null_out);
  }

  pub set_prior-Inv :
      (m : Master Q c) (t : Ptr) (p : D)
      → Inv m
      → is_inqueue (m.state t) ≡ false
      → Inv (set_prior Q c m t p)
  unfolding set_prior
  set_prior-Inv m t p v out = record {
    valid = Q.write_outside m.prior m.ready_tasks t p v.valid (rw (v.queued t, out));
    queued = v.queued;
    null_out = v.null_out;
  }

  -- the task is in the queue and nothing else has changed
  pub record Enqueued (m : Master Q c) (t : Ptr) (r : Master Q c) : Type 0 where
    pub inv : Inv r
    pub grown : Q.size r.ready_tasks ≡ Q.size m.ready_tasks + 1
    pub state : r.state ≡ update m.state t inqueue
    pub prior : r.prior ≡ m.prior
    pub sent : r.sent ≡ m.sent
    pub waitworkers : r.waitworkers ≡ m.waitworkers
    pub num_workers : r.num_workers ≡ m.num_workers
    pub wakenup : r.wakenup ≡ m.wakenup
    pub terminate : r.terminate ≡ m.terminate
    pub destroyed : r.destroyed ≡ m.destroyed

  pub enqueue-Enqueued :
      (m : Master Q c) (t : Ptr)
      → Inv m
      → is_inqueue (m.state t) ≡ false
      → t ≢ null
      → Q.size m.ready_tasks < capacity
      → Yields (Enqueued m t) (enqueue Q c m t)
  unfolding enqueue
  enqueue-Enqueued m t v out ne room =
      Yields-bind (Q.push_adds m.prior m.ready_tasks t v.valid room) λ q (valid, grown, adds).
        yields (record {
          inv = record {
            valid = valid;
            queued = λ x. ground (arith, adds x, v.queued x, v.queued t);
            null_out = ground (arith, v.null_out);
          };
          grown = grown;
          state = refl;
          prior = refl;
          sent = refl;
          waitworkers = refl;
          num_workers = refl;
          wakenup = refl;
          terminate = refl;
          destroyed = refl;
        })
