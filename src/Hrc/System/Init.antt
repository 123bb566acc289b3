-- ===== src/Hrc/System/Init.antt =====
-- `LpelWorkersInit`: before any thread runs.
use my_lpel.Common.{
  ℕ, zero, suc, ◌+◌, ◌<◌, ◌≡◌, ◌≢◌, refl, inl, inr, false, [], ◌==◌, arith, Bool-cases, ==-refl,
  ==-ne, ==-true, ==-false, Double, Ptr, null,
}
use my_lpel.Common.Int.{pos}
use my_lpel.ReadyQueue.{ReadyQueue}
use my_lpel.Hrc.World.{created}
use my_lpel.Hrc.Priority.{Settings}
use my_lpel.Hrc.Threads.{Shared, set_context, init_loop, workers_init}
use my_lpel.Hrc.System.{initial}
use my_lpel.Hrc.System.Sound.{count, times, Sound}

module _ {D : Type 0} ⦃d : Double D⦄ (Q : ReadyQueue D) (c : Settings D) where
  init_loop-Kept :
      (k i : ℕ) (s : Shared Q c) (w : ℕ → Ptr)
      → s.workers ≡ w
      → ((init_loop Q c k i s).master ≡ s.master)
        × ((init_loop Q c k i s).mastermb ≡ s.mastermb)
        × ((init_loop Q c k i s).workers ≡ w)
        × ((init_loop Q c k i s).worker_context ≡ s.worker_context)
  unfolding init_loop set_context
  init_loop-Kept zero i s w e = (refl, refl, e, refl)
  init_loop-Kept (suc k) i s w e = init_loop-Kept k (i + 1) (set_context Q c s (s.workers i) _) w e

  -- the contexts that the loop has reached are new
  init_loop_context :
      (workers : ℕ → Ptr) (n k i : ℕ) (s : Shared Q c)
      → i + k ≡ n
      → s.workers ≡ workers
      → ((j l : ℕ) → j < n → l < n → workers j ≡ workers l → j ≡ l)
      → ((j : ℕ)
          → j < i
          → ((s.context (workers j)).mailbox ≡ []) × ((s.context (workers j)).wid ≡ pos j))
      → (j : ℕ) → j < n
      → (((init_loop Q c k i s).context (workers j)).mailbox ≡ [])
        × (((init_loop Q c k i s).context (workers j)).wid ≡ pos j)
  unfolding init_loop set_context
  init_loop_context workers n zero i s e same apart before j h = before j (omega (arith, e, h))
  init_loop_context workers n (suc k) i s e same apart before j h =
      init_loop_context workers n k (i + 1) (set_context Q c s (s.workers i) _) (omega (arith, e))
        same apart
        (λ l h'. elim (Bool-cases (l == i)) [
          | inl at_i ↦ rw (==-true l i at_i, same, ==-refl (workers i)) (refl, refl)
          | inr far ↦
              let ne : l ≢ i = ==-false l i far in
              let other : workers l ≢ workers i =
                λ a. ne (apart l i (omega (arith, e, h')) (omega (arith, e)) a) in
              rw (same, ==-ne (workers l) (workers i) other) (before l (ground (arith, h', ne)))
        ])
        j h

  -- what is there before: an empty queue in order, no started task, and contexts that differ
  pub record IsFresh (n : ℕ) (q : Q.Queue) (workers : ℕ → Ptr) (s : Shared Q c) : Type 0 where
    pub valid : Q.Valid s.master.prior q
    pub empty : Q.size q ≡ 0
    pub state : (t : Ptr) → s.master.state t ≡ created
    pub sent : s.master.sent ≡ []
    pub destroyed : s.master.destroyed ≡ []
    pub worker_context : (t : Ptr) → s.worker_context t ≡ null
    pub apart : (i j : ℕ) → i < n → j < n → workers i ≡ workers j → i ≡ j
    pub nonnull : (i : ℕ) → i < n → workers i ≢ null

  pub initial-Sound :
      (n : ℕ) (q : Q.Queue) (workers : ℕ → Ptr) (s : Shared Q c)
      → IsFresh n q workers s
      → Sound Q c (initial Q c n q workers s)
  unfolding initial workers_init count times
  initial-Sound n q workers s f =
      let before = record s {
        workers = workers;
        mastermb = [];
        freewrappers = null;
        master = record s.master {
          ready_tasks = q;
          num_workers = n;
          waitworkers = λ i. false;
          terminate = false;
        };
      } in
      let (m, mb, w, wc) = init_loop-Kept n 0 before workers refl in
      let context =
        init_loop_context workers n n 0 before (omega arith) refl f.apart
          λ j h. absurd (omega (arith, h)) in
      record {
        dest = λ t. 0;
        host = λ t. 0;
        box = λ i. null;
        inv = rw m (record {
          valid = f.valid;
          queued = λ t. rw (f.state t) (Q.empty_holds q t f.empty);
          null_out = rw (f.state null);
        });
        sent = rw m f.sent;
        marks =
            rw (m, mb)
              (record { answered = λ t h. ground (arith, f.state t); unlost = λ t a b. cc });
        tokens =
            rw (m, mb)
              (record {
                token = λ t. rw (Q.empty_holds q t f.empty, f.state t, f.destroyed) refl;
                new = λ t h. f.state t;
                back = λ t h. absurd (omega (arith, h));
                sent = λ t h. absurd (omega (arith, h));
                null_new = refl;
                null_wake = refl;
              });
        turns = rw (m, mb) (record { turn = λ i h. refl; stranger = λ i h. refl });
        boxes =
            rw (m, w)
              (record {
                box_dest = λ i h ne. absurd (ne refl);
                dest_box = λ t i h. absurd (omega (arith, h));
                mailbox = λ i h. (context i h).0;
                wid = λ i h. (context i h).1;
                apart = f.apart;
                nonnull = f.nonnull;
                early = λ i h e. refl;
              });
        hosts =
            rw (m, w, wc)
              (record {
                on_host = λ i h ne. absurd (ne refl);
                host_on = λ t i h. absurd (omega (arith, h));
                state = λ i h ne. absurd (ne refl);
                real = λ i h e. cc;
                hosted = λ t i h. absurd (omega (arith, h));
                free = λ t h. f.worker_context t;
              });
        current = record { task = λ i h e. cc };
      }
