-- ===== src/Hrc/System/Round.antt =====
-- What the master leaves behind after a message, and at the end of its loop.
use my_lpel.Common.{
  ℕ, suc, ◌<◌, ◌≡◌, refl, ap, ◌∙◌, inl, inr, Bool, true, false, not, List, [], ◌∷◌, ◌++◌, ◌==◌,
  if◌then◌else◌, arith, Yields, yields, update, ok, Bool-cases, ltb-false, Double, Ptr, null,
}
use my_lpel.ReadyQueue.{ReadyQueue}
use my_lpel.Hrc.World.{ready, returned, inqueue}
use my_lpel.Hrc.Priority.{Settings}
use my_lpel.Hrc.Master.{Msg, terminate, Master}
use my_lpel.Hrc.Master.Invariant.{Inv}
use my_lpel.Hrc.Master.Offer.{Placed, given, kept}
use my_lpel.Hrc.Threads.{Shared, set_context, to_context, broadcast}
use my_lpel.Hrc.System.{Phase, System, deliver}
use my_lpel.Hrc.System.Sound.{is_ending, box_of, Tokens, Turns, Hosts, Marks, Sound}
use my_lpel.Hrc.System.Current.{Currents-same, same_current}
use my_lpel.Hrc.System.Hand.{InHand, given-Tokens, kept-Tokens, parked-Tokens, Hosts-others}
use my_lpel.Hrc.System.Deliver.{Turns-give, Boxes-give, broadcast_loop-Kept, broadcast_loop_mailbox}

module _ {D : Type 0} ⦃d : Double D⦄ (Q : ReadyQueue D) (c : Settings D) where
  box_of_told :
      (box : Ptr) (told : Bool)
      → told ≡ true
      → box_of box false ++ (terminate ∷ []) ≡ box_of box told
  box_of_told box told e = elim (Bool-cases (box == null)) [
    | inl empty ↦ rw (empty, e) refl
    | inr full ↦ rw (full, e) refl
  ]

  broadcast-Sound :
      (sys : System Q c)
      → Sound Q c sys
      → sys.over ≡ false
      → Sound Q c (record sys { shared = broadcast Q c terminate sys.shared; over = true })
  unfolding broadcast
  broadcast-Sound sys v going =
      let n = sys.shared.master.num_workers in
      let k = broadcast_loop-Kept Q c n 0 terminate sys.shared in
      record {
        dest = v.dest;
        host = v.host;
        box = v.box;
        inv = rw k.master v.inv;
        sent = rw k.master v.sent;
        marks = rw (k.master, k.mastermb) v.marks;
        tokens = rw (k.master, k.mastermb) v.tokens;
        turns = rw (k.master, k.mastermb) v.turns;
        boxes =
            rw (k.master, k.workers)
              (record {
                box_dest = v.boxes.box_dest;
                dest_box = v.boxes.dest_box;
                mailbox = λ j h.
                    let open_now : is_ending (sys.phase j) ≡ false = v.boxes.early j h going in
                    broadcast_loop_mailbox Q c (λ l. box_of (v.box l) false) terminate
                      sys.shared.workers n n 0 sys.shared (omega arith) refl v.boxes.apart
                      (λ l h'. rw (v.boxes.mailbox l h', going, ltb-false l 0 (omega arith)) refl) j
                      h
                    ∙ box_of_told (v.box j) (not (is_ending (sys.phase j))) (rw open_now);
                wid = λ j h. k.wid (sys.shared.workers j) ∙ v.boxes.wid j h;
                apart = v.boxes.apart;
                nonnull = v.boxes.nonnull;
                early = λ j h e. cc;
              });
        hosts = rw (k.master, k.workers, k.worker_context) v.hosts;
        current = rw (k.master, k.workers) (Currents-same k.current v.current);
      }

  -- the loop goes on, or ends with the broadcast
  pub finish :
      (sys : System Q c) (s : Shared Q c) (over : Bool)
      → sys.over ≡ false
      → Sound Q c (record sys { shared = s })
      → Yields (Sound Q c) (
          if over
          then ok (record sys { shared = broadcast Q c terminate s; over = true })
          else ok (record sys { shared = s }))
  finish sys s true going v = yields (broadcast-Sound (record sys { shared = s }) v going)
  finish sys s false going v = yields v

  -- what the master leaves in the memory after a message
  unfoldable pub after : System Q c → List Msg → Master Q c → Shared Q c
  after sys msgs r =
      deliver Q c r.sent (record sys.shared { mastermb = msgs; master = record r { sent = [] } })

  Hosts-size :
      {n n' : ℕ} {m : Master Q c} {workers : ℕ → Ptr} {worker_context : Ptr → Ptr}
      {phase : ℕ → Phase} {host : Ptr → ℕ}
      → n' ≡ n
      → Hosts Q c n m workers worker_context phase host
      → Hosts Q c n' m workers worker_context phase host
  Hosts-size same h = rw same h

  pub unsent : (r : Master Q c) → Inv Q c r → Inv Q c (record r { sent = [] })
  unsent r inv = record { valid = inv.valid; queued = inv.queued; null_out = inv.null_out }

  module _ (sys : System Q c) (v : Sound Q c sys) (msgs : List Msg) (r : Master Q c)
      (inv : Inv Q c r) (same : r.num_workers ≡ sys.shared.master.num_workers)
      (marks : Marks sys.woken msgs r.state r.wakenup) where
    -- nothing is sent
    pub unsent-Sound :
        r.sent ≡ []
        → Tokens Q c msgs (record r { sent = [] }) sys.started v.dest v.host
        → Turns Q c sys.shared.master.num_workers msgs r.waitworkers sys.phase v.box
        → Hosts Q c sys.shared.master.num_workers
            (record r { sent = [] })
            sys.shared.workers
            sys.shared.worker_context
            sys.phase
            v.host
        → Sound Q c (record sys { shared = after sys msgs r })
    unfolding after deliver
    unsent-Sound none_sent tokens turns hosts = rw none_sent (record {
      dest = v.dest;
      host = v.host;
      box = v.box;
      inv = unsent r inv;
      sent = refl;
      marks = marks;
      tokens = tokens;
      turns = rw same turns;
      boxes = rw same v.boxes;
      hosts = Hosts-size same hosts;
      current = rw same v.current;
    })

    -- worker `i` is sent the task in hand
    pub sent-Sound :
        (i : ℕ) (t : Ptr)
        → i < sys.shared.master.num_workers
        → sys.over ≡ false
        → InHand Q c msgs sys.shared.master sys.started v.dest v.host t
        → r.sent ≡ (i, t) ∷ []
        → r.destroyed ≡ sys.shared.master.destroyed
        → ((x : Ptr) → r.state x ≡ update sys.shared.master.state t ready x)
        → v.box i ≡ null
        → Turns Q c sys.shared.master.num_workers msgs r.waitworkers sys.phase (update v.box i t)
        → Sound Q c (record sys { shared = after sys msgs r })
    unfolding after deliver to_context set_context
    sent-Sound i t inside going hand sent freed now empty turns = rw sent (record {
      dest = update v.dest t (suc i);
      host = v.host;
      box = update v.box i t;
      inv = unsent r inv;
      sent = refl;
      marks = marks;
      tokens = given-Tokens Q c hand v.inv (unsent r inv) i freed now;
      turns = rw same turns;
      boxes = rw same (
          Boxes-give Q c i t inside hand.nonnull empty (ground (arith, hand.token t))
            (ground (arith, v.tokens.token null, v.tokens.null_new)) going v.boxes);
      hosts = Hosts-size same (Hosts-others Q c hand v.inv (unsent r inv) ready now v.hosts);
      current =
          rw same (
            Currents-same (same_current sys.shared.context (sys.shared.workers i) _ refl)
              v.current);
    })

    -- the task in hand is sent to a waiting worker, or queued
    pub placed-Sound :
        (low : Bool) (t : Ptr)
        → sys.over ≡ false
        → InHand Q c msgs sys.shared.master sys.started v.dest v.host t
        → Placed Q c low sys.shared.master t r
        → r.destroyed ≡ sys.shared.master.destroyed
        → Turns Q c sys.shared.master.num_workers msgs sys.shared.master.waitworkers sys.phase v.box
        → Sound Q c (record sys { shared = after sys msgs r })
    placed-Sound low t going hand (given i high f sent waiting now size) freed turns =
        let (turns', empty) = Turns-give Q c i t f.inside hand.nonnull f.waits turns in
        sent-Sound i t f.inside going hand (sent ∙ ap (λ l. (i, t) ∷ l) v.sent) freed now empty
          (rw waiting turns')
    placed-Sound low t going hand (kept why sent waiting now size) freed turns =
        unsent-Sound (sent ∙ v.sent) (kept-Tokens Q c hand v.inv (unsent r inv) freed now)
          (rw waiting turns) (Hosts-others Q c hand v.inv (unsent r inv) inqueue now v.hosts)

    -- the task in hand becomes RETURNED
    pub parked-Sound :
        (t : Ptr)
        → InHand Q c msgs sys.shared.master sys.started v.dest v.host t
        → r.sent ≡ sys.shared.master.sent
        → r.waitworkers ≡ sys.shared.master.waitworkers
        → ((x : Ptr) → r.state x ≡ update sys.shared.master.state t returned x)
        → r.destroyed ≡ sys.shared.master.destroyed
        → Turns Q c sys.shared.master.num_workers msgs sys.shared.master.waitworkers sys.phase v.box
        → Sound Q c (record sys { shared = after sys msgs r })
    parked-Sound t hand sent waiting now freed turns =
        unsent-Sound (sent ∙ v.sent) (parked-Tokens Q c hand v.inv (unsent r inv) freed now)
          (rw waiting turns) (Hosts-others Q c hand v.inv (unsent r inv) returned now v.hosts)
