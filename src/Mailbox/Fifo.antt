-- ===== src/Mailbox/Fifo.antt =====
-- The mailbox as a first-in first-out queue: sends and receives in any order.
use my_lpel.Common.{◌≡◌, ◌≢◌, refl, sym, ap, ◌∙◌, none, some, List, [], ◌∷◌, ◌++◌, ok, Ptr, null}
use my_lpel.Common.{Yields-at}
use mathlib.Core.List.{append_assoc, append-nil}
use my_lpel.Memory.{Heap}
use my_lpel.Memory.Seg.{Cells, vals, vals-append, nil}
use my_lpel.Mailbox.{Node, Mailbox, create, send, recv}
use my_lpel.Mailbox.Inbox.{vacant}
use my_lpel.Mailbox.Send.{Holds, Sent, sent, send-Sent}
use my_lpel.Mailbox.Recv.{Received, received, recv-Received}

module _ {A : Type 0} where
  -- a sequence of calls, with the messages sent and the messages received, in order
  pub data Trace (h : Heap (Node A)) (mbox : Mailbox)
      : List A → List A → Heap (Node A) → Mailbox → Type 0 where
    start : Trace h mbox [] [] h mbox
    sends :
        {ins outs : List A} {g k : Heap (Node A)} {m m' : Mailbox} (fresh : Ptr) (junk : Node A)
        (msg : A)
        → Trace h mbox ins outs g m
        → fresh ≢ null
        → g fresh ≡ none
        → send fresh junk msg g m ≡ ok (k, m')
        → Trace h mbox (ins ++ msg ∷ []) outs k m'
    receives :
        {ins outs : List A} {g k : Heap (Node A)} {m m' : Mailbox} (msg : A)
        → Trace h mbox ins outs g m
        → recv g m ≡ ok (some (msg, k, m'))
        → Trace h mbox ins (outs ++ msg ∷ []) k m'

  -- what is still in the mailbox after a sequence of calls
  pub record Pending (before : List A) (ins outs : List A) (g : Heap (Node A)) (m : Mailbox)
      : Type 0 where
    pub pool : Cells A
    pub inbox : Cells A
    pub holds : Holds g m pool inbox
    pub in_order : before ++ ins ≡ outs ++ vals inbox

  after_send :
      {before ins outs : List A} {g : Heap (Node A)} {m : Mailbox} {fresh : Ptr} {msg : A}
      {r : Heap (Node A) × Mailbox} (p : Pending before ins outs g m)
      → Sent g fresh msg p.pool p.inbox r
      → Pending before (ins ++ msg ∷ []) outs r.0 r.1
  after_send {before} {ins} {outs} {msg} p (sent {node} {rest} recruit hold same) = record {
    pool = rest;
    inbox = p.inbox ++ (node, msg) ∷ [];
    holds = hold;
    in_order =
        sym (append_assoc before ins (msg ∷ []))
        ∙ ap (λ l. l ++ msg ∷ []) p.in_order
        ∙ append_assoc outs (vals p.inbox) (msg ∷ [])
        ∙ ap (◌++◌ outs) (sym (vals-append p.inbox ((node, msg) ∷ [])));
  }

  after_recv :
      (before ins outs : List A) {g k : Heap (Node A)} {m' : Mailbox} {pool xs : Cells A} {msg : A}
      → before ++ ins ≡ outs ++ vals xs
      → Received g pool xs (some (msg, k, m'))
      → Pending before ins (outs ++ msg ∷ []) k m'
  after_recv before ins outs e (received {msg} {xs} hold same) = record {
    pool = _;
    inbox = xs;
    holds = hold;
    in_order = e ∙ sym (append_assoc outs (msg ∷ []) (vals xs));
  }

  -- After any sequence of successful sends and receives on a well-formed mailbox, the messages
  -- received followed by those still in it are the messages held before followed by those sent,
  -- in order, and the mailbox is well formed.
  pub trace-Pending :
      {h : Heap (Node A)} {mbox : Mailbox} {pool xs : Cells A} {ins outs : List A}
      {g : Heap (Node A)} {m : Mailbox}
      → Holds h mbox pool xs
      → Trace h mbox ins outs g m
      → Pending (vals xs) ins outs g m
  trace-Pending {xs} hold start = record {
    pool = _;
    inbox = xs;
    holds = hold;
    in_order = append-nil (vals xs);
  }
  trace-Pending hold (sends {k} {m'} fresh junk msg t ne unused e) =
      let p = trace-Pending hold t in
      after_send p (Yields-at (k, m') (send-Sent fresh junk msg p.holds ne unused) e)
  trace-Pending hold (receives {k} {m'} msg t e) =
      let p = trace-Pending hold t in
      after_recv _ _ _ p.in_order (Yields-at (some (msg, k, m')) (recv-Received p.holds) e)

  pub create-Holds : (h : Heap (Node A)) → Holds h create [] []
  unfolding create
  create-Holds h = record { free = nil; queue = vacant; apart = λ a i. refl }
