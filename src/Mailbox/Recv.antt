-- ===== src/Mailbox/Recv.antt =====
-- What receiving a message changes, and what destroying the mailbox frees.
use my_lpel.Common.{
  ℕ, zero, suc, ◌<◌, ◌≡◌, ◌≢◌, refl, ◌∙◌, inl, inr, true, false, Option, none, some, [], ◌∷◌, arith,
  ◌==◌, if◌then◌else◌, Bool-cases, ==-true, ==-ne, ok, Yields, yields, Yields-bind, Yields-map, Ptr,
  null,
}
use my_lpel.Common.Lists.{length}
use my_lpel.Memory.{Heap, write, load-ok, modify-ok, free-ok}
use my_lpel.Memory.Seg.{Cells, has, has-differ, nil, cons, frame, frame-write, Points-write}
use my_lpel.Mailbox.{Node, Mailbox, put_free, recycle, recv, destroy_loop, destroy}
use my_lpel.Mailbox.Inbox.{handle, Chain, Inbox, vacant, filled, SameOutside}
use my_lpel.Mailbox.Take.{Taken, waits, takes, take_inbox-Taken}
use my_lpel.Mailbox.Send.{Holds, Inbox-frame}

module _ {A : Type 0} where
  -- the message was the first one of the inbox, and its node joins the pool
  pub data Received (h : Heap (Node A)) (pool : Cells A)
      : Cells A → Option (A × Heap (Node A) × Mailbox) → Type 0 where
    quiet : Received h pool [] none
    received :
        {node : Ptr} {msg : A} {xs : Cells A} {g : Heap (Node A)} {mbox : Mailbox}
        → Holds g mbox ((node, msg) ∷ pool) xs
        → SameOutside ((node, msg) ∷ xs) h g
        → Received h pool ((node, msg) ∷ xs) (some (msg, g, mbox))

  put_free-ok :
      (h : Heap (Node A)) (f l node : Ptr) (n : Node A)
      → node ≢ null
      → h node ≡ some n
      → put_free h (handle f l) node
        ≡ ok (write h node (some (record n { next = f })), handle node l)
  unfolding put_free
  put_free-ok h f l node n ne e = rw (modify-ok h node n ne e, free_next)
    where
      free_next : (if f == null then null else f) ≡ f
      free_next = ground arith

  recycle-Received :
      {h : Heap (Node A)} {f l : Ptr} {pool xs : Cells A}
      → Holds h (handle f l) pool xs
      → (r : Option (Ptr × Heap (Node A) × Mailbox)) → Taken h f xs r
      → Yields (Received h pool xs) (recycle r)
  unfolding recycle
  recycle-Received hold _ waits = yields quiet
  recycle-Received {h} {f} {pool} hold _
        (takes {first} {w} {xs = rest} {n} {g} {l} q ne e v out same) =
      rw (load-ok g first n ne e, put_free-ok g f l first n ne e, ← v)
        (yields (
          received
            (record {
              free =
                  cons (Points-write g first (record n { next = f }) ne refl refl) apart_first
                    (frame-write first _ (frame hold.free kept) apart_first);
              queue = Inbox-frame q λ a i. rw (==-ne a first (has-differ rest i out));
              apart = apart_after;
            })
            λ a o. ground (arith, o, same a o)))
    where
      apart_first : has first pool ≡ false
      apart_first = ground (arith, hold.apart first)

      split : (a : Ptr) → has a pool ≡ true → has a rest ≡ false
      split a i = ground (arith, hold.apart a i)

      apart_after : (a : Ptr) → has a ((first, w) ∷ pool) ≡ true → has a rest ≡ false
      apart_after a i = elim (Bool-cases (a == first)) [
        | inl e ↦ rw (==-true a first e) out
        | inr e ↦ split a (ground (arith, i, e))
      ]

      kept : (a : Ptr) → has a pool ≡ true → g a ≡ h a
      kept a i = same a (hold.apart a i)

  -- Receiving from a well-formed mailbox waits exactly when the inbox is empty; otherwise it
  -- returns the first message, puts its node into the pool, and changes no address outside the
  -- inbox.
  pub recv-Received :
      {h : Heap (Node A)} {mbox : Mailbox} {pool xs : Cells A}
      → Holds h mbox pool xs
      → Yields (Received h pool xs) (recv h mbox)
  unfolding recv
  recv-Received {mbox} hold =
      Yields-bind (take_inbox-Taken mbox.list_free hold.queue) (recycle-Received hold)

  destroy_loop-Freed :
      (k : ℕ) {h : Heap (Node A)} {f : Ptr} {pool : Cells A}
      → Chain h null f pool
      → length pool < k
      → Yields (λ g. (a : Ptr) → g a ≡ (if has a pool then none else h a)) (destroy_loop k h f)
  unfolding destroy_loop
  destroy_loop-Freed zero s i = absurd (ground (arith, i))
  destroy_loop-Freed (suc k) nil i = yields λ a. refl
  destroy_loop-Freed (suc k) {h} (cons {p} {v} {xs} e out s) i =
      rw
        (
          ==-ne p null e.ne_null,
          load-ok h p e.node e.ne_null e.holds,
          free-ok h p e.node e.ne_null e.holds,
          e.leads,
        )
        (Yields-map (destroy_loop-Freed k (frame-write p none s out) (omega (arith, i)))
          λ g all a. all a ∙ ground arith)

  Inbox-empty : {h : Heap (Node A)} {l : Ptr} → Inbox h l [] → l ≡ null
  Inbox-empty vacant = refl
  Inbox-empty (filled {ys = []} s p out eq) = ground (arith, eq)
  Inbox-empty (filled {ys = y ∷ ys} s p out eq) = ground (arith, eq)

  -- Destroying a well-formed mailbox with an empty inbox, given fuel above the number of nodes,
  -- frees each node of the pool once and the mailbox itself, and nothing else.
  pub destroy-Freed :
      {h : Heap (Node A)} {mbox : Mailbox} {pool : Cells A} (k : ℕ) (boxes : Heap Mailbox) (p : Ptr)
      → p ≢ null
      → boxes p ≡ some mbox
      → Holds h mbox pool []
      → length pool < k
      → Yields
          (λ (g, rest).
            ((a : Ptr) → g a ≡ (if has a pool then none else h a))
            × ((a : Ptr) → rest a ≡ (if a == p then none else boxes a)))
          (destroy k h boxes p)
  unfolding destroy
  destroy-Freed {mbox} k boxes p ne at hold i =
      rw (load-ok boxes p mbox ne at, Inbox-empty hold.queue)
        (Yields-bind (destroy_loop-Freed k hold.free i)
          λ g all. rw (free-ok boxes p mbox ne at) (yields (all, λ a. refl)))
