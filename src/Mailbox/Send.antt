-- ===== src/Mailbox/Send.antt =====
-- What a mailbox holds, and what sending a message changes.
use my_lpel.Common.{
  ◌≡◌, ◌≢◌, refl, ap, ◌∙◌, true, false, ◌||◌, none, some, [], ◌∷◌, ◌++◌, arith, ◌==◌, ==-false,
  ==-refl, ==-ne, ◌>>=◌, Yields, yields, Yields-bind, Yields-map, Ptr, null,
}
use my_lpel.Memory.{Heap, write, modify, load-ok, modify-ok}
use my_lpel.Memory.Seg.{
  Cells, has, has-append, has-differ, nil, cons, frame, Points-frame, not-has_of_none,
}
use my_lpel.Mailbox.{Node, Mailbox, get_free, put_inbox, send}
use my_lpel.Mailbox.Inbox.{handle, Chain, Inbox, vacant, filled, SameOutside, put_inbox-Inbox}

module _ {A : Type 0} where
  -- the pool and the inbox, which share no node
  pub record Holds (h : Heap (Node A)) (mbox : Mailbox) (pool inbox : Cells A) : Type 0 where
    pub free : Chain h null mbox.list_free pool
    pub queue : Inbox h mbox.list_inbox inbox
    pub apart : (a : Ptr) → has a pool ≡ true → has a inbox ≡ false

  -- where the node of a message comes from, and what is left in the pool
  pub data Recruit (fresh : Ptr) : Cells A → Ptr → Cells A → Type 0 where
    allocated : Recruit fresh [] fresh []
    pooled : {p : Ptr} {v : A} {xs : Cells A} → Recruit fresh ((p, v) ∷ xs) p xs

  -- the message is the last one of the inbox, in a node from the pool if it had one
  pub data Sent (h : Heap (Node A)) (fresh : Ptr) (msg : A) (pool xs : Cells A)
      : Heap (Node A) × Mailbox → Type 0 where
    sent :
        {node : Ptr} {rest : Cells A} {g : Heap (Node A)} {mbox : Mailbox}
        → Recruit fresh pool node rest
        → Holds g mbox rest (xs ++ (node, msg) ∷ [])
        → SameOutside ((node, msg) ∷ xs) h g
        → Sent h fresh msg pool xs (g, mbox)

  pub Inbox-frame :
      {h g : Heap (Node A)} {l : Ptr} {xs : Cells A}
      → Inbox h l xs
      → ((a : Ptr) → has a xs ≡ true → g a ≡ h a)
      → Inbox g l xs
  Inbox-frame vacant same = vacant
  Inbox-frame {h} {g} {xs} (filled {last} {first} {v} {ys} s p out eq) same =
      filled (frame s λ a i. same a (ground (arith, i, cells a)))
        (Points-frame p (same last (ground (arith, cells last)))) out eq
    where
      cells : (a : Ptr) → has a xs ≡ (has a ys || has a ((last, v) ∷ []))
      cells a = ap (has a) eq ∙ has-append a ys ((last, v) ∷ [])

  vacant_at :
      {h : Heap (Node A)} {l : Ptr} {xs : Cells A} (a : Ptr)
      → Inbox h l xs
      → h a ≡ none
      → has a xs ≡ false
  vacant_at a vacant unused = refl
  vacant_at a (filled {last} {v} {ys} s p out eq) unused =
      ground (
        arith,
        ap (has a) eq,
        has-append a ys ((last, v) ∷ []),
        not-has_of_none a s unused,
        p.holds,
      )

  -- what `GetFree` takes
  data Drawn (h : Heap (Node A)) (fresh l : Ptr) (pool : Cells A)
      : Ptr × Heap (Node A) × Mailbox → Type 0 where
    drawn :
        {node f : Ptr} {n : Node A} {rest : Cells A} {g : Heap (Node A)}
        → Recruit fresh pool node rest
        → node ≢ null
        → g node ≡ some n
        → has node rest ≡ false
        → Chain g null f rest
        → ((a : Ptr) → a ≢ node → g a ≡ h a)
        → Drawn h fresh l pool (node, g, handle f l)

  get_free-Drawn :
      {h : Heap (Node A)} {f l : Ptr} {pool : Cells A} (fresh : Ptr) (junk : Node A)
      → Chain h null f pool
      → fresh ≢ null
      → Yields (Drawn h fresh l pool) (get_free fresh junk h (handle f l))
  unfolding get_free
  get_free-Drawn {h} fresh junk nil ne =
      yields
        (drawn {n = junk} allocated ne (rw (==-refl fresh)) refl nil λ a i. rw (==-ne a fresh i))
  get_free-Drawn {h} fresh junk (cons {p} {v} {xs} e out s) ne =
      rw (==-ne p null e.ne_null, load-ok h p e.node e.ne_null e.holds, e.leads)
        (yields (drawn {n = e.node} pooled e.ne_null e.holds out s λ a i. refl))

  elsewhere :
      {h : Heap (Node A)} {mbox : Mailbox} {fresh node : Ptr} {pool xs rest : Cells A}
      → Holds h mbox pool xs
      → Recruit fresh pool node rest
      → h fresh ≡ none
      → has node xs ≡ false
  elsewhere {fresh} hold allocated unused = vacant_at fresh hold.queue unused
  elsewhere hold (pooled {p}) unused = hold.apart p (ground arith)

  Recruit-has :
      {fresh node : Ptr} {pool rest : Cells A} (a : Ptr)
      → Recruit fresh pool node rest
      → has a rest ≡ true
      → has a pool ≡ true
  Recruit-has a allocated i = i
  Recruit-has a (pooled {p}) i = ground (arith, i)

  -- the message arrives in the node
  deliver :
      {h : Heap (Node A)} {f l fresh : Ptr} {pool xs : Cells A} (msg : A)
      → Holds h (handle f l) pool xs
      → h fresh ≡ none
      → (r : Ptr × Heap (Node A) × Mailbox) → Drawn h fresh l pool r
      → Yields
          (Sent h fresh msg pool xs)
          (modify r.1 r.0 (λ n. record n { msg = msg }) >>= λ k. put_inbox k r.2 r.0)
  deliver {h} {l} {fresh} {pool} {xs} msg hold unused _
        (drawn {node} {f} {n} {rest} {g} recruit ne e out s same) =
      rw (modify-ok g node n ne e) (
        Yields-map
          (put_inbox-Inbox f node (record n { msg = msg }) queue ne (rw (==-refl node)) free_node)
          λ r (q, i, o).
            sent recruit
              (record { free = rw (i) (frame s (spared r.0 o)); queue = q; apart = apart' })
              λ a w. o a w ∙ kept a (ground (arith, w)))
    where
      free_node : has node xs ≡ false
      free_node = elsewhere hold recruit unused

      k : Heap (Node A)
      k = write g node (some (record n { msg = msg }))

      kept : (a : Ptr) → a == node ≡ false → k a ≡ h a
      kept a i = rw (i) (same a (==-false a node i))

      queue : Inbox k l xs
      queue = Inbox-frame hold.queue λ a i. kept a (==-ne a node (has-differ xs i free_node))

      apart' : (a : Ptr) → has a rest ≡ true → has a (xs ++ (node, msg) ∷ []) ≡ false
      apart' a i = ground (
        arith,
        hold.apart a (Recruit-has a recruit i),
        has-append a xs ((node, msg) ∷ []),
        ==-ne a node (has-differ rest i out),
      )

      spared :
          (k' : Heap (Node A))
          → SameOutside ((node, msg) ∷ xs) k k'
          → (a : Ptr) → has a rest ≡ true
          → k' a ≡ g a
      spared k' o a i = o a (ground (arith, apart, other)) ∙ rw (other)
        where
          other : a == node ≡ false
          other = ==-ne a node (has-differ rest i out)

          apart : has a xs ≡ false
          apart = hold.apart a (Recruit-has a recruit i)

  -- Sending to a well-formed mailbox, with an unused address from malloc, succeeds, takes a node
  -- from the pool or, if it is empty, the new one, puts the message behind all others, and
  -- changes no address but those of the inbox and the node.
  pub send-Sent :
      {h : Heap (Node A)} {mbox : Mailbox} {pool xs : Cells A} (fresh : Ptr) (junk : Node A)
      (msg : A)
      → Holds h mbox pool xs
      → fresh ≢ null
      → h fresh ≡ none
      → Yields (Sent h fresh msg pool xs) (send fresh junk msg h mbox)
  unfolding send
  send-Sent {mbox} fresh junk msg hold ne unused =
      Yields-bind (get_free-Drawn {l = mbox.list_inbox} fresh junk hold.free ne)
        (deliver msg hold unused)
