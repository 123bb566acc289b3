-- ===== src/Mailbox/Inbox.antt =====
-- The circular inbox as a list of messages.
use my_lpel.Common.{
  ◌≡◌, ◌≢◌, refl, sym, ap, false, some, [], ◌∷◌, ◌++◌, arith, ==-ne, Yields, yields, Ptr, null,
}
use my_lpel.Memory.{Heap, write, load-ok, modify-ok}
use my_lpel.Memory.Seg.{
  Cells, has, has-append, Points, Seg, nil, frame-write, snoc, Points-write, Points-skip,
}
use my_lpel.Mailbox.{Node, Mailbox, put_inbox}

abbrev pub handle : Ptr → Ptr → Mailbox
handle f l = record { list_free = f; list_inbox = l }

module _ {A : Type 0} where
  abbrev pub PointsTo : Heap (Node A) → Ptr → A → Ptr → Type 0
  PointsTo = Points (λ n. n.next) (λ n. n.msg)

  abbrev pub Chain : Heap (Node A) → Ptr → Ptr → Cells A → Type 0
  Chain = Seg (λ n. n.next) (λ n. n.msg)

  -- the handle is null, or points to the last of the nodes, which points to the first
  pub data Inbox (h : Heap (Node A)) : Ptr → Cells A → Type 0 where
    vacant : Inbox h null []
    filled :
        {last first : Ptr} {v : A} {ys xs : Cells A}
        → Chain h last first ys
        → PointsTo h last v first
        → has last ys ≡ false
        → xs ≡ ys ++ (last, v) ∷ []
        → Inbox h last xs

  abbrev pub SameOutside : Cells A → Heap (Node A) → Heap (Node A) → Type 0
  SameOutside xs h g = (a : Ptr) → has a xs ≡ false → g a ≡ h a

  pub put_inbox-Inbox :
      {h : Heap (Node A)} {l : Ptr} {xs : Cells A} (f node : Ptr) (n : Node A)
      → Inbox h l xs
      → node ≢ null
      → h node ≡ some n
      → has node xs ≡ false
      → Yields
          (λ (g, mbox).
            Inbox g mbox.list_inbox (xs ++ (node, n.msg) ∷ [])
            × (mbox.list_free ≡ f)
            × SameOutside ((node, n.msg) ∷ xs) h g)
          (put_inbox h (handle f l) node)
  unfolding put_inbox
  put_inbox-Inbox {h} f node n vacant ne e out = rw (modify-ok h node n ne e) (
      yields (
        filled nil (Points-write h node (record n { next = node }) ne refl refl) refl refl,
        refl,
        λ a o. ground arith,
      ))
  put_inbox-Inbox {h} {xs} f node n (filled {last} {first} {v} {ys} s p out' eq) ne e out =
      rw
        (
          ==-ne last null p.ne_null,
          load-ok h last p.node p.ne_null p.holds,
          modify-ok h node n ne e,
          modify-ok g last p.node p.ne_null still,
        )
        (yields
          (filled chain end (rw (← eq) out) (ap (λ l. l ++ (node, n.msg) ∷ []) eq), refl, same))
    where
      parts : (has node ys ≡ false) × (node ≢ last)
      parts = ground (arith, out, ap (has node) eq, has-append node ys ((last, v) ∷ []))

      g : Heap (Node A)
      g = write h node (some (record n { next = p.node.next }))

      still : g last ≡ some p.node
      still = rw (==-ne last node (λ i. parts.1 (sym i)), p.holds)

      k : Heap (Node A)
      k = write g last (some (record p.node { next = node }))

      chain : Chain k node first (ys ++ (last, v) ∷ [])
      chain =
          snoc (frame-write last _ (frame-write node _ s parts.0) out')
            (Points-write g last (record p.node { next = node }) p.ne_null p.value refl) out'

      end : PointsTo k node n.msg first
      end =
          Points-skip g last _
            (Points-write h node (record n { next = p.node.next }) ne refl p.leads) parts.1

      same : SameOutside ((node, n.msg) ∷ xs) h k
      same a o = ground (arith, o, ap (has a) eq, has-append a ys ((last, v) ∷ []))
