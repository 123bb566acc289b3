-- ===== src/Mailbox/Take.antt =====
-- What taking the first node out of the inbox leaves.
use my_lpel.Common.{
  ◌≡◌, ◌≢◌, refl, false, Option, none, some, [], ◌∷◌, ◌++◌, arith, ==-refl, ==-ne, Yields, yields,
  Ptr, null,
}
use my_lpel.Memory.{Heap, write, load-ok, modify-ok}
use my_lpel.Memory.Seg.{Cells, has, has-append, nil, cons, frame-write, Points-write}
use my_lpel.Mailbox.{Node, Mailbox, take_inbox}
use my_lpel.Mailbox.Inbox.{handle, PointsTo, Inbox, vacant, filled, SameOutside}

module _ {A : Type 0} where
  pub data Taken (h : Heap (Node A)) (f : Ptr)
      : Cells A → Option (Ptr × Heap (Node A) × Mailbox) → Type 0 where
    waits : Taken h f [] none
    takes :
        {first : Ptr} {w : A} {xs : Cells A} {n : Node A} {g : Heap (Node A)} {l : Ptr}
        → Inbox g l xs
        → first ≢ null
        → g first ≡ some n
        → n.msg ≡ w
        → has first xs ≡ false
        → SameOutside ((first, w) ∷ xs) h g
        → Taken h f ((first, w) ∷ xs) (some (first, g, handle f l))

  pub take_inbox-Taken :
      {h : Heap (Node A)} {l : Ptr} {xs : Cells A} (f : Ptr)
      → Inbox h l xs
      → Yields (Taken h f xs) (take_inbox h (handle f l))
  unfolding take_inbox
  take_inbox-Taken f vacant = yields waits
  take_inbox-Taken {h} f (filled {last} {v} nil p out eq) =
      rw
        (
          ==-ne last null p.ne_null,
          load-ok h last p.node p.ne_null p.holds,
          p.leads,
          ==-refl last,
          eq,
        )
        (yields (takes vacant p.ne_null p.holds p.value refl λ a o. refl))
  take_inbox-Taken {h} f
        (filled {last} {v} (cons {p = first} {q} {v = w} {xs = ys} e out s) p out' eq) =
      rw
        (
          ==-ne last null p.ne_null,
          load-ok h last p.node p.ne_null p.holds,
          p.leads,
          ==-ne first last parts.0,
          load-ok h first e.node e.ne_null e.holds,
          modify-ok h last p.node p.ne_null p.holds,
          eq,
        )
        (yields (
          takes {n = e.node} (filled (frame-write last _ s parts.1) end parts.1 refl) e.ne_null kept
            e.value parts.2 same))
    where
      parts : (first ≢ last) × (has last ys ≡ false) × (has first (ys ++ (last, v) ∷ []) ≡ false)
      parts = ground (arith, out, out', has-append first ys ((last, v) ∷ []))

      g : Heap (Node A)
      g = write h last (some (record p.node { next = e.node.next }))

      end : PointsTo g last v q
      end = Points-write h last (record p.node { next = e.node.next }) p.ne_null p.value e.leads

      kept : g first ≡ some e.node
      kept = rw (==-ne first last parts.0) e.holds

      same : SameOutside ((first, w) ∷ ys ++ (last, v) ∷ []) h g
      same a o = ground (arith, o, has-append a ys ((last, v) ∷ []))
