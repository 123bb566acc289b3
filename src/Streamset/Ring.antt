-- ===== src/Streamset/Ring.antt =====
-- A set as the list of its descriptors, the oldest first, and what Put does to it.
use my_lpel.Common.{
  ◌≡◌, ◌≢◌, refl, sym, ap, false, some, [], ◌∷◌, ◌++◌, arith, ==-ne, Yields, yields, Ptr, null,
}
use my_lpel.Memory.{Heap, write, load-ok, modify-ok}
use my_lpel.Memory.Seg.{
  Cells, has, has-append, Points, Seg, nil, frame-write, snoc, Points-write, Points-skip,
}
use my_lpel.Streamset.{Member, put}

abbrev pub PointsTo : Heap Member → Ptr → Ptr → Ptr → Type 0
PointsTo = Points (λ n. n.next) (λ n. n.stream)

abbrev pub Chain : Heap Member → Ptr → Ptr → Cells Ptr → Type 0
Chain = Seg (λ n. n.next) (λ n. n.stream)

-- the handle is null, or points to the last descriptor, which points to the first
pub data SetOf (h : Heap Member) (set : Ptr) (xs : Cells Ptr) : Type 0 where
  vacant : set ≡ null → xs ≡ [] → SetOf h set xs
  filled :
      {first v : Ptr} {ys : Cells Ptr}
      → Chain h set first ys
      → PointsTo h set v first
      → has set ys ≡ false
      → xs ≡ ys ++ (set, v) ∷ []
      → SetOf h set xs

-- Put into a well-formed set of an allocated descriptor that is not in it adds the descriptor
-- behind all others.
pub put-SetOf :
    (h : Heap Member) (set node : Ptr) (n : Member) (xs : Cells Ptr)
    → SetOf h set xs
    → node ≢ null
    → h node ≡ some n
    → has node xs ≡ false
    → Yields (λ (g, set'). SetOf g set' (xs ++ (node, n.stream) ∷ [])) (put h set node)
unfolding put
put-SetOf h set node n xs (vacant z e) ne at out =
    rw (z, modify-ok h node n ne at, e)
      (yields (filled nil (Points-write h node (record n { next = node }) ne refl refl) refl refl))
put-SetOf h set node n xs (filled {first} {v} {ys} s p out' eq) ne at out =
    rw
      (
        ==-ne set null p.ne_null,
        load-ok h set p.node p.ne_null p.holds,
        modify-ok h node n ne at,
        modify-ok g set p.node p.ne_null still,
        eq,
      )
      (yields (filled chain end (ground (arith, out, ap (has node) eq)) refl))
  where
    parts : (has node ys ≡ false) × (node ≢ set)
    parts = ground (arith, out, ap (has node) eq, has-append node ys ((set, v) ∷ []))

    g : Heap Member
    g = write h node (some (record n { next = p.node.next }))

    still : g set ≡ some p.node
    still = rw (==-ne set node (λ i. parts.1 (sym i)), p.holds)

    k : Heap Member
    k = write g set (some (record p.node { next = node }))

    chain : Chain k node first (ys ++ (set, v) ∷ [])
    chain =
        snoc (frame-write set _ (frame-write node _ s parts.0) out')
          (Points-write g set (record p.node { next = node }) p.ne_null p.value refl) out'

    end : PointsTo k node n.stream first
    end =
        Points-skip g set _ (Points-write h node (record n { next = p.node.next }) ne refl p.leads)
          parts.1
