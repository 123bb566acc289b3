-- ===== src/Streamset/Append.antt =====
-- LpelStreamIterAppend: a descriptor joins the set behind the last one, also while the iterator stands
-- at the last or at the first one.
use my_lpel.Common.{
  ◌≡◌, ◌≢◌, refl, sym, ap, ◌∙◌, true, false, some, [], ◌∷◌, ◌++◌, arith, ==-ne, ==-refl, Yields,
  yields, Ptr, null,
}
use my_lpel.Memory.{Heap, write, load-ok, modify-ok}
use my_lpel.Memory.Seg.{
  Cells, has, has-append, has-differ, nil, cons, frame-write, snoc, Points-write, Points-skip,
}
use my_lpel.Memory.Unlink.{last_of, last_of-has, Seg-split}
use my_lpel.Streamset.{Member, Iter, iter_append}
use my_lpel.Streamset.Insert.{insert, has-between, split_last}
use my_lpel.Streamset.Between.{Current, alone, first, later, ++-cons, last_of-append}
use my_lpel.Streamset.Ring.{PointsTo, Chain}

abbrev pub Appended : Cells Ptr → Ptr → Ptr → Cells Ptr → Heap Member × Ptr × Iter → Type 0
Appended kept t v todo (g, set, it) = Current g set it kept t v todo

-- behind the descriptors that are still to come
append_behind :
    {h : Heap Member} {set : Ptr} {kept : Cells Ptr} {t v y y' c u q : Ptr}
    (todo others : Cells Ptr) (it : Iter) (node : Ptr) (n : Member)
    → it.cur ≡ t
    → it.prev ≡ c
    → PointsTo h c u t
    → PointsTo h t v q
    → Chain h c q (((y, y') ∷ todo) ++ others)
    → has c ((t, v) ∷ (((y, y') ∷ todo) ++ others)) ≡ false
    → has t (((y, y') ∷ todo) ++ others) ≡ false
    → kept ≡ others ++ (c, u) ∷ []
    → set ≡ last_of t ((y, y') ∷ todo)
    → node ≢ null
    → h node ≡ some n
    → has node ((t, v) ∷ (y, y') ∷ todo) ≡ false
    → has node kept ≡ false
    → Yields
        (Appended kept t v (((y, y') ∷ todo) ++ (node, n.stream) ∷ []))
        (iter_append h set it node)
unfolding iter_append
append_behind {h} {set} {kept} {t} {v} {y} {y'} {c} {u} {q} todo others it node n a b p e s c_out
      t_out k last ne at out out' =
    let l : Ptr = last_of y todo in
    let (zs, x, same) = split_last y y' todo t in
    let s' : Chain h c q (zs ++ (l, x) ∷ others) = rw (← ++-cons zs others (l, x), ← same) s in
    let (r, f, rest, before, behind) = Seg-split others zs s' in
    let inside : has l ((y, y') ∷ todo) ≡ true = last_of-has y y' todo t in
    let free : (node ≢ t) × (node ≢ c) × (has node (((y, y') ∷ todo) ++ others) ≡ false) = (
      λ i. ground (arith, out, i),
      λ i. ground (arith, out', ap (has node) k, has-append node others ((c, u) ∷ []), i),
      ground (
        arith,
        out,
        out',
        ap (has node) k,
        has-append node others ((c, u) ∷ []),
        has-append node ((y, y') ∷ todo) others,
      ),
    ) in
    let apart : (l ≢ node) × (l ≢ t) × (l ≢ c) × (c ≢ t) = (
      has-differ ((y, y') ∷ todo) inside (ground (arith, out)),
      has-differ ((y, y') ∷ todo) inside
          (ground (arith, t_out, has-append t ((y, y') ∷ todo) others)),
      has-differ ((y, y') ∷ todo) inside
          (ground (arith, c_out, has-append c ((y, y') ∷ todo) others)),
      λ i. ground (arith, c_out, i),
    ) in
    let g : Heap Member = write h node (some (record n { next = f.node.next })) in
    let still : g l ≡ some f.node = rw (==-ne l node (apart.0)) f.holds in
    let k' : Heap Member = write g l (some (record f.node { next = node })) in
    let longer : (((y, y') ∷ todo) ++ (node, n.stream) ∷ []) ++ others
        ≡ zs ++ (l, x) ∷ (node, n.stream) ∷ others =
      ++-cons ((y, y') ∷ todo) others (node, n.stream)
      ∙ ap (λ w. w ++ (node, n.stream) ∷ others) same
      ∙ ++-cons zs ((node, n.stream) ∷ others) (l, x) in
    let chain : Chain k' c q ((((y, y') ∷ todo) ++ (node, n.stream) ∷ []) ++ others) = rw longer (
      insert l x node n.stream others zs s' (λ a i j. rw (==-ne a l i, ==-ne a node j) refl) f
        (Points-write g l (record f.node { next = node }) f.ne_null f.value refl)
        (Points-skip g l _ (Points-write h node (record n { next = f.node.next }) ne refl f.leads)
          (λ i. apart.0 (sym i)))
        (rw (← ++-cons zs others (l, x), ← same) (free.2))) in
    rw
      (
        b,
        a,
        last,
        load-ok h l f.node f.ne_null f.holds,
        modify-ok h node n ne at,
        modify-ok g l f.node f.ne_null still,
        ==-ne c l (λ i. apart.2 (sym i)),
        ==-ne c t (apart.3),
      )
      (yields (
        later others refl refl
          (Points-skip g l _ (Points-skip h node _ p (λ i. free.1 (sym i))) (λ i. apart.2 (sym i)))
          (Points-skip g l _ (Points-skip h node _ e (λ i. free.0 (sym i))) (λ i. apart.1 (sym i)))
          chain
          (ground (
            arith,
            c_out,
            has-between c node n.stream ((y, y') ∷ todo) others (ground (arith, c_out))
                (λ i. free.1 (sym i)),
          ))
          (has-between t node n.stream ((y, y') ∷ todo) others t_out (λ i. free.0 (sym i))) k
          (sym (last_of-append t node n.stream ((y, y') ∷ todo)))))

-- While an iterator stands at a descriptor, appending one that is allocated and not in the set
-- puts it behind all those that are still to come, and the iterator stays where it is, also at
-- the first or the only descriptor.
pub append-Current :
    {h : Heap Member} {set : Ptr} {kept : Cells Ptr} {t v : Ptr} {todo : Cells Ptr} (it : Iter)
    (node : Ptr) (n : Member)
    → Current h set it kept t v todo
    → node ≢ null
    → h node ≡ some n
    → has node ((t, v) ∷ todo) ≡ false
    → has node kept ≡ false
    → Yields (Appended kept t v (todo ++ (node, n.stream) ∷ [])) (iter_append h set it node)
unfolding iter_append
append-Current {h} {t} it node n (alone a b z p k e) ne at out out' =
    let apart : t ≢ node = λ i. ground (arith, out, i) in
    let g : Heap Member = write h node (some (record n { next = p.node.next })) in
    let still : g t ≡ some p.node = rw (==-ne t node apart) p.holds in
    rw
      (
        b,
        a,
        z,
        load-ok h t p.node p.ne_null p.holds,
        modify-ok h node n ne at,
        modify-ok g t p.node p.ne_null still,
        ==-refl t,
        ==-ne node t (λ i. apart (sym i)),
        e,
      )
      (yields (
        first refl refl refl
          (Points-skip g t _ (Points-write h node (record n { next = p.node.next }) ne refl p.leads)
            (λ i. apart (sym i)))
          (Points-write g t (record p.node { next = node }) p.ne_null p.value refl) nil
          (ground (arith, out)) refl k refl))
append-Current {h} {t} {v} it node n (first {l} {u} {q} {ys} a b z p e s l_out t_out k d) ne at out
      out' =
    let free : (node ≢ t) × (node ≢ l) × (has node ys ≡ false) = (
      λ i. ground (arith, out, i),
      λ i. ground (arith, out, ap (has node) d, has-append node ys ((l, u) ∷ []), i),
      ground (arith, out, ap (has node) d, has-append node ys ((l, u) ∷ [])),
    ) in
    let apart : t ≢ l = λ i. ground (arith, l_out, sym i) in
    let g : Heap Member = write h node (some (record n { next = p.node.next })) in
    let still : g l ≡ some p.node = rw (==-ne l node (λ i. free.1 (sym i))) p.holds in
    rw
      (
        b,
        a,
        z,
        load-ok h l p.node p.ne_null p.holds,
        modify-ok h node n ne at,
        modify-ok g l p.node p.ne_null still,
        ==-refl l,
        ==-ne node t (free.0),
        d,
      )
      (yields (
        first refl refl refl
          (Points-skip g l _ (Points-write h node (record n { next = p.node.next }) ne refl p.leads)
            (free.1))
          (Points-skip g l _ (Points-skip h node _ e (λ i. free.0 (sym i))) apart)
          (snoc (frame-write l _ (frame-write node _ s (free.2)) (ground (arith, l_out)))
            (Points-write g l (record p.node { next = node }) p.ne_null p.value refl)
            (ground (arith, l_out)))
          (ground (
            arith,
            has-append node ys ((l, u) ∷ []),
            ==-ne node t (free.0),
            ==-ne node l (free.1),
            free.2,
          ))
          (ground (arith, t_out, has-append t ys ((l, u) ∷ []), ==-ne t l apart)) k refl))
append-Current {h} {t} {v} {todo = []} it node n
      (later {c} {u} {q} others a b p e s c_out t_out k last) ne at out out' =
    let free : (node ≢ t) × (node ≢ c) × (has node others ≡ false) = (
      λ i. ground (arith, out, i),
      λ i. ground (arith, out', ap (has node) k, has-append node others ((c, u) ∷ []), i),
      ground (arith, out', ap (has node) k, has-append node others ((c, u) ∷ [])),
    ) in
    let apart : c ≢ t = λ i. ground (arith, c_out, i) in
    let g : Heap Member = write h node (some (record n { next = e.node.next })) in
    let still : g t ≡ some e.node = rw (==-ne t node (λ i. free.0 (sym i))) e.holds in
    rw
      (
        b,
        a,
        last,
        load-ok h t e.node e.ne_null e.holds,
        modify-ok h node n ne at,
        modify-ok g t e.node e.ne_null still,
        ==-ne c t apart,
        ==-ne c t apart,
      )
      (yields (
        later others refl refl
          (Points-skip g t _ (Points-skip h node _ p (λ i. free.1 (sym i))) apart)
          (Points-write g t (record e.node { next = node }) e.ne_null e.value refl)
          (cons
            (Points-skip g t _
              (Points-write h node (record n { next = e.node.next }) ne refl e.leads) (free.0))
            (free.2) (frame-write t _ (frame-write node _ s (free.2)) t_out))
          (ground (arith, c_out, ==-ne c node (λ i. free.1 (sym i))))
          (ground (arith, t_out, ==-ne t node (λ i. free.0 (sym i)))) k refl))
append-Current {todo = (y, y') ∷ todo} it node n (later others a b p e s c_out t_out k last) ne at
      out out' =
    append_behind todo others it node n a b p e s c_out t_out k last ne at out out'
