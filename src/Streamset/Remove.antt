-- ===== src/Streamset/Remove.antt =====
-- LpelStreamsetRemove takes out the descriptor that it is asked for, if the set has it.
use my_lpel.Common.{
  ℕ, ◌<◌, ◌≡◌, ◌≢◌, refl, sym, ap, ◌∙◌, Bool, true, false, some, [], ◌∷◌, ◌++◌, arith, ==-ne,
  ==-refl, ==-true, ◌==◌, if◌then◌else◌, Yields, yields, Bool-cases, inl, inr, Ptr, null,
}
use my_lpel.Common.Lists.{length, length-append}
use my_lpel.Memory.{Heap, write, load-ok, modify-ok}
use my_lpel.Memory.Seg.{
  Cells, has, has-append, has-differ, nil, cons, frame-write, Points-write, Points-skip,
}
use my_lpel.Memory.Unlink.{last_of, last_of-has, last_of-inside, relink, Seg-at, Seg-split}
use my_lpel.Streamset.{Member, remove}
use my_lpel.Streamset.Seek.{cut, seek-found, seek-round, unsnoc}
use my_lpel.Streamset.Between.{++-snoc, ++-nil}
use my_lpel.Streamset.Ring.{PointsTo, Chain, SetOf, vacant, filled}

-- without the descriptor at an address
abbrev pub without : Ptr → Cells Ptr → Cells Ptr
without a [] = []
without a ((p, v) ∷ xs) = if p == a then xs else (p, v) ∷ without a xs

without-at :
    (a v : Ptr) (ys zs : Cells Ptr) → has a ys ≡ false → without a (ys ++ (a, v) ∷ zs) ≡ ys ++ zs
without-at a v [] zs out = rw (==-refl a) refl
without-at a v ((p, w) ∷ ys) zs out =
    let other : p ≢ a = λ i. ground (arith, out, i) in
    rw (==-ne p a other) (ap (◌∷◌ (p, w)) (without-at a v ys zs (ground (arith, out))))

without-absent : (a : Ptr) (xs : Cells Ptr) → has a xs ≡ false → without a xs ≡ xs
without-absent a [] out = refl
without-absent a ((p, w) ∷ xs) out =
    let other : p ≢ a = λ i. ground (arith, out, i) in
    rw (==-ne p a other) (ap (◌∷◌ (p, w)) (without-absent a xs (ground (arith, out))))

abbrev pub Found : Bool → Cells Ptr → Bool × Heap Member × Ptr → Type 0
Found present xs (found, g, set) = (found ≡ present) × SetOf g set xs

-- a descriptor before the last one
remove_inner :
    {h : Heap Member} {set first u : Ptr} (node v : Ptr) (zs ys : Cells Ptr) (k : ℕ)
    → PointsTo h set u first
    → Chain h set first (ys ++ (node, v) ∷ zs)
    → has node ys ≡ false
    → has set (ys ++ (node, v) ∷ zs) ≡ false
    → length ys < k
    → Yields (Found true (ys ++ zs ++ (set, u) ∷ [])) (remove k h set node)
unfolding remove
remove_inner {h} {set} {u} node v zs [] k p (cons {q} e e_out s) out set_out less =
    let apart : set ≢ node = λ i. ground (arith, set_out, i) in
    let g : Heap Member = write h set (some (record p.node { next = e.node.next })) in
    let still : g node ≡ some e.node = rw (==-ne node set (λ i. apart (sym i))) e.holds in
    rw
      (
        ==-ne set null p.ne_null,
        seek-found node v zs [] k p (cons e e_out s) out set_out less,
        ==-refl node,
        ==-ne set node apart,
        load-ok h node e.node e.ne_null e.holds,
        modify-ok h set p.node p.ne_null p.holds,
        modify-ok g node e.node e.ne_null still,
      )
      (yields (
        refl,
        filled (frame-write node _ (frame-write set _ s (ground (arith, set_out))) e_out)
            (Points-skip g node _
              (Points-write h set (record p.node { next = e.node.next }) p.ne_null p.value e.leads)
              apart)
            (ground (arith, set_out)) refl,
      ))
remove_inner {h} {set} {first} {u} node v zs ((a, w) ∷ ys) k p s out set_out less =
    let prev : Ptr = last_of a ys in
    let (r, e, rest, before, behind) = Seg-split zs ((a, w) ∷ ys) s in
    let inside : has prev ((a, w) ∷ ys) ≡ true = last_of-has a w ys a in
    let among : has prev ((a, w) ∷ (ys ++ (node, v) ∷ zs)) ≡ true =
      last_of-inside a w ys ((node, v) ∷ zs) a in
    let (n, holds, ne) = Seg-at prev s among in
    let apart : set ≢ node =
      λ i. ground (arith, set_out, has-append set ((a, w) ∷ ys) ((node, v) ∷ zs), i) in
    let apart' : prev ≢ node = has-differ ((a, w) ∷ ys) inside out in
    let apart'' : set ≢ prev =
      λ i. has-differ ((a, w) ∷ (ys ++ (node, v) ∷ zs)) among set_out (sym i) in
    let g : Heap Member = write h prev (some (record n { next = e.node.next })) in
    let still : g node ≡ some e.node = rw (==-ne node prev (λ i. apart' (sym i))) e.holds in
    rw
      (
        ==-ne set null p.ne_null,
        seek-found node v zs ((a, w) ∷ ys) k p s out set_out less,
        ==-refl node,
        ==-ne prev node apart',
        ==-ne set node apart,
        load-ok h node e.node e.ne_null e.holds,
        modify-ok h prev n ne holds,
        modify-ok g node e.node e.ne_null still,
      )
      (yields (
        refl,
        filled {ys = (a, w) ∷ (ys ++ zs)}
            (frame-write node _
              (relink zs a w ys a n (record n { next = e.node.next }) refl e.leads e s holds)
              (ground (arith, out, behind, has-append node ys zs)))
            (Points-skip g node _ (Points-skip h prev _ p apart'') apart)
            (ground (arith, set_out, has-append set ys zs, has-append set ys ((node, v) ∷ zs)))
            refl,
      ))

-- the last descriptor
remove_last :
    {h : Heap Member} {set first u : Ptr} (ys : Cells Ptr) (k : ℕ)
    → PointsTo h set u first
    → Chain h set first ys
    → has set ys ≡ false
    → length ys < k
    → Yields (Found true ys) (remove k h set set)
unfolding remove
remove_last {h} {set} [] k p nil out less =
    rw (==-ne set null p.ne_null, seek-round set [] k p nil out out less, ==-refl set)
      (yields (refl, vacant refl refl))
remove_last {h} {set} {first} ((a, w) ∷ ys) k p s out less =
    let prev : Ptr = last_of a ys in
    let (zs, v, same, t, e, free) = unsnoc a w ys a s in
    let inside : has prev ((a, w) ∷ ys) ≡ true = last_of-has a w ys a in
    let apart : prev ≢ set = has-differ ((a, w) ∷ ys) inside out in
    let g : Heap Member = write h prev (some (record e.node { next = p.node.next })) in
    let still : g set ≡ some p.node = rw (==-ne set prev (λ i. apart (sym i))) p.holds in
    let set_free : has set zs ≡ false =
      ground (arith, out, ap (has set) same, has-append set zs ((prev, v) ∷ [])) in
    rw
      (
        ==-ne set null p.ne_null,
        seek-round set ((a, w) ∷ ys) k p s out out less,
        ==-refl set,
        ==-ne prev set apart,
        load-ok h set p.node p.ne_null p.holds,
        modify-ok h prev e.node e.ne_null e.holds,
        modify-ok g set p.node p.ne_null still,
      )
      (yields (
        refl,
        filled (frame-write set _ (frame-write prev _ t free) set_free)
            (Points-skip g set _
              (Points-write h prev (record e.node { next = p.node.next }) e.ne_null e.value p.leads)
              apart)
            free same,
      ))

remove_absent :
    {h : Heap Member} {set first u : Ptr} (node : Ptr) (ys : Cells Ptr) (k : ℕ)
    → PointsTo h set u first
    → Chain h set first ys
    → has set ys ≡ false
    → has node (ys ++ (set, u) ∷ []) ≡ false
    → length ys < k
    → Yields (Found false (ys ++ (set, u) ∷ [])) (remove k h set node)
unfolding remove
remove_absent {set} {u} node ys k p s out absent less =
    let parts : (has node ys ≡ false) × (set ≢ node) = (
      ground (arith, absent, has-append node ys ((set, u) ∷ [])),
      λ i. ground (arith, absent, has-append node ys ((set, u) ∷ []), sym i),
    ) in
    rw
      (
        ==-ne set null p.ne_null,
        seek-round node ys k p s (parts.0) out less,
        ==-ne set node (parts.1),
      )
      (yields (refl, filled s p out refl))

-- With fuel above the size of a well-formed set that is not empty, removing a descriptor tells
-- whether it is in the set, and if it is takes out it and nothing else, also when it is the last
-- or the only one.
pub remove-Found :
    (h : Heap Member) (set : Ptr) (xs : Cells Ptr) (node : Ptr) (k : ℕ)
    → SetOf h set xs
    → set ≢ null
    → length xs < k
    → Yields (Found (has node xs) (without node xs)) (remove k h set node)
remove-Found h set xs node k (vacant z e) ne less = absurd (ne z)
remove-Found h set xs node k (filled {v = u} {ys} s p out eq) ne less =
    rw eq (elim (Bool-cases (has node ys)) [
      | inl i ↦
          let (us, v, zs, same, free) = cut node ys i in
          let short : length us < k = omega (
            arith,
            less,
            ap length eq,
            ap length same,
            length-append ys ((set, u) ∷ []),
            length-append us ((node, v) ∷ zs),
          ) in
          let present : has node (ys ++ (set, u) ∷ []) ≡ true =
            ground (arith, i, has-append node ys ((set, u) ∷ [])) in
          let rest : without node (ys ++ (set, u) ∷ []) ≡ us ++ zs ++ (set, u) ∷ [] =
            ap (λ l. without node (l ++ (set, u) ∷ [])) same
            ∙ ap (without node) (++-snoc us ((node, v) ∷ zs) (set, u))
            ∙ without-at node v us (zs ++ (set, u) ∷ []) free
            ∙ sym (++-snoc us zs (set, u)) in
          rw (present, rest)
            (remove_inner node v zs us k p (rw (← same) s) free (rw (← same) out) short)
      | inr o ↦
          let short : length ys < k =
            omega (arith, less, ap length eq, length-append ys ((set, u) ∷ [])) in
          elim (Bool-cases (node == set)) [
            | inl e ↦
                let present : has set (ys ++ (set, u) ∷ []) ≡ true =
                  ground (arith, has-append set ys ((set, u) ∷ []), ==-refl set) in
                let rest : without set (ys ++ (set, u) ∷ []) ≡ ys =
                  without-at set u ys [] out ∙ ++-nil ys in
                rw (==-true node set e, present, rest) (remove_last ys k p s out short)
            | inr other ↦
                let absent : has node (ys ++ (set, u) ∷ []) ≡ false =
                  ground (arith, o, other, has-append node ys ((set, u) ∷ [])) in
                rw (absent, without-absent node (ys ++ (set, u) ∷ []) absent)
                  (remove_absent node ys k p s out absent short)
          ]
    ])
