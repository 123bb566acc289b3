-- ===== src/Streamset/Step.antt =====
-- What keeping and removing the current descriptor leave.
use my_lpel.Common.{
  ◌≡◌, ◌≢◌, refl, sym, ◌∙◌, false, some, [], ◌∷◌, ◌++◌, arith, ==-ne, ==-refl, ◌==◌, if◌then◌else◌,
  Yields, yields, Ptr,
}
use my_lpel.Memory.{Heap, write, load-ok, modify-ok}
use my_lpel.Memory.Seg.{Cells, has, has-append, nil, frame-write, snoc, Points-write, Points-skip}
use my_lpel.Memory.Unlink.{last_of}
use my_lpel.Streamset.{Member, Iter, iter_remove}
use my_lpel.Streamset.Between.{
  Between, fresh, past, emptied, Current, alone, first, later, last_of-append, last_of-other,
  ++-nil, ++-snoc,
}
use my_lpel.Streamset.Ring.{PointsTo, Chain, filled}

pub past_at :
    {h : Heap Member} {set : Ptr} {it : Iter} {kept : Cells Ptr} {t v q : Ptr} {todo : Cells Ptr}
    (others : Cells Ptr)
    → it.cur ≡ t
    → PointsTo h t v q
    → Chain h t q (todo ++ others)
    → has t (todo ++ others) ≡ false
    → kept ≡ others ++ (t, v) ∷ []
    → set ≡ last_of t todo
    → Between h set it kept todo
past_at {t} {v} {q} others a p s out k last =
    past {u = v} {q = q} others (rw a p) (rw a s) (rw a out) (rw a k) (rw a last)

-- the iterator goes on behind the descriptor
pub keep-Between :
    {h : Heap Member} {set : Ptr} {it : Iter} {kept : Cells Ptr} {t v : Ptr} {todo : Cells Ptr}
    → Current h set it kept t v todo
    → Between h set it (kept ++ (t, v) ∷ []) todo
keep-Between (alone a b z p k e) = rw (k, e) (past_at [] a p nil refl refl z)
keep-Between {t} {v} {todo} (first {l} {u} {ys} a b z p e s out t_out k d) =
    let other : t ≢ l = λ i. ground (arith, out, sym i) in
    rw (k, d)
      (past_at [] a e (rw (++-nil (ys ++ (l, u) ∷ [])) (snoc s p (ground (arith, out))))
        (ground (
          arith,
          ++-nil (ys ++ (l, u) ∷ []),
          t_out,
          has-append t ys ((l, u) ∷ []),
          ==-ne t l other,
        ))
        refl (rw (last_of-append t l u ys) z))
keep-Between {t} {v} {todo} (later {c} {u} others a b p e s out t_out k last) =
    let other : t ≢ c = λ i. ground (arith, out, sym i) in
    past_at (others ++ (c, u) ∷ []) a e
      (rw (← ++-snoc todo others (c, u)) (snoc s p (ground (arith, out))))
      (rw
        (
          ← ++-snoc todo others (c, u),
          has-append t (todo ++ others) ((c, u) ∷ []),
          t_out,
          ==-ne t c other,
        )
        refl)
      (rw k refl) last

pub handle_after :
    {set : Ptr} (c t : Ptr) (todo others : Cells Ptr)
    → set ≡ last_of t todo
    → has t (todo ++ others) ≡ false
    → (if set == t then c else set) ≡ last_of c todo
handle_after c t [] others last out = rw (last, ==-refl t) refl
handle_after {set} c t ((a, w) ∷ todo) others last out =
    rw (==-ne set t (λ i. last_of-other t a w todo others out (sym i ∙ last))) last

abbrev pub Removed : Cells Ptr → Cells Ptr → Heap Member × Ptr × Iter → Type 0
Removed kept todo (g, set, it) = Between g set it kept todo

-- the descriptor is taken out
pub remove-Between :
    {h : Heap Member} {set : Ptr} {kept : Cells Ptr} {t v : Ptr} {todo : Cells Ptr} (it : Iter)
    → Current h set it kept t v todo
    → Yields (Removed kept todo) (iter_remove h set it)
unfolding iter_remove
remove-Between {h} {t} it (alone a b z p k e) =
    rw (b, a, ==-refl t, z, ==-refl t, modify-ok h t p.node p.ne_null p.holds)
      (yields (emptied refl k e))
remove-Between {h} {t} {v} it (first {l} {u} {q} {ys} a b z p e s out t_out k d) =
    let other : l ≢ t = λ i. ground (arith, out, i) in
    let g : Heap Member = write h l (some (record p.node { next = e.node.next })) in
    let still : g t ≡ some e.node = rw (==-ne t l (λ i. other (sym i))) e.holds in
    rw
      (
        b,
        a,
        ==-ne l t other,
        load-ok h t e.node e.ne_null e.holds,
        modify-ok h l p.node p.ne_null p.holds,
        modify-ok g t e.node e.ne_null still,
        z,
        ==-refl l,
      )
      (yields (
        fresh refl refl k (
          filled (frame-write t _ (frame-write l _ s (ground (arith, out))) t_out)
            (Points-skip g t _
              (Points-write h l (record p.node { next = e.node.next }) p.ne_null p.value e.leads)
              other)
            (ground (arith, out)) d)))
remove-Between {h} {set} {t} {v} {todo} it (later {c} {u} {q} others a b p e s out t_out k last) =
    let other : c ≢ t = λ i. ground (arith, out, i) in
    let g : Heap Member = write h c (some (record p.node { next = e.node.next })) in
    let still : g t ≡ some e.node = rw (==-ne t c (λ i. other (sym i))) e.holds in
    let apart : set ≢ c = λ i. last_of-other c t v todo others out (sym i ∙ last) in
    rw
      (
        b,
        a,
        ==-ne c t other,
        load-ok h t e.node e.ne_null e.holds,
        modify-ok h c p.node p.ne_null p.holds,
        modify-ok g t e.node e.ne_null still,
        ==-ne set c apart,
      )
      (yields (
        past_at others refl
          (Points-skip g t _
            (Points-write h c (record p.node { next = e.node.next }) p.ne_null p.value e.leads)
            other)
          (frame-write t _ (frame-write c _ s (ground (arith, out))) t_out) (ground (arith, out)) k
          (handle_after c t todo others last t_out)))
