-- ===== src/Streamset/Between.antt =====
-- An iterator over a set: the descriptors that it has passed and kept, and those to come; and what
-- LpelStreamIterNext does.
use my_lpel.Common.{
  ◌≡◌, ◌≢◌, refl, sym, ap, ◌∙◌, true, false, [], ◌∷◌, ◌++◌, arith, ==-ne, Yields, yields, Ptr, null,
}
use my_lpel.Memory.{Heap, load-ok}
use my_lpel.Memory.Seg.{Cells, has, has-append, nil, cons}
use my_lpel.Memory.Unlink.{last_of, last_of-has}
use my_lpel.Streamset.{Member, Iter, has_next, iter_next}
use my_lpel.Streamset.Ring.{PointsTo, Chain, SetOf, vacant, filled}

-- The iterator stands between the descriptors `kept` and those to come: before the first one, behind
-- the last one kept, or in a set that has become empty.
pub data Between (h : Heap Member) (set : Ptr) (it : Iter) (kept todo : Cells Ptr) : Type 0 where
  fresh : it.cur ≡ null → it.prev ≡ set → kept ≡ [] → SetOf h set todo → Between h set it kept todo
  past :
      {u q : Ptr} (others : Cells Ptr)
      → PointsTo h it.cur u q
      → Chain h it.cur q (todo ++ others)
      → has it.cur (todo ++ others) ≡ false
      → kept ≡ others ++ (it.cur, u) ∷ []
      → set ≡ last_of it.cur todo
      → Between h set it kept todo
  emptied : set ≡ null → kept ≡ [] → todo ≡ [] → Between h set it kept todo

-- The iterator stands at the descriptor `t`, which is the only one, the first one or a later one.
pub data Current (h : Heap Member) (set : Ptr) (it : Iter) (kept : Cells Ptr) (t v : Ptr)
    (todo : Cells Ptr) : Type 0 where
  alone :
      it.cur ≡ t
      → it.prev ≡ t
      → set ≡ t
      → PointsTo h t v t
      → kept ≡ []
      → todo ≡ []
      → Current h set it kept t v todo
  first :
      {l u q : Ptr} {ys : Cells Ptr}
      → it.cur ≡ t
      → it.prev ≡ l
      → set ≡ l
      → PointsTo h l u t
      → PointsTo h t v q
      → Chain h l q ys
      → has l ((t, v) ∷ ys) ≡ false
      → has t ys ≡ false
      → kept ≡ []
      → todo ≡ ys ++ (l, u) ∷ []
      → Current h set it kept t v todo
  later :
      {c u q : Ptr} (others : Cells Ptr)
      → it.cur ≡ t
      → it.prev ≡ c
      → PointsTo h c u t
      → PointsTo h t v q
      → Chain h c q (todo ++ others)
      → has c ((t, v) ∷ (todo ++ others)) ≡ false
      → has t (todo ++ others) ≡ false
      → kept ≡ others ++ (c, u) ∷ []
      → set ≡ last_of t todo
      → Current h set it kept t v todo

abbrev pub Advanced : Heap Member → Ptr → Cells Ptr → Ptr → Ptr → Cells Ptr → Ptr × Iter → Type 0
Advanced h set kept t v todo (cur, it) = (cur ≡ t) × Current h set it kept t v todo

pub has_next-fresh : (set : Ptr) (it : Iter) → set ≢ null → it.cur ≡ null → has_next set it ≡ true
unfolding has_next
has_next-fresh set it ne e = ground (arith, ==-ne set null ne, e)

pub has_next-past : (set : Ptr) (it : Iter) → set ≢ null → it.cur ≢ set → has_next set it ≡ true
unfolding has_next
has_next-past set it ne other = ground (arith, ==-ne set null ne, ==-ne it.cur set other)

pub next_fresh :
    {h : Heap Member} {set : Ptr} {kept : Cells Ptr} {t v : Ptr} {todo : Cells Ptr} (it : Iter)
    → it.cur ≡ null
    → it.prev ≡ set
    → kept ≡ []
    → SetOf h set ((t, v) ∷ todo)
    → Yields (Advanced h set kept t v todo) (iter_next h set it)
unfolding iter_next
next_fresh it a b k (vacant z e) = absurd cc
next_fresh {h} {set} {t} {v} {todo} it a b k (filled {v = u} nil p out e) =
    let same : (t ≡ set) × (v ≡ u) × (todo ≡ []) = (cc, cc, cc) in
    rw (has_next-fresh set it p.ne_null a, a, b, load-ok h set p.node p.ne_null p.holds, p.leads)
      (yields (
        sym (same.0),
        alone (sym (same.0)) (sym (same.0)) (sym (same.0)) (rw (same.0, same.1) p) k (same.2),
      ))
next_fresh {h} {set} {t} {v} {todo} it a b k
      (filled {v = u} (cons {p = f} {q} {v = w} {xs = ys} e s_out s) p out eq) =
    let same : (t ≡ f) × (v ≡ w) × (todo ≡ ys ++ (set, u) ∷ []) = (cc, cc, cc) in
    rw (has_next-fresh set it p.ne_null a, a, b, load-ok h set p.node p.ne_null p.holds, p.leads)
      (yields (
        sym (same.0),
        first (sym (same.0)) refl refl (rw (same.0) p) (rw (same.0, same.1) e) s (rw (same.0) out)
            (rw (same.0) s_out) k (same.2),
      ))

pub last_of-append : (p l u : Ptr) (ys : Cells Ptr) → last_of p (ys ++ (l, u) ∷ []) ≡ l
last_of-append p l u [] = refl
last_of-append p l u ((a, w) ∷ ys) = last_of-append a l u ys

pub ++-nil : (ys : Cells Ptr) → ys ++ [] ≡ ys
++-nil [] = refl
++-nil (y ∷ ys) = ap (◌∷◌ y) (++-nil ys)

pub ++-snoc : (xs ys : Cells Ptr) (c : Ptr × Ptr) → (xs ++ ys) ++ c ∷ [] ≡ xs ++ (ys ++ c ∷ [])
++-snoc [] ys c = refl
++-snoc (x ∷ xs) ys c = ap (◌∷◌ x) (++-snoc xs ys c)

pub ++-cons : (xs ys : Cells Ptr) (c : Ptr × Ptr) → (xs ++ c ∷ []) ++ ys ≡ xs ++ c ∷ ys
++-cons [] ys c = refl
++-cons (x ∷ xs) ys c = ap (◌∷◌ x) (++-cons xs ys c)

-- the last one to come is not one that was passed
pub last_of-other :
    (c t v : Ptr) (todo others : Cells Ptr)
    → has c (((t, v) ∷ todo) ++ others) ≡ false
    → c ≢ last_of c ((t, v) ∷ todo)
last_of-other c t v todo others out i =
    let inside : has c ((t, v) ∷ todo) ≡ true =
      ap (λ z. has z ((t, v) ∷ todo)) i ∙ last_of-has t v todo c in
    ground (arith, out, inside, has-append c ((t, v) ∷ todo) others)

pub last_of-null :
    {h : Heap Member} {q : Ptr} (c t v : Ptr) (todo others : Cells Ptr)
    → Chain h c q (((t, v) ∷ todo) ++ others)
    → last_of c ((t, v) ∷ todo) ≢ null
last_of-null c t v [] others (cons e out s) = e.ne_null
last_of-null c t v ((a, w) ∷ todo) others (cons e out s) = last_of-null c a w todo others s

pub next-Current :
    {h : Heap Member} {set : Ptr} {kept : Cells Ptr} {t v : Ptr} {todo : Cells Ptr} (it : Iter)
    → Between h set it kept ((t, v) ∷ todo)
    → Yields (Advanced h set kept t v todo) (iter_next h set it)
unfolding iter_next
next-Current it (fresh a b k s) = next_fresh it a b k s
next-Current it (emptied z k e) = absurd cc
next-Current {h} {set} {t} {v} {todo} it (past others p (cons {q} e s_out s) out k last) =
    let other : it.cur ≢ set = λ i. last_of-other it.cur t v todo others out (i ∙ last) in
    let ne : set ≢ null =
      λ z. last_of-null it.cur t v todo others (cons e s_out s) (sym last ∙ z) in
    rw
      (
        has_next-past set it ne other,
        ==-ne it.cur null p.ne_null,
        load-ok h it.cur p.node p.ne_null p.holds,
        p.leads,
      )
      (yields (refl, later others refl refl p e s out s_out k last))
