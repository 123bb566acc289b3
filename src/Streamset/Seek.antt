-- ===== src/Streamset/Seek.antt =====
-- Where the loop of LpelStreamsetRemove ends, and the lists that it cuts.
use my_lpel.Common.{
  ℕ, zero, suc, ◌<◌, ◌≡◌, ◌≢◌, refl, sym, ap, ◌∙◌, Bool, true, false, ◌||◌, [], ◌∷◌, ◌++◌, arith,
  ==-ne, ==-refl, ==-true, ◌==◌, if◌then◌else◌, ok, Bool-cases, inl, inr, Ptr,
}
use my_lpel.Common.Lists.{length}
use my_lpel.Memory.{Heap, load-ok}
use my_lpel.Memory.Seg.{Cells, has, has-append, nil, cons}
use my_lpel.Memory.Unlink.{last_of, last_of-has}
use my_lpel.Streamset.{Member, seek}
use my_lpel.Streamset.Ring.{PointsTo, Chain}

-- where a descriptor stands first
pub cut :
    (a : Ptr) (xs : Cells Ptr)
    → has a xs ≡ true
    → (ys : Cells Ptr) × (v : Ptr) × (zs : Cells Ptr) × (xs ≡ ys ++ (a, v) ∷ zs)
      × (has a ys ≡ false)
cut a [] i = absurd (ground (arith, i))
cut a ((p, w) ∷ xs) i = elim (Bool-cases (a == p)) [
  | inl here ↦ ([], w, xs, ap (λ z. (z, w) ∷ xs) (sym (==-true a p here)), refl)
  | inr other ↦
      let (ys, v, zs, e, out) = cut a xs (ground (arith, i, other)) in
      ((p, w) ∷ ys, v, zs, ap (◌∷◌ (p, w)) e, ground (arith, other, out))
]

pub seek-found :
    {h : Heap Member} {set cur u q : Ptr} (node v : Ptr) (zs ys : Cells Ptr) (k : ℕ)
    → PointsTo h cur u q
    → Chain h set q (ys ++ (node, v) ∷ zs)
    → has node ys ≡ false
    → has set (ys ++ (node, v) ∷ zs) ≡ false
    → length ys < k
    → seek k h set node cur ≡ ok (last_of cur ys, node)
unfolding seek
seek-found node v zs ys zero p s out set_out less = absurd (omega (arith, less))
seek-found {h} {cur} node v zs [] (suc k) p (cons e e_out s) out set_out less =
    rw (load-ok h cur p.node p.ne_null p.holds, p.leads, ==-refl node) refl
seek-found {h} {set} {cur} node v zs ((a, w) ∷ ys) (suc k) p (cons e e_out s) out set_out less =
    let other : a ≢ node = λ i. ground (arith, out, i) in
    let inside : a ≢ set = λ i. ground (arith, set_out, i) in
    rw (load-ok h cur p.node p.ne_null p.holds, p.leads, ==-ne a node other, ==-ne a set inside)
      (seek-found node v zs ys k e s (ground (arith, out)) (ground (arith, set_out))
        (omega (arith, less)))

pub either_way : {A : Type 0} (b : Bool) (x y : A) → (if b || true then x else y) ≡ x
either_way true x y = refl
either_way false x y = refl

pub seek-round :
    {h : Heap Member} {set cur u q : Ptr} (node : Ptr) (ys : Cells Ptr) (k : ℕ)
    → PointsTo h cur u q
    → Chain h set q ys
    → has node ys ≡ false
    → has set ys ≡ false
    → length ys < k
    → seek k h set node cur ≡ ok (last_of cur ys, set)
unfolding seek
seek-round node ys zero p s out set_out less = absurd (omega (arith, less))
seek-round {h} {set} {cur} node [] (suc k) p nil out set_out less =
    rw (load-ok h cur p.node p.ne_null p.holds, p.leads, ==-refl set) (either_way (set == node) _ _)
seek-round {h} {set} {cur} node ((a, w) ∷ ys) (suc k) p (cons e e_out s) out set_out less =
    let other : a ≢ node = λ i. ground (arith, out, i) in
    let inside : a ≢ set = λ i. ground (arith, set_out, i) in
    rw (load-ok h cur p.node p.ne_null p.holds, p.leads, ==-ne a node other, ==-ne a set inside)
      (seek-round node ys k e s (ground (arith, out)) (ground (arith, set_out))
        (omega (arith, less)))

-- the end of a chain
pub unsnoc :
    {h : Heap Member} {stop q : Ptr} (a w : Ptr) (ys : Cells Ptr) (prev : Ptr)
    → Chain h stop q ((a, w) ∷ ys)
    → (zs : Cells Ptr) × (v : Ptr) × ((a, w) ∷ ys ≡ zs ++ (last_of prev ((a, w) ∷ ys), v) ∷ [])
      × Chain h (last_of prev ((a, w) ∷ ys)) q zs
      × PointsTo h (last_of prev ((a, w) ∷ ys)) v stop
      × (has (last_of prev ((a, w) ∷ ys)) zs ≡ false)
unsnoc a w [] prev (cons e out nil) = ([], w, refl, nil, e, refl)
unsnoc a w ((b, x) ∷ ys) prev (cons e out s) =
    let (zs, v, same, t, p, free) = unsnoc b x ys a s in
    let apart : a ≢ last_of a ((b, x) ∷ ys) = λ i.
      let inside : has a ((b, x) ∷ ys) ≡ true =
        ap (λ z. has z ((b, x) ∷ ys)) i ∙ last_of-has b x ys a in
      ground (arith, out, inside) in
    (
      (a, w) ∷ zs,
      v,
      ap (◌∷◌ (a, w)) same,
      cons e
          (ground
            (arith, out, ap (has a) same, has-append a zs ((last_of a ((b, x) ∷ ys), v) ∷ [])))
          t,
      p,
      ground (arith, free, apart, ==-ne (last_of a ((b, x) ∷ ys)) a (λ i. apart (sym i))),
    )
