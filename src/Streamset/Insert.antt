-- ===== src/Streamset/Insert.antt =====
-- A chain into which a descriptor is put behind another one, and the cells before the last.
use my_lpel.Common.{◌≡◌, ◌≢◌, refl, sym, ap, false, [], ◌∷◌, ◌++◌, arith, ==-ne, Ptr}
use my_lpel.Memory.{Heap}
use my_lpel.Memory.Seg.{Cells, has, has-append, has-differ, cons, frame, Points-frame}
use my_lpel.Memory.Unlink.{last_of, Points-next}
use my_lpel.Streamset.{Member}
use my_lpel.Streamset.Ring.{PointsTo, Chain}

-- the chain after a descriptor was put behind `p`
pub insert :
    {h g : Heap Member} {stop q r : Ptr} (p x node w : Ptr) (zs ys : Cells Ptr)
    → Chain h stop q (ys ++ (p, x) ∷ zs)
    → ((a : Ptr) → a ≢ p → a ≢ node → g a ≡ h a)
    → PointsTo h p x r
    → PointsTo g p x node
    → PointsTo g node w r
    → has node (ys ++ (p, x) ∷ zs) ≡ false
    → Chain g stop q (ys ++ (p, x) ∷ (node, w) ∷ zs)
insert {g} {stop} p x node w zs [] (cons e out s) same before at_p at_node free =
    let apart : p ≢ node = λ i. ground (arith, free, sym i) in
    let kept : Chain g stop _ zs =
      frame s λ a i. same a (has-differ zs i out) (has-differ zs i (ground (arith, free))) in
    cons at_p (ground (arith, out, ==-ne p node apart))
      (cons (rw (Points-next e before) at_node) (ground (arith, free)) kept)
insert p x node w zs ((a, y) ∷ ys) (cons e out s) same before at_p at_node free =
    let apart : a ≢ node = λ i. ground (arith, free, sym i) in
    let other : a ≢ p = λ i. ground (arith, out, has-append a ys ((p, x) ∷ zs), i) in
    cons (Points-frame e (same a other apart))
      (ground (
        arith,
        out,
        has-append a ys ((p, x) ∷ zs),
        has-append a ys ((p, x) ∷ (node, w) ∷ zs),
        ==-ne a node apart,
      ))
      (insert p x node w zs ys s same before at_p at_node (ground (arith, free)))

pub has-between :
    (a node w : Ptr) (ys zs : Cells Ptr)
    → has a (ys ++ zs) ≡ false
    → a ≢ node
    → has a ((ys ++ (node, w) ∷ []) ++ zs) ≡ false
has-between a node w ys zs out other = ground (
  arith,
  out,
  ==-ne a node other,
  has-append a (ys ++ (node, w) ∷ []) zs,
  has-append a ys ((node, w) ∷ []),
  has-append a ys zs,
)

-- the last of some cells
pub split_last :
    (a w : Ptr) (ys : Cells Ptr) (prev : Ptr)
    → (zs : Cells Ptr) × (v : Ptr) × ((a, w) ∷ ys ≡ zs ++ (last_of prev ((a, w) ∷ ys), v) ∷ [])
split_last a w [] prev = ([], w, refl)
split_last a w ((b, x) ∷ ys) prev =
    let (zs, v, same) = split_last b x ys a in ((a, w) ∷ zs, v, ap (◌∷◌ (a, w)) same)
