-- ===== src/Decen/Deque/Links.antt =====
-- The chain of a queue: each task points to its neighbours.
use my_lpel.Common.{
  ◌≡◌, ◌≢◌, refl, sym, ap, ◌∙◌, Bool, true, false, ◌||◌, some, List, [], ◌∷◌, ◌++◌, arith, ◌==◌,
  ==-refl, ==-ne, Ptr, null,
}
use my_lpel.Memory.{Heap, write}
use my_lpel.Decen.Deque.{Task}

abbrev pub mem : Ptr → List Ptr → Bool
mem a [] = false
mem a (x ∷ xs) = (a == x) || mem a xs

abbrev pub first : List Ptr → Ptr
first [] = null
first (x ∷ xs) = x

abbrev pub last : List Ptr → Ptr
last [] = null
last (x ∷ []) = x
last (x ∷ y ∷ xs) = last (y ∷ xs)

-- `before` is the task in front of the first
pub data Links (h : Heap Task) : Ptr → List Ptr → Type 0 where
  nil : {before : Ptr} → Links h before []
  cons :
      {before x : Ptr} {xs : List Ptr} {n : Task}
      → x ≢ null
      → h x ≡ some n
      → n.prev ≡ before
      → n.next ≡ first xs
      → mem x xs ≡ false
      → Links h x xs
      → Links h before (x ∷ xs)

pub frame :
    {h g : Heap Task} {before : Ptr} {xs : List Ptr}
    → Links h before xs
    → ((a : Ptr) → mem a xs ≡ true → g a ≡ h a)
    → Links g before xs
frame nil same = nil
frame (cons {x} ne e p q out l) same =
    cons ne (same x (ground arith) ∙ e) p q out (frame l λ a i. same a (ground (arith, i)))

-- the last task of a queue that is not empty
pub at_last :
    {h : Heap Task} {before x : Ptr} {xs : List Ptr}
    → Links h before (x ∷ xs)
    → (n : Task) × (last (x ∷ xs) ≢ null)
      × (h (last (x ∷ xs)) ≡ some n)
      × (n.next ≡ null)
      × (mem (last (x ∷ xs)) (x ∷ xs) ≡ true)
at_last (cons {n} ne e p q out nil) = (n, ne, e, q, ground arith)
at_last (cons {x} ne e p q out (cons {x = y} ne' e' p' q' out' l)) =
    let (m, i, j, k, o) = at_last (cons ne' e' p' q' out' l) in (m, i, j, k, ground (arith, o))

pub mem-differ : {a x : Ptr} (xs : List Ptr) → mem a xs ≡ true → mem x xs ≡ false → x ≢ a
mem-differ xs i out j = ground (arith, ap (λ p. mem p xs) j, i, out)

pub mem-append : (a t : Ptr) (xs : List Ptr) → mem a (xs ++ t ∷ []) ≡ (mem a xs || (a == t))
mem-append a t [] = ground arith
mem-append a t (x ∷ xs) = ground (arith, mem-append a t xs)

-- the chain after `link_last`
pub append :
    (h : Heap Task) (t : Ptr) (n m : Task) {before x : Ptr} (xs : List Ptr)
    → Links h before (x ∷ xs)
    → h (last (x ∷ xs)) ≡ some n
    → t ≢ null
    → m.next ≡ null
    → m.prev ≡ last (x ∷ xs)
    → mem t (x ∷ xs) ≡ false
    → Links
        (write (write h (last (x ∷ xs)) (some (record n { next = t }))) t (some m))
        before
        (x ∷ xs ++ t ∷ [])
append h t n m [] (cons {x} ne e p q out nil) at tn mn mp free =
    let xt : x ≢ t = λ i. ground (arith, free, sym i) in
    cons {n = record n { next = t }} ne (rw (==-ne x t xt, ==-refl x)) (cc (e, at, p)) refl
      (rw (==-ne x t xt)) (cons {n = m} tn (rw (==-refl t)) mp mn refl nil)
append h t n m (y ∷ xs) (cons {x} ne e p q out l) at tn mn mp free =
    let xt : x ≢ t = λ i. ground (arith, free, sym i) in
    let (k, i, j, o, inside) = at_last l in
    cons ne (rw (==-ne x t xt, ==-ne x (last (y ∷ xs)) (mem-differ (y ∷ xs) inside out)) e) p q
      (rw (mem-append x t (y ∷ xs), out, ==-ne x t xt))
      (append h t n m xs l at tn mn mp (ground (arith, free)))
