-- ===== src/Hrc/FreeLists/Take.antt =====
-- What is taken from a list of spare structs, and what is left.
use my_lpel.Common.{
  ℕ, ◌<◌, ◌≡◌, ◌≢◌, refl, sym, ap, ◌∙◌, true, false, ◌==◌, some, [], ◌∷◌, ◌++◌, ok, ◌>>=◌, Yields,
  yields, Bool-cases, inl, inr, ==-true, arith, ◌≤◌, Yields-bind, ==-ne, Ptr, null,
}
use my_lpel.Common.Lists.{length}
use my_lpel.Memory.{Heap, write, load-ok, modify-ok}
use my_lpel.Memory.Seg.{Cells, has, has-append, Points, Seg, nil, cons, frame-write, Points-write}
use my_lpel.Memory.Unlink.{
  last_of, last_of-has, none_pass, search-found, search-absent, relink, Seg-at, Seg-split,
  last_of-inside,
}
use my_lpel.Hrc.FreeLists.{Spare, uses, is_unused, Took, put, get_sd, get_stream}

-- the list from `head` on
abbrev pub Kept : Heap Spare → Ptr → Cells (Ptr × Ptr) → Type 0
Kept h head xs = Seg (λ n. n.next) uses h null head xs

-- `p` was taken out, and is linked to nothing; the others are in their order
pub record Taken (p : Ptr) (v : Ptr × Ptr) (xs : Cells (Ptr × Ptr)) (r : Took) : Type 0 where
  pub result : r.result ≡ p
  pub loose : Points (λ n. n.next) uses r.heap p v null
  pub kept : Kept r.heap r.head xs

first-Taken :
    (h : Heap Spare) (head p : Ptr) (v : Ptr × Ptr) (zs : Cells (Ptr × Ptr)) (k : ℕ)
    → Kept h head ((p, v) ∷ zs)
    → is_unused p v ≡ true
    → Yields (Taken p v zs) (get_sd k h head)
unfolding get_sd
first-Taken h _ p v zs k (cons e out s) unused =
    rw
      (
        ==-ne p null e.ne_null,
        load-ok h p e.node e.ne_null e.holds,
        ap (is_unused p) e.value ∙ unused,
        modify-ok h p e.node e.ne_null e.holds,
      )
      (yields (record {
        result = refl;
        loose = Points-write h p (record (e.node) { next = null }) e.ne_null e.value refl;
        kept = rw e.leads (frame-write p _ s out);
      }))

later-Taken :
    (h : Heap Spare) (head p : Ptr) (v : Ptr × Ptr) (zs : Cells (Ptr × Ptr)) (a : Ptr)
    (u : Ptr × Ptr) (ys : Cells (Ptr × Ptr)) (k : ℕ)
    → Kept h head ((a, u) ∷ (ys ++ ((p, v) ∷ zs)))
    → none_pass is_unused ((a, u) ∷ ys) ≡ true
    → is_unused p v ≡ true
    → length ys < k
    → Yields (Taken p v ((a, u) ∷ (ys ++ zs))) (get_sd k h head)
unfolding get_sd
later-Taken h _ p v zs a u ys k (cons e out s) clear unused less =
    let l : Kept h a ((a, u) ∷ (ys ++ ((p, v) ∷ zs))) = cons e out s in
    let miss : is_unused a u ≡ false = ground (arith, clear) in
    let (q, at, rest, before, behind) = Seg-split zs ((a, u) ∷ ys) l in
    let last = last_of null ((a, u) ∷ ys) in
    let (n, holds, ne) = Seg-at last l (last_of-inside a u ys ((p, v) ∷ zs) null) in
    let other : p ≢ last =
      λ i. ground (arith, before, ap (λ z. has z ((a, u) ∷ ys)) i, last_of-has a u ys null) in
    let g = write h last (some (record n { next = at.node.next })) in
    let here : g p ≡ some at.node = rw (==-ne p last other) at.holds in
    rw
      (
        ==-ne a null e.ne_null,
        load-ok h a e.node e.ne_null e.holds,
        ap (is_unused a) e.value ∙ miss,
        e.leads,
        search-found (λ m. m.next) uses is_unused zs ys a k s (ground (arith, clear)) unused less,
        ==-ne p null at.ne_null,
        load-ok h p at.node at.ne_null at.holds,
        modify-ok h last n ne holds,
        modify-ok g p at.node at.ne_null here,
      )
      (yields (record {
        result = refl;
        loose = Points-write g p (record (at.node) { next = null }) at.ne_null at.value refl;
        kept =
            frame-write p _
              (relink zs a u ys null n (record n { next = at.node.next }) refl at.leads at l holds)
              (ground (arith, before, behind, has-append p ((a, u) ∷ ys) zs));
      }))

-- From a well-formed free list the first descriptor whose task and stream are unset is taken and
-- linked to nothing, and the others stay in order, given fuel of at least the number before it.
pub get_sd-Taken :
    (h : Heap Spare) (head p : Ptr) (v : Ptr × Ptr) (ys zs : Cells (Ptr × Ptr)) (k : ℕ)
    → Kept h head (ys ++ ((p, v) ∷ zs))
    → none_pass is_unused ys ≡ true
    → is_unused p v ≡ true
    → length ys ≤ k
    → Yields (Taken p v (ys ++ zs)) (get_sd k h head)
get_sd-Taken h head p v [] zs k l clear unused less = first-Taken h head p v zs k l unused
get_sd-Taken h head p v ((a, u) ∷ ys) zs k l clear unused less =
    later-Taken h head p v zs a u ys k l clear unused (omega (arith, less))

-- if all are in use, nothing is taken and nothing changes
pub get_sd-absent :
    (h : Heap Spare) (head : Ptr) (xs : Cells (Ptr × Ptr)) (k : ℕ)
    → Kept h head xs
    → none_pass is_unused xs ≡ true
    → length xs ≤ k
    → get_sd k h head ≡ ok (record { result = null; heap = h; head = head })
unfolding get_sd
get_sd-absent h _ [] k nil clear less = refl
get_sd-absent h _ ((a, u) ∷ xs) k (cons e out s) clear less =
    let miss : is_unused a u ≡ false = ground (arith, clear) in
    rw
      (
        ==-ne a null e.ne_null,
        load-ok h a e.node e.ne_null e.holds,
        ap (is_unused a) e.value ∙ miss,
        e.leads,
        search-absent (λ m. m.next) uses is_unused xs a k s (ground (arith, clear))
            (omega (arith, less)),
      )
      refl

-- a struct that is put in stands first
pub put-Kept :
    (h : Heap Spare) (head sd : Ptr) (n : Spare) (xs : Cells (Ptr × Ptr))
    → Kept h head xs
    → sd ≢ null
    → h sd ≡ some n
    → has sd xs ≡ false
    → Yields (λ (g, q). (q ≡ sd) × Kept g sd ((sd, uses n) ∷ xs)) (put h head sd)
unfolding put
put-Kept h head sd n xs l ne holds out = elim (Bool-cases (head == null)) [
  | inl e ↦
      rw (e, modify-ok h sd n ne holds)
        (yields (
          refl,
          cons (Points-write h sd (record n { next = null }) ne refl (sym (==-true head null e)))
              out (frame-write sd _ l out),
        ))
  | inr full ↦
      rw (full, modify-ok h sd n ne holds)
        (yields (
          refl,
          cons (Points-write h sd (record n { next = head }) ne refl refl) out
              (frame-write sd _ l out),
        ))
]

-- a descriptor that is no longer used is the next to be taken
pub get_sd-put :
    (h : Heap Spare) (head sd : Ptr) (n : Spare) (xs : Cells (Ptr × Ptr)) (k : ℕ)
    → Kept h head xs
    → sd ≢ null
    → h sd ≡ some n
    → has sd xs ≡ false
    → is_unused sd (uses n) ≡ true
    → Yields (Taken sd (uses n) xs) (put h head sd >>= λ (g, q). get_sd k g q)
get_sd-put h head sd n xs k l ne holds out unused =
    Yields-bind (put-Kept h head sd n xs l ne holds out)
      λ (g, q) (same, kept). rw same (first-Taken g sd sd (uses n) xs k kept unused)

top :
    (g : Heap Spare) (head s : Ptr) (v : Ptr × Ptr) (xs : Cells (Ptr × Ptr))
    → Kept g head ((s, v) ∷ xs)
    → is_unused s v ≡ true
    → Yields (Taken s v xs) (get_stream g head)
unfolding get_stream
top g _ s v xs (cons e out t) unused =
    rw
      (
        ==-ne s null e.ne_null,
        load-ok g s e.node e.ne_null e.holds,
        modify-ok g s e.node e.ne_null e.holds,
        ap (is_unused s) e.value ∙ unused,
      )
      (yields (record {
        result = refl;
        loose = Points-write g s (record (e.node) { next = null }) e.ne_null e.value refl;
        kept = rw e.leads (frame-write s _ t out);
      }))

-- likewise a stream, whose descriptors were unset
pub get_stream-put :
    (h : Heap Spare) (head s : Ptr) (n : Spare) (xs : Cells (Ptr × Ptr))
    → Kept h head xs
    → s ≢ null
    → h s ≡ some n
    → has s xs ≡ false
    → is_unused s (uses n) ≡ true
    → Yields (Taken s (uses n) xs) (put h head s >>= λ (g, q). get_stream g q)
get_stream-put h head s n xs l ne holds out unused =
    Yields-bind (put-Kept h head s n xs l ne holds out)
      λ (g, q) (same, kept). rw same (top g s s (uses n) xs kept unused)
