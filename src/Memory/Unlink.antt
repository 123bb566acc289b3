-- ===== src/Memory/Unlink.antt =====
-- A singly linked list with NULL at its end: the search for a struct with the struct before it, and
-- what is left when that struct is passed over.
use my_lpel.Common.{
  ℕ, zero, suc, ◌<◌, ◌≡◌, ◌≢◌, refl, sym, ap, ◌∙◌, Bool, true, false, some, [], ◌∷◌, ◌++◌, arith,
  ◌==◌, if◌then◌else◌, ==-refl, ==-ne, ==-true, Bool-cases, inl, inr, Res, ok, fault, fuel, ◌>>=◌,
  Ptr, null,
}
use my_lpel.Common.Lists.{length}
use my_lpel.Memory.{Heap, write, load, load-ok}
use my_lpel.Memory.Seg.{Cells, has, has-append, Points, Seg, nil, cons, frame-write, Points-skip}

-- the address before the next one
abbrev pub last_of : {V : Type 0} → Ptr → Cells V → Ptr
last_of prev [] = prev
last_of prev ((p, v) ∷ xs) = last_of p xs

abbrev pub none_pass : {V : Type 0} → (Ptr → V → Bool) → Cells V → Bool
none_pass test [] = true
none_pass test ((p, v) ∷ xs) = if test p v then false else none_pass test xs

module _ {N V : Type 0} (next : N → Ptr) (val : N → V) (test : Ptr → V → Bool) where
  -- the loop of a search, on fuel; from the struct `p` with `prev` before it
  unfoldable pub search : ℕ → Heap N → Ptr → Ptr → Res (Ptr × Ptr)
  search zero h prev p = fault fuel
  search (suc k) h prev p =
      if p == null
      then ok (prev, p)
      else (load h p >>= λ n.
          let rest = search k h p (next n) in if test p (val n) then ok (prev, p) else rest)

  pub search-found :
      {h : Heap N} {p q : Ptr} {v : V}
      → (zs ys : Cells V) (prev : Ptr) (k : ℕ) → Seg next val h null q (ys ++ ((p, v) ∷ zs))
      → none_pass test ys ≡ true
      → test p v ≡ true
      → length ys < k
      → search k h prev q ≡ ok (last_of prev ys, p)
  unfolding search
  search-found zs ys prev zero s clear hit h = absurd (omega (arith, h))
  search-found {h} {p} zs [] prev (suc k) (cons e out s) clear hit less =
      rw (==-ne p null e.ne_null, load-ok h p e.node e.ne_null e.holds, e.value, hit) refl
  search-found {h} zs ((a, u) ∷ ys) prev (suc k) (cons e out s) clear hit less =
      let miss : test a u ≡ false = ground (arith, clear) in
      rw (==-ne a null e.ne_null, load-ok h a e.node e.ne_null e.holds, e.value, miss, e.leads)
        (search-found zs ys a k s (ground (arith, clear)) hit (omega (arith, less)))

  pub search-absent :
      {h : Heap N} {q : Ptr} (ys : Cells V) (prev : Ptr) (k : ℕ)
      → Seg next val h null q ys
      → none_pass test ys ≡ true
      → length ys < k
      → search k h prev q ≡ ok (last_of prev ys, null)
  unfolding search
  search-absent ys prev zero s clear less = absurd (omega (arith, less))
  search-absent [] prev (suc k) nil clear less = refl
  search-absent {h} ((a, u) ∷ ys) prev (suc k) (cons e out s) clear less =
      let miss : test a u ≡ false = ground (arith, clear) in
      rw (==-ne a null e.ne_null, load-ok h a e.node e.ne_null e.holds, e.value, miss, e.leads)
        (search-absent ys a k s (ground (arith, clear)) (omega (arith, less)))

pub last_of-has :
    {V : Type 0} (a : Ptr) (u : V) (ys : Cells V) (prev : Ptr)
    → has (last_of prev ((a, u) ∷ ys)) ((a, u) ∷ ys) ≡ true
last_of-has a u [] prev = ground (arith, ==-refl a)
last_of-has a u ((b, w) ∷ ys) prev = ground (arith, last_of-has b w ys a)

module _ {N V : Type 0} {next : N → Ptr} {val : N → V} where
  pub Points-next :
      {h : Heap N} {p q r : Ptr} {u v : V}
      → Points next val h p u q
      → Points next val h p v r
      → q ≡ r
  Points-next e f =
      let same : e.node ≡ f.node = cc (e.holds, f.holds) in sym e.leads ∙ ap next same ∙ f.leads

  -- the struct at the end of the first part is made to point behind `p`
  pub relink :
      {h : Heap N} {p q r stop : Ptr} {v : V}
      → (zs : Cells V) (a : Ptr) (u : V) (ys : Cells V) (prev : Ptr) (n n' : N) → val n' ≡ val n
      → next n' ≡ r
      → Points next val h p v r
      → Seg next val h stop q ((a, u) ∷ (ys ++ ((p, v) ∷ zs)))
      → h (last_of prev ((a, u) ∷ ys)) ≡ some n
      → Seg next val (write h (last_of prev ((a, u) ∷ ys)) (some n')) stop q ((a, u) ∷ (ys ++ zs))
  relink {h} {p} {q} {r} {stop} {v} zs a u [] prev n n' same leads at (cons e out (cons f out' s))
        holds =
      let behind : Seg next val h stop r zs = rw (Points-next at f) s in
      let node : e.node ≡ n = cc (e.holds, holds) in
      cons
        (record {
          node = n';
          ne_null = e.ne_null;
          holds = rw (==-refl a);
          value = same ∙ ap val (sym node) ∙ e.value;
          leads = leads;
        })
        (ground (arith, out)) (frame-write a (some n') behind (ground (arith, out)))
  relink {h} {p} {v} zs a u ((b, w) ∷ ys) prev n n' same leads at (cons e out s) holds =
      let rest = relink zs b w ys a n n' same leads at s holds in
      let apart : a ≢ last_of a ((b, w) ∷ ys) = λ i.
        let inside : has a ((b, w) ∷ ys) ≡ true =
          ap (λ z. has z ((b, w) ∷ ys)) i ∙ last_of-has b w ys a in
        ground (arith, out, inside, has-append a ys ((p, v) ∷ zs)) in
      cons (Points-skip h (last_of a ((b, w) ∷ ys)) (some n') e apart)
        (ground (arith, out, has-append a ys zs, has-append a ys ((p, v) ∷ zs))) rest

  -- what lies at an address of a segment
  pub Seg-at :
      {h : Heap N} {stop : Ptr} (q : Ptr) {p : Ptr} {xs : Cells V}
      → Seg next val h stop p xs
      → has q xs ≡ true
      → (n : N) × (h q ≡ some n) × (q ≢ null)
  Seg-at q nil i = absurd (ground (arith, i))
  Seg-at {h} q (cons {p} {v} {xs} e out s) i = elim (Bool-cases (q == p)) [
    | inl here ↦ rw (==-true q p here) (e.node, e.holds, e.ne_null)
    | inr other ↦ Seg-at q s (ground (arith, i, other))
  ]

  -- where a segment is cut, the cell there and the rest
  pub Seg-split :
      {h : Heap N} {q stop p : Ptr} {v : V}
      → (zs ys : Cells V) → Seg next val h stop q (ys ++ ((p, v) ∷ zs))
      → (r : Ptr) × Points next val h p v r
        × Seg next val h stop r zs
        × (has p ys ≡ false)
        × (has p zs ≡ false)
  Seg-split zs [] (cons e out s) = (_, e, s, refl, out)
  Seg-split {p} {v} zs ((a, u) ∷ ys) (cons e out s) =
      let (r, f, t, before, behind) = Seg-split zs ys s in
      (r, f, t, ground (arith, before, out, has-append a ys ((p, v) ∷ zs)), behind)

pub last_of-inside :
    {V : Type 0} (a : Ptr) (u : V) (ys zs : Cells V) (prev : Ptr)
    → has (last_of prev ((a, u) ∷ ys)) ((a, u) ∷ (ys ++ zs)) ≡ true
last_of-inside a u ys zs prev =
    ground
      (arith, last_of-has a u ys prev, has-append (last_of prev ((a, u) ∷ ys)) ((a, u) ∷ ys) zs)
