-- ===== src/Memory/Seg.antt =====
-- List segments: from one address the `next` pointers lead through distinct structs to another.
use my_lpel.Common.{
  ◌≡◌, ◌≢◌, refl, ap, ◌∙◌, Bool, true, false, ◌||◌, Option, none, some, List, [], ◌∷◌, ◌++◌, arith,
  ◌==◌, ==-refl, ==-ne, Ptr, null,
}
use my_lpel.Memory.{Heap, write}

-- what a segment stands for: the address and the value of each struct, in order
abbrev pub Cells : Type 0 → Type 0
Cells V = List (Ptr × V)

-- whether an address is one of the cells'
abbrev pub has : {V : Type 0} → Ptr → Cells V → Bool
has a [] = false
has a ((p, _) ∷ xs) = (a == p) || has a xs

pub has-append :
    {V : Type 0} (a : Ptr) (xs ys : Cells V) → has a (xs ++ ys) ≡ (has a xs || has a ys)
has-append a [] ys = refl
has-append a ((p, v) ∷ xs) ys = ground (arith, has-append a xs ys)

pub has-differ :
    {V : Type 0} {a b : Ptr} (xs : Cells V) → has a xs ≡ true → has b xs ≡ false → a ≢ b
has-differ xs i out j = ground (arith, ap (λ p. has p xs) j, i, out)

abbrev pub vals : {V : Type 0} → Cells V → List V
vals [] = []
vals ((_, v) ∷ xs) = v ∷ vals xs

pub vals-append : {V : Type 0} (xs ys : Cells V) → vals (xs ++ ys) ≡ vals xs ++ vals ys
vals-append [] ys = refl
vals-append ((p, v) ∷ xs) ys = ap (◌∷◌ v) (vals-append xs ys)

module _ {N V : Type 0} (next : N → Ptr) (val : N → V) where
  -- at `p` lies a struct with value `v` that points to `q`
  pub record Points (h : Heap N) (p : Ptr) (v : V) (q : Ptr) : Type 0 where
    pub node : N
    pub ne_null : p ≢ null
    pub holds : h p ≡ some node
    pub value : val node ≡ v
    pub leads : next node ≡ q

  pub data Seg (h : Heap N) (stop : Ptr) : Ptr → Cells V → Type 0 where
    nil : Seg h stop stop []
    cons :
        {p q : Ptr} {v : V} {xs : Cells V}
        → Points h p v q
        → has p xs ≡ false
        → Seg h stop q xs
        → Seg h stop p ((p, v) ∷ xs)

module _ {N V : Type 0} {next : N → Ptr} {val : N → V} where
  pub Points-frame :
      {h g : Heap N} {p q : Ptr} {v : V}
      → Points next val h p v q
      → g p ≡ h p
      → Points next val g p v q
  Points-frame e same = record {
    node = e.node;
    ne_null = e.ne_null;
    holds = same ∙ e.holds;
    value = e.value;
    leads = e.leads;
  }

  -- a segment survives any change that spares its addresses
  pub frame :
      {h g : Heap N} {stop p : Ptr} {xs : Cells V}
      → Seg next val h stop p xs
      → ((a : Ptr) → has a xs ≡ true → g a ≡ h a)
      → Seg next val g stop p xs
  frame nil same = nil
  frame (cons {p} e out s) same =
      cons (Points-frame e (same p (ground arith))) out (frame s λ a i. same a (ground (arith, i)))

  pub frame-write :
      {h : Heap N} {stop p : Ptr} {xs : Cells V} (a : Ptr) (c : Option N)
      → Seg next val h stop p xs
      → has a xs ≡ false
      → Seg next val (write h a c) stop p xs
  frame-write a c s out = frame s λ b i. ground arith

  -- one more cell at the end
  pub snoc :
      {h : Heap N} {stop last p : Ptr} {v : V} {xs : Cells V}
      → Seg next val h last p xs
      → Points next val h last v stop
      → has last xs ≡ false
      → Seg next val h stop p (xs ++ (last, v) ∷ [])
  snoc nil e out = cons e refl nil
  snoc {last} {v} (cons {p} {xs} f out' s) e out =
      cons f (ground (arith, has-append p xs ((last, v) ∷ []))) (snoc s e (ground arith))

  pub Seg-null : {h : Heap N} {xs : Cells V} → Seg next val h null null xs → xs ≡ []
  Seg-null nil = refl
  Seg-null (cons e out s) = absurd (e.ne_null refl)

  -- an address that holds nothing is not in a segment
  pub not-has_of_none :
      {h : Heap N} {stop p : Ptr} {xs : Cells V} (a : Ptr)
      → Seg next val h stop p xs
      → h a ≡ none
      → has a xs ≡ false
  not-has_of_none a nil unused = refl
  not-has_of_none a (cons {p} {xs} e out s) unused =
      ground (arith, e.holds, not-has_of_none a s unused)

  pub Points-write :
      (h : Heap N) (p : Ptr) (n : N) {v : V} {q : Ptr}
      → p ≢ null
      → val n ≡ v
      → next n ≡ q
      → Points next val (write h p (some n)) p v q
  Points-write h p n ne e f = record {
    node = n;
    ne_null = ne;
    holds = rw (==-refl p);
    value = e;
    leads = f;
  }

  -- the same after a write elsewhere
  pub Points-skip :
      (h : Heap N) (a : Ptr) (c : Option N) {p q : Ptr} {v : V}
      → Points next val h p v q
      → p ≢ a
      → Points next val (write h a c) p v q
  Points-skip h a c {p} e ne = Points-frame e (rw (==-ne p a ne))
