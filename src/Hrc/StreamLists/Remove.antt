-- ===== src/Hrc/StreamLists/Remove.antt =====
-- `LpelTaskRemoveStream`, and that it undoes `LpelTaskAddStream`.
use my_lpel.Common.{
  ℕ, zero, suc, ◌+◌, ◌<◌, ◌≡◌, ◌≢◌, refl, sym, ap, ◌∙◌, true, false, ◌==◌, if◌then◌else◌, none,
  some, [], ◌∷◌, ◌++◌, ok, ◌>>=◌, Yields, yields, Yields-map, Bool-cases, inl, inr, ==-true, arith,
  ==-refl, ==-ne, Ptr, null,
}
use my_lpel.Common.Int.{ℤ, ◌+ℤ◌, ◌-ℤ◌, int_laws}
use my_lpel.Common.Lists.{length}
use my_lpel.Memory.{Heap, write, load-ok, modify-ok, free-ok}
use my_lpel.Memory.Seg.{
  Cells, has, has-append, Seg, cons, frame-write, Points-write, not-has_of_none,
}
use my_lpel.Memory.Unlink.{
  last_of, none_pass, last_of-has, search-found, relink, Seg-at, Seg-split, last_of-inside,
}
use my_lpel.Hrc.StreamLists.{
  StreamElem, Mode, reads, writes, SchedTask, list_of, set_list, is_desc, int_of, raise_limit,
  lower_limit, add_stream, find_elem, remove_stream,
}

-- the list of the mode stands for these elements
abbrev pub Listed : Heap StreamElem → SchedTask → Mode → Cells Ptr → Type 0
Listed h s mode xs = Seg (λ n. n.next) (λ n. n.stream_desc) h null (list_of s mode) xs

list_of-set : (s : SchedTask) (mode : Mode) (p : Ptr) → list_of (set_list s mode p) mode ≡ p
list_of-set s reads p = refl
list_of-set s writes p = refl

limit-set : (r : SchedTask) (mode : Mode) (q : Ptr) → (set_list r mode q).rec_limit ≡ r.rec_limit
limit-set r reads q = refl
limit-set r writes q = refl

-- the element is gone, and the others are as they were
pub record Removed (p : Ptr) (xs : Cells Ptr) (mode : Mode) (r : SchedTask)
    (result : Heap StreamElem × SchedTask) : Type 0 where
  pub listed : Listed result.0 result.1 mode xs
  pub freed : result.0 p ≡ none
  pub limit : result.1.rec_limit ≡ r.rec_limit

module _ (h : Heap StreamElem) (s r : SchedTask) (mode : Mode) (p des : Ptr) (zs : Cells Ptr)
    (lower : lower_limit s mode ≡ ok r) where
  first-Removed :
      (k : ℕ)
      → Listed h r mode ((p, des) ∷ zs)
      → Yields (Removed p zs mode r) (remove_stream (suc k) h s des mode)
  unfolding remove_stream find_elem
  first-Removed k l =
      let (q, at, rest, before, behind) = Seg-split zs [] l in
      rw
        (
          lower,
          search-found (λ n. n.next) (λ n. n.stream_desc) (is_desc des) zs [] null (suc k) l refl
              (==-refl des) (omega arith),
          ==-ne p null at.ne_null,
          load-ok h p at.node at.ne_null at.holds,
          free-ok h p at.node at.ne_null at.holds,
        )
        (yields (record {
          listed = rw (list_of-set r mode at.node.next, at.leads) (frame-write p none rest behind);
          freed = rw (==-refl p);
          limit = limit-set r mode _;
        }))

  later-Removed :
      (a u : Ptr) (ys : Cells Ptr) (k : ℕ)
      → Listed h r mode ((a, u) ∷ (ys ++ ((p, des) ∷ zs)))
      → none_pass (is_desc des) ((a, u) ∷ ys) ≡ true
      → length ys + 1 < k
      → Yields (Removed p ((a, u) ∷ (ys ++ zs)) mode r) (remove_stream k h s des mode)
  unfolding remove_stream find_elem
  later-Removed a u ys k l clear less =
      let (q, at, rest, before, behind) = Seg-split zs ((a, u) ∷ ys) l in
      let last = last_of null ((a, u) ∷ ys) in
      let (n, holds, ne) = Seg-at last l (last_of-inside a u ys ((p, des) ∷ zs) null) in
      let other : p ≢ last =
        λ e. ground (arith, before, ap (λ z. has z ((a, u) ∷ ys)) e, last_of-has a u ys null) in
      let g = write h last (some (record n { next = at.node.next })) in
      rw
        (
          lower,
          search-found (λ n. n.next) (λ n. n.stream_desc) (is_desc des) zs ((a, u) ∷ ys) null k l
              clear (==-refl des) (omega (arith, less)),
          ==-ne p null at.ne_null,
          load-ok h p at.node at.ne_null at.holds,
          ==-ne last null ne,
          modify-ok h last n ne holds,
        )
        (rw (free-ok g p at.node at.ne_null (rw (==-ne p last other) at.holds)) (
          yields (record {
            listed =
                frame-write p none
                  (relink zs a u ys null n (record n { next = at.node.next }) refl at.leads at l
                    holds)
                  (ground (arith, before, behind, has-append p ((a, u) ∷ ys) zs));
            freed = rw (==-refl p);
            limit = refl;
          })))

  -- If the limit of records stays an int, removing a descriptor from a list where it stands takes
  -- out and frees its first element and keeps the others in order, given fuel above the number of
  -- elements before it.
  pub remove_stream-Removed :
      (ys : Cells Ptr) (k : ℕ)
      → Listed h r mode (ys ++ ((p, des) ∷ zs))
      → none_pass (is_desc des) ys ≡ true
      → length ys < k
      → Yields (Removed p (ys ++ zs) mode r) (remove_stream k h s des mode)
  remove_stream-Removed ys zero l clear less = absurd (omega (arith, less))
  remove_stream-Removed [] (suc k) l clear less = first-Removed k l
  remove_stream-Removed ((a, u) ∷ ys) (suc k) l clear less =
      later-Removed a u ys (suc k) l clear (omega (arith, less))

minus_plus : (a b : ℤ) → (a +ℤ b) -ℤ b ≡ a
minus_plus a b = grind int_laws

-- the limit is an int, also with one more stream
pub record InRange (s : SchedTask) : Type 0 where
  pub now : int_of s.rec_limit ≡ ok s.rec_limit
  pub next : int_of (s.rec_limit +ℤ s.rec_limit_factor) ≡ ok (s.rec_limit +ℤ s.rec_limit_factor)

raised : SchedTask → Mode → SchedTask
raised s reads = s
raised s writes = record s { rec_limit = s.rec_limit +ℤ s.rec_limit_factor }

raise-raised : (s : SchedTask) (mode : Mode) → InRange s → raise_limit s mode ≡ ok (raised s mode)
unfolding raise_limit raised
raise-raised s reads f = refl
raise-raised s writes f = rw f.next refl

lower-raised :
    (s : SchedTask) (mode : Mode) (q : Ptr)
    → InRange s
    → lower_limit (set_list (raised s mode) mode q) mode ≡ ok (set_list s mode q)
unfolding lower_limit raised
lower-raised s reads q f = refl
lower-raised s writes q f = rw (minus_plus s.rec_limit s.rec_limit_factor, f.now) refl

raised-list : (s : SchedTask) (mode : Mode) → list_of (raised s mode) mode ≡ list_of s mode
unfolding raised
raised-list s reads = refl
raised-list s writes = refl

head_or_null : (p : Ptr) → (if p == null then null else p) ≡ p
head_or_null p = elim (Bool-cases (p == null)) [
  | inl e ↦ rw e (sym (==-true p null e))
  | inr ne ↦ rw ne refl
]

-- A descriptor that is added to a well-formed list, at an unused address from malloc and with
-- limits that are ints, and then removed leaves the list and the limit of records as they were
-- and the address free.
pub remove_stream-add_stream :
    (h : Heap StreamElem) (s : SchedTask) (mode : Mode) (des new : Ptr) (xs : Cells Ptr) (k : ℕ)
    → Listed h s mode xs
    → h new ≡ none
    → new ≢ null
    → InRange s
    → Yields
        (λ (g, u). (Listed g u mode xs) × (g new ≡ none) × (u.rec_limit ≡ s.rec_limit))
        (add_stream h s des mode new >>= λ (g, u). remove_stream (suc k) g u des mode)
unfolding add_stream
remove_stream-add_stream h s mode des new xs k l unused ne f =
    let out : has new xs ≡ false = not-has_of_none new l unused in
    let head = list_of (raised s mode) mode in
    let node : StreamElem = record {
      stream_desc = des;
      next = if head == null then null else head;
    } in
    let tail : node.next ≡ list_of s mode = head_or_null head ∙ raised-list s mode in
    let listed : Listed (write h new (some node)) (set_list s mode new) mode ((new, des) ∷ xs) =
      rw (list_of-set s mode new)
        (cons (Points-write h new node ne refl tail) out (frame-write new (some node) l out)) in
    rw (raise-raised s mode f) (
      Yields-map
        (first-Removed (write h new (some node)) (set_list (raised s mode) mode new)
          (set_list s mode new) mode new des xs (lower-raised s mode new f) k listed)
        λ r a. (a.listed, a.freed, a.limit ∙ limit-set s mode new))
