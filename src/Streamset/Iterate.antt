-- ===== src/Streamset/Iterate.antt =====
-- Going through a set and removing what passes a test.
use my_lpel.Common.{
  ℕ, zero, suc, ◌<◌, ◌≡◌, refl, ap, Bool, true, false, List, [], ◌∷◌, ◌++◌, arith, ==-ne, ==-refl,
  if◌then◌else◌, Res, ok, fault, fuel, ◌>>=◌, ◌>>◌, Yields, yields, Yields-bind, Ptr, null, assert,
}
use my_lpel.Common.Lists.{length}
use my_lpel.Memory.{Heap}
use my_lpel.Memory.Seg.{Cells}
use my_lpel.Streamset.{Member, Iter, has_next, iter_next, iter_remove, iter_reset}
use my_lpel.Streamset.Between.{
  Between, fresh, past, emptied, Current, next-Current, ++-nil, ++-cons,
}
use my_lpel.Streamset.Step.{Removed, keep-Between, remove-Between}
use my_lpel.Streamset.Ring.{SetOf, vacant, filled}

abbrev pub addresses : Cells Ptr → List Ptr
addresses [] = []
addresses ((p, v) ∷ xs) = p ∷ addresses xs

-- those that do not pass the test
abbrev pub rejected : (Ptr → Bool) → Cells Ptr → Cells Ptr
rejected test [] = []
rejected test ((p, v) ∷ xs) = if test p then rejected test xs else (p, v) ∷ rejected test xs

-- the loop of a client that goes through a set and removes what passes a test, on fuel: what it saw
unfoldable pub visit :
    ℕ → (Ptr → Bool) → Heap Member → Ptr → Iter → Res (List Ptr × Heap Member × Ptr)
visit zero test h set it = fault fuel
visit (suc k) test h set it =
    let body : Res (List Ptr × Heap Member × Ptr) = do
      (cur, it1) ← iter_next h set it
      (g, set1, it2) ← if test cur then iter_remove h set it1 else ok (h, set, it1)
      (seen, u, set2) ← visit k test g set1 it2
      ok (cur ∷ seen, u, set2)
    in if has_next set it then body else ok ([], h, set)

abbrev pub Visited : (Ptr → Bool) → Cells Ptr → Cells Ptr → List Ptr × Heap Member × Ptr → Type 0
Visited test kept todo (seen, g, set) =
    (seen ≡ addresses todo) × SetOf g set (kept ++ rejected test todo)

pub at_end :
    {h : Heap Member} {set : Ptr} {kept : Cells Ptr} (it : Iter)
    → Between h set it kept []
    → (has_next set it ≡ false) × SetOf h set kept
unfolding has_next
at_end it (fresh a b k (vacant z e)) = (rw z refl, vacant z k)
at_end it (fresh a b k (filled {ys = []} s p out e)) = absurd cc
at_end it (fresh a b k (filled {ys = y ∷ ys} s p out e)) = absurd cc
at_end it (emptied z k e) = (rw z refl, vacant z k)
at_end {set} it (past {u} {q} others p s out k last) = (
  rw (last, ==-refl it.cur, ==-ne it.cur null p.ne_null) refl,
  filled {first = q} {v = u} {ys = others} (rw last s) (rw last p) (rw last out) (rw last k),
)

asserted :
    {A : Type 0} {P : A → Type 0} (m : Res A) (b : Bool) → Yields P (assert b >> m) → b ≡ true
asserted m true y = refl
asserted m false y = elim y [ ]

has_next-Between :
    {P : Ptr × Iter → Type 0} (h : Heap Member) (set : Ptr) (it : Iter)
    → Yields P (iter_next h set it)
    → has_next set it ≡ true
unfolding iter_next
has_next-Between h set it y = asserted _ (has_next set it) y

abbrev pub kept_after : Bool → Cells Ptr → Ptr → Ptr → Cells Ptr
kept_after gone kept t v = if gone then kept else kept ++ (t, v) ∷ []

pub chosen :
    {h : Heap Member} {set : Ptr} {kept : Cells Ptr} {t v : Ptr} {todo : Cells Ptr} (it : Iter)
    (gone : Bool)
    → Current h set it kept t v todo
    → Yields
        (Removed (kept_after gone kept t v) todo)
        (if gone then iter_remove h set it else ok (h, set, it))
chosen it true c = remove-Between it c
chosen it false c = yields (keep-Between c)

pub kept_so_far :
    {g : Heap Member} {set : Ptr} (t v : Ptr) (kept rest : Cells Ptr) (gone : Bool)
    → SetOf g set (kept_after gone kept t v ++ rest)
    → SetOf g set (kept ++ (if gone then rest else (t, v) ∷ rest))
kept_so_far t v kept rest true s = s
kept_so_far t v kept rest false s = rw (← ++-cons kept rest (t, v)) s

pub visit-Between :
    {h : Heap Member} {set : Ptr} {kept todo : Cells Ptr} (k : ℕ) (test : Ptr → Bool) (it : Iter)
    → Between h set it kept todo
    → length todo < k
    → Yields (Visited test kept todo) (visit k test h set it)
unfolding visit
visit-Between zero test it b less = absurd (omega (arith, less))
visit-Between {kept} {todo = []} (suc k) test it b less =
    let (done, s) = at_end it b in rw done (yields (refl, rw (++-nil kept) s))
visit-Between {h} {set} {kept} {todo = (t, v) ∷ todo} (suc k) test it b less =
    let stepped = next-Current it b in
    rw (has_next-Between h set it stepped) (
      Yields-bind stepped λ (cur, it1) (same, c). rw same (
        Yields-bind (chosen it1 (test t) c) λ (g, set1, it2) between.
          Yields-bind (visit-Between k test it2 between (omega (arith, less)))
            λ (seen, u, set2) (e, s).
              yields (ap (◌∷◌ t) e, kept_so_far t v kept (rejected test todo) (test t) s)))

-- With fuel above the size of a well-formed set, a loop over an iterator that removes each
-- descriptor passing a test sees every descriptor once and in order, fails no assert, and leaves
-- a well-formed set of the others in their order.
pub visit-Visited :
    (h : Heap Member) (set : Ptr) (xs : Cells Ptr) (k : ℕ) (test : Ptr → Bool)
    → SetOf h set xs
    → length xs < k
    → Yields (Visited test [] xs) (visit k test h set (iter_reset set))
unfolding iter_reset
visit-Visited h set xs k test s less = visit-Between k test _ (fresh refl refl refl s) less
