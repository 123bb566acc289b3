-- ===== src/Hrc/FreeLists/Destroy.antt =====
-- `LpelWorkerDestroySd` ends, and frees each struct of the list once.
use my_lpel.Common.{
  ℕ, zero, suc, ◌<◌, ◌≡◌, refl, ◌∙◌, true, false, ◌==◌, none, [], ◌∷◌, Yields, yields, Yields-map,
  Bool-cases, inl, inr, ==-true, arith, ==-refl, ==-ne, Ptr, null,
}
use my_lpel.Common.Lists.{length}
use my_lpel.Memory.{Heap, write, load-ok, free-ok}
use my_lpel.Memory.Seg.{Cells, has, nil, cons, frame-write}
use my_lpel.Hrc.FreeLists.{Spare, destroy_sd}
use my_lpel.Hrc.FreeLists.Take.{Kept}

-- the structs are gone, and the rest of the memory is as before
pub record Gone (h : Heap Spare) (xs : Cells (Ptr × Ptr)) (g : Heap Spare) : Type 0 where
  pub gone : (a : Ptr) → has a xs ≡ true → g a ≡ none
  pub others : (a : Ptr) → has a xs ≡ false → g a ≡ h a

-- With fuel above the length of a well-formed free list, its destruction ends, having freed each
-- descriptor of the list and nothing else.
pub destroy_sd-Gone :
    (k : ℕ) (h : Heap Spare) (head : Ptr) (xs : Cells (Ptr × Ptr))
    → Kept h head xs
    → length xs < k
    → Yields (Gone h xs) (destroy_sd k h head)
unfolding destroy_sd
destroy_sd-Gone zero h head xs l less = absurd (omega (arith, less))
destroy_sd-Gone (suc k) h _ [] nil less =
    yields (record { gone = λ a i. absurd (ground (arith, i)); others = λ a i. refl })
destroy_sd-Gone (suc k) h _ ((p, v) ∷ xs) (cons e out s) less =
    rw
      (
        ==-ne p null e.ne_null,
        load-ok h p e.node e.ne_null e.holds,
        free-ok h p e.node e.ne_null e.holds,
        e.leads,
      )
      (Yields-map
        (destroy_sd-Gone k (write h p none) _ xs (frame-write p none s out) (omega (arith, less)))
        λ g r. record {
          gone = λ a i. elim (Bool-cases (a == p)) [
            | inl here ↦ rw (==-true a p here) (r.others p out ∙ rw (==-refl p) refl)
            | inr other ↦ r.gone a (ground (arith, i, other))
          ];
          others = λ a i. r.others a (ground (arith, i)) ∙ ground (arith, i);
        })
