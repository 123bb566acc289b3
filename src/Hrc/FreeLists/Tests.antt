-- ===== src/Hrc/FreeLists/Tests.antt =====
-- A list of three descriptors, of which the second is not used.
use my_lpel.Common.{refl, [], ◌∷◌, arith, ◌==◌, if◌then◌else◌, none, some, Yields, Ptr}
use my_lpel.Memory.{Heap}
use my_lpel.Memory.Seg.{Cells, nil, cons}
use my_lpel.Hrc.FreeLists.{Spare, get_sd, destroy_sd}
use my_lpel.Hrc.FreeLists.Take.{Kept, Taken, get_sd-Taken}
use my_lpel.Hrc.FreeLists.Destroy.{Gone, destroy_sd-Gone}

abbrev spares : Heap Spare
spares p =
    if p == 10
    then some (record { first = 1; second = 2; next = 20 })
    else if p == 20
    then some (record { first = 0; second = 0; next = 30 })
    else if p == 30
    then some (record { first = 0; second = 4; next = 0 })
    else if p == 40
    then some (record { first = 0; second = 0; next = 99 })
    else none

abbrev cells : Cells (Ptr × Ptr)
cells = (10, (1, 2)) ∷ (20, (0, 0)) ∷ (30, (0, 4)) ∷ []

spares-Kept : Kept spares 10 cells
spares-Kept =
    cons (record { node = _; ne_null = omega arith; holds = refl; value = refl; leads = refl }) refl
      (cons (record { node = _; ne_null = omega arith; holds = refl; value = refl; leads = refl })
        refl
        (cons (record { node = _; ne_null = omega arith; holds = refl; value = refl; leads = refl })
          refl nil))

get_sd-Taken_example :
    Yields (Taken 20 (0, 0) ((10, (1, 2)) ∷ (30, (0, 4)) ∷ [])) (get_sd 3 spares 10)
get_sd-Taken_example =
    get_sd-Taken spares 10 20 (0, 0) ((10, (1, 2)) ∷ []) ((30, (0, 4)) ∷ []) 3 spares-Kept refl refl
      (omega arith)

destroy_sd-Gone_example : Yields (Gone spares cells) (destroy_sd 4 spares 10)
destroy_sd-Gone_example = destroy_sd-Gone 4 spares 10 cells spares-Kept (omega arith)
