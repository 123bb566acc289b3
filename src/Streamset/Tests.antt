-- ===== src/Streamset/Tests.antt =====
-- A set of three descriptors, of which two are removed on the way, and one that joins it.
use my_lpel.Common.{
  refl, [], ◌∷◌, arith, ◌==◌, not, if◌then◌else◌, none, some, Yields, Ptr, null, ◌≡◌, ok, Bool,
}
use my_lpel.Memory.{Heap}
use my_lpel.Memory.Seg.{Cells, nil, cons}
use my_lpel.Streamset.{
  remove, iter_append, Member, seek, is_empty, iter_create, iter_reset, has_next,
}
use my_lpel.Streamset.Ring.{SetOf, filled}
use my_lpel.Streamset.Between.{Current, first}
use my_lpel.Streamset.Remove.{Found, remove-Found}
use my_lpel.Streamset.Append.{Appended, append-Current}
use my_lpel.Streamset.Iterate.{Visited, visit, visit-Visited}

abbrev descriptors : Heap Member
descriptors p =
    if p == 10
    then some (record { stream = 1; next = 20 })
    else if p == 20
    then some (record { stream = 2; next = 30 })
    else if p == 30
    then some (record { stream = 3; next = 10 })
    else if p == 40
    then some (record { stream = 4; next = 77 })
    else none

abbrev members : Cells Ptr
members = (10, 1) ∷ (20, 2) ∷ (30, 3) ∷ []

members-SetOf : SetOf descriptors 30 members
members-SetOf =
    filled
      (cons (record { node = _; ne_null = omega arith; holds = refl; value = refl; leads = refl })
        refl
        (cons (record { node = _; ne_null = omega arith; holds = refl; value = refl; leads = refl })
          refl nil))
      (record { node = _; ne_null = omega arith; holds = refl; value = refl; leads = refl }) refl
      refl

visit-Visited_example :
    Yields
      (Visited (λ p. not (p == 20)) [] members)
      (visit 4 (λ p. not (p == 20)) descriptors 30 (iter_reset 30))
visit-Visited_example =
    visit-Visited descriptors 30 members 4 (λ p. not (p == 20)) members-SetOf (omega arith)

-- the first descriptor is found behind the handle, and an empty set has none
seek-first : seek 3 descriptors 30 10 30 ≡ ok (30, 10)
unfolding seek my_lpel.Memory.load
seek-first = refl

empty_set :
    (is_empty null ≡ Bool.true)
    × (has_next null (iter_create (some null) (iter_reset 5)) ≡ Bool.false)
unfolding is_empty has_next iter_create
empty_set = (refl, refl)

remove-Found_example :
    Yields (Found Bool.true ((10, 1) ∷ (20, 2) ∷ [])) (remove 4 descriptors 30 30)
remove-Found_example =
    remove-Found descriptors 30 members 30 4 members-SetOf (omega arith) (omega arith)

-- the iterator stands at the first descriptor
at_first : Current descriptors 30 (record { cur = 10; prev = 30 }) [] 10 1 ((20, 2) ∷ (30, 3) ∷ [])
at_first =
    first {l = 30} {u = 3} {q = 20} {ys = (20, 2) ∷ []} refl refl refl
      (record { node = _; ne_null = omega arith; holds = refl; value = refl; leads = refl })
      (record { node = _; ne_null = omega arith; holds = refl; value = refl; leads = refl })
      (cons (record { node = _; ne_null = omega arith; holds = refl; value = refl; leads = refl })
        refl nil)
      refl refl refl refl

append-Current_example :
    Yields
      (Appended [] 10 1 ((20, 2) ∷ (30, 3) ∷ (40, 4) ∷ []))
      (iter_append descriptors 30 (record { cur = 10; prev = 30 }) 40)
append-Current_example =
    append-Current (record { cur = 10; prev = 30 }) 40 (record { stream = 4; next = 77 }) at_first
      (omega arith) refl refl refl
