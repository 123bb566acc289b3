-- ===== src/Hrc/StreamLists/Tests.antt =====
-- A task with two streams to read from.
use my_lpel.Common.{◌≡◌, refl, [], ◌∷◌, arith, ◌==◌, if◌then◌else◌, none, some, ◌>>=◌, Yields, Ptr}
use my_lpel.Common.Int.{pos, ◌+ℤ◌}
use my_lpel.Memory.{Heap}
use my_lpel.Memory.Seg.{Cells, nil, cons}
use my_lpel.Hrc.StreamLists.{
  StreamElem, reads, writes, SchedTask, int_of, lower_limit, add_stream, remove_stream,
}
use my_lpel.Hrc.StreamLists.Remove.{
  Listed, Removed, InRange, remove_stream-Removed, remove_stream-add_stream,
}

abbrev elems : Heap StreamElem
elems p =
    if p == 10
    then some (record { stream_desc = 7; next = 20 })
    else if p == 20
    then some (record { stream_desc = 8; next = 0 })
    else none

abbrev sched : SchedTask
sched = record { rec_limit = pos 4; rec_limit_factor = pos 2; in_streams = 10; out_streams = 0 }

abbrev cells : Cells Ptr
cells = (10, 7) ∷ (20, 8) ∷ []

elems-Listed : Listed elems sched reads cells
elems-Listed =
    cons (record { node = _; ne_null = omega arith; holds = refl; value = refl; leads = refl }) refl
      (cons (record { node = _; ne_null = omega arith; holds = refl; value = refl; leads = refl })
        refl nil)

remove_stream-Removed_example :
    Yields (Removed 20 ((10, 7) ∷ []) reads sched) (remove_stream 3 elems sched 8 reads)
unfolding lower_limit
remove_stream-Removed_example =
    remove_stream-Removed elems sched sched reads 20 8 [] refl ((10, 7) ∷ []) 3 elems-Listed refl
      (omega arith)

sched-InRange : InRange sched
unfolding int_of ◌+ℤ◌
sched-InRange = record { now = refl; next = refl }

remove_stream-add_stream_example :
    Yields
      (λ (g, u). (Listed g u writes []) × (g 30 ≡ none) × (u.rec_limit ≡ pos 4))
      (add_stream elems sched 9 writes 30 >>= λ (g, u). remove_stream 1 g u 9 writes)
remove_stream-add_stream_example =
    remove_stream-add_stream elems sched writes 9 30 [] 0 nil refl (omega arith) sched-InRange
