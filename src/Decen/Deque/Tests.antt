-- ===== src/Decen/Deque/Tests.antt =====
-- A queue of two tasks.
use my_lpel.Common.{refl, none, some, [], ◌∷◌, arith, ◌==◌, if◌then◌else◌, Yields, null}
use my_lpel.Memory.{Heap}
use my_lpel.Decen.Deque.{Task, Deque, pop}
use my_lpel.Decen.Deque.Links.{nil, cons}
use my_lpel.Decen.Deque.Queue.{Queued, Dequeued, pop-Dequeued}

abbrev memory : Heap Task
memory p =
    if p == 1
    then some (record { prev = null; next = 2 })
    else if p == 2
    then some (record { prev = 1; next = null })
    else if p == 3
    then some (record { prev = null; next = null })
    else none

abbrev deque : Deque
deque = record { head = 1; tail = 2; count = 2 }

memory-Queued : Queued memory deque (1 ∷ 2 ∷ [])
memory-Queued = record {
  links =
      cons {n = record { prev = null; next = 2 }} (omega arith) refl refl refl refl
        (cons {n = record { prev = 1; next = null }} (omega arith) refl refl refl refl nil);
  head_first = refl;
  tail_last = refl;
  counts = refl;
}

pop-Dequeued_example : Yields (Dequeued memory (1 ∷ 2 ∷ [])) (pop memory deque)
pop-Dequeued_example = pop-Dequeued memory deque (1 ∷ 2 ∷ []) memory-Queued (omega arith)
