-- ===== src/Decen/Scheduler/Tests.antt =====
-- A task on the lower level and two on the higher one.
use my_lpel.Common.{
  ◌+◌, ℕ, zero, suc, ◌^◌, ◌<◌, ◌≡◌, ◌≢◌, refl, true, false, none, some, List, [], ◌∷◌, arith, ◌==◌,
  if◌then◌else◌, ok, Yields, Ptr, null,
}
use my_lpel.Common.Int.{pos, negsuc}
use my_lpel.Common.Lists.{length}
use my_lpel.Memory.{Heap}
use my_lpel.Decen.Deque.{destroy as destroy_queue, Task, is_loose, init}
use my_lpel.Decen.Deque.Links.{mem, nil, cons}
use my_lpel.Decen.Deque.Queue.{Queued, init-Queued}
use my_lpel.Decen.Scheduler.{
  queue_at, num_prio, SchedCtx, create, destroy, destroy_loop, level, make_ready, fetch_ready,
}
use my_lpel.Decen.Scheduler.Levels.{
  Levels, make_ready-Readied, Readied, Fetched, fetch_ready-Fetched,
}

abbrev memory : Heap Task
memory p =
    if p == 1
    then some (record { prev = null; next = 2 })
    else if p == 2
    then some (record { prev = 1; next = null })
    else if p == 3
    then some (record { prev = null; next = null })
    else if p == 4
    then some (record { prev = null; next = null })
    else none

abbrev tasks : ℕ → List Ptr
tasks zero = 3 ∷ []
tasks (suc zero) = 1 ∷ 2 ∷ []
tasks (suc (suc i)) = []

abbrev sched : SchedCtx
sched zero = record { head = 3; tail = 3; count = 1 }
sched (suc zero) = record { head = 1; tail = 2; count = 2 }
sched (suc (suc i)) = init

sched-Queued : (i : ℕ) → Queued memory (sched i) (tasks i)
sched-Queued zero = record {
  links = cons {n = record { prev = null; next = null }} (omega arith) refl refl refl refl nil;
  head_first = refl;
  tail_last = refl;
  counts = refl;
}
sched-Queued (suc zero) = record {
  links =
      cons {n = record { prev = null; next = 2 }} (omega arith) refl refl refl refl
        (cons {n = record { prev = 1; next = null }} (omega arith) refl refl refl refl nil);
  head_first = refl;
  tail_last = refl;
  counts = refl;
}
sched-Queued (suc (suc i)) = init-Queued memory

tasks-apart : (a i j : ℕ) → mem a (tasks i) ≡ true → i ≢ j → mem a (tasks j) ≡ false
tasks-apart a zero zero m ne = absurd (ne refl)
tasks-apart a zero (suc zero) m ne = ground (arith, m)
tasks-apart a (suc zero) zero m ne = ground (arith, m)
tasks-apart a (suc zero) (suc zero) m ne = absurd (ne refl)
tasks-apart a i (suc (suc j)) m ne = refl
tasks-apart a (suc (suc i)) j m ne = absurd (ground (arith, m))

sched-Levels : Levels memory sched tasks
sched-Levels = record { queued = sched-Queued; apart = tasks-apart }

is_short : (i : ℕ) → length (tasks i) < 2 ^ 32
is_short zero = omega arith
is_short (suc zero) = omega arith
is_short (suc (suc i)) = omega arith

four_is_new : (i : ℕ) → mem 4 (tasks i) ≡ false
four_is_new zero = refl
four_is_new (suc zero) = refl
four_is_new (suc (suc i)) = refl

fetch_ready-Fetched_example : Yields (Fetched 2 tasks) (fetch_ready memory sched)
fetch_ready-Fetched_example = fetch_ready-Fetched memory sched tasks sched-Levels is_short

has_room : (i : ℕ) → i < num_prio → length (tasks i) + 1 < 2 ^ 32
has_room zero h = omega arith
has_room (suc zero) h = omega arith
has_room (suc (suc i)) h = omega arith

make_ready-Readied_example : Yields (Readied tasks 4 (pos 7)) (make_ready memory sched 4 (pos 7))
unfolding is_loose
make_ready-Readied_example =
    make_ready-Readied memory sched tasks 4 (record { prev = null; next = null }) (pos 7)
      sched-Levels (omega arith) refl refl four_is_new has_room

-- a priority outside the levels is the nearest one
clamped : (level (negsuc 4) ≡ 0) × (level (pos 9) ≡ 1)
unfolding level
clamped = (refl, refl)

destroy-created : destroy create ≡ ok tt
unfolding destroy destroy_loop create init queue_at destroy_queue
destroy-created = refl
