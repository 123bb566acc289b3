-- ===== src/Hrc/Master/Tests.antt =====
-- Runs of the master over the heap, and the theorems at them.
use my_lpel.Common.{
  ℕ, ◌+◌, ◌<◌, ◌≡◌, refl, true, false, List, [], ◌∷◌, arith, ◌==◌, if◌then◌else◌, Res, ok, ◌>>=◌,
  Yields, occurs, Ptr,
}
use my_lpel.ReadyQueue.{capacity}
use my_lpel.Hrc.World.{created, blocked, zombie, returned, World}
use my_lpel.Hrc.Priority.{Settings, cal_priority}
use my_lpel.Hrc.Master.{
  terminate, wakeup, assign, request, return, Master, set_state, set_prior, send_task, serve_loop,
  serve_pending, enqueue, same_double, on_assign, return_as, on_request, handle, master_loop, Event,
  apply_writes,
}
use my_lpel.Hrc.Master.Invariant.{Inv}
use my_lpel.Hrc.Master.Neighbours.{Refreshed, is_neighbour}
use my_lpel.Hrc.Master.Return.{return_blocked-Refreshed}
use my_lpel.Hrc.Master.Request.{Answered, on_request-Answered}
use my_lpel.Hrc.Master.Steps.{stop, wake, new, Stepped, handle-Stepped}
use my_lpel.Hrc.Master.Wakeup.{Woken, wakeup_not_lost}
use my_lpel.Hrc.Master.Loop.{Looped, master_loop-Looped}
use my_lpel.Hrc.Master.Busy.{IsBusy, handle-IsBusy}
use my_lpel.Common.Int.{pos, pos_part}
use my_lpel.Common.{nat_double}
use my_lpel.Hrc.World.{StreamType}
use my_lpel.PrioQueue.{push, pop, peek, size}
use my_lpel.PrioQueue.Contract.{heap_queue}

-- priorities are the numbers of records that wait for the task; none is withheld
abbrev settings : Settings ℕ
settings = record {
  prior_cal = λ i o. pos_part i + 1;
  neg_demand_lim = pos 0;
  dbl_max = 1000;
  dbl_min = 0;
}

-- no task has a stream
abbrev bare : World
bare = record {
  stream = λ s. record {
    type = StreamType.middle;
    prod_sd = 0;
    cons_sd = 0;
    read_cnt = pos 0;
    write_cnt = pos 0;
  };
  sd = λ x. record { task = 0; stream = 0 };
  in_streams = λ t. [];
  out_streams = λ t. [];
}

-- two workers, none waiting; task 5 is blocked, 6 new, 7 waits for a wake-up, 8 has ended
abbrev start : Master heap_queue settings
start = record {
  ready_tasks = record { heap = λ i. 99; count = 1; alloc = 50 };
  waitworkers = λ i. false;
  num_workers = 2;
  terminate = false;
  state = λ t.
      if t == 5 then blocked else if t == 6 then created else if t == 7 then returned else zombie;
  wakenup = λ t. false;
  prior = λ t. 0;
  sent = [];
  destroyed = [];
}

start-Inv : Inv heap_queue settings start
unfolding occurs
start-Inv = record {
  valid = record {
    ordered = λ c p q. absurd (omega arith);
    started = omega arith;
    fits = omega arith;
    small = omega arith;
    mapped = omega arith;
  };
  queued = λ t. ground arith;
  null_out = refl;
}

start-IsBusy : IsBusy heap_queue settings start
unfolding size
start-IsBusy i p h = refl

start_room : size start.ready_tasks < capacity
unfolding size
start_room = omega arith

handle-Stepped_example :
    Yields (Stepped heap_queue settings start) (handle heap_queue settings bare start (assign 6))
handle-Stepped_example =
    handle-Stepped heap_queue settings bare start start-Inv start_room (assign 6)
      (new 6 (omega arith) refl)

fit : (t : Ptr) → same_double heap_queue settings (cal_priority settings bare t) 0 ≡ false
unfolding cal_priority
fit t = refl

handle-IsBusy_example :
    Yields (IsBusy heap_queue settings) (handle heap_queue settings bare start (wakeup 7))
unfolding occurs
handle-IsBusy_example =
    handle-IsBusy heap_queue settings bare start start-Inv start_room start-IsBusy fit
      (λ t h. absurd (omega arith)) (wakeup 7) (wake 7 (omega arith))

wakeup_not_lost_example :
    Yields (Woken heap_queue settings start 5) (
      handle heap_queue settings bare start (return 5) >>= λ r.
      handle heap_queue settings bare r (wakeup 5))
    × Yields (Woken heap_queue settings start 5) (
        handle heap_queue settings bare start (wakeup 5) >>= λ r.
        handle heap_queue settings bare r (return 5))
wakeup_not_lost_example =
    wakeup_not_lost heap_queue settings bare bare start 5 start-Inv (omega arith) start_room refl
      refl

on_request-Answered_example :
    Yields (Answered heap_queue settings start 1) (on_request heap_queue settings start 1)
on_request-Answered_example =
    on_request-Answered heap_queue settings start 1 start-Inv (omega arith)

return_blocked-Refreshed_example :
    Yields
      (Refreshed heap_queue settings bare
        (is_neighbour bare 5)
        (set_state heap_queue settings start 5 returned))
      (return_as heap_queue settings bare start 5 blocked)
return_blocked-Refreshed_example =
    return_blocked-Refreshed heap_queue settings bare start 5 start-Inv refl refl

-- a task that is created, asked for by a worker, and the end of the master
abbrev events : List Event
events = record { world = bare; writes = []; msg = terminate } ∷ []

master_loop-Looped_example :
    Yields (Looped heap_queue settings true) (master_loop heap_queue settings events start)
unfolding apply_writes
master_loop-Looped_example =
    master_loop-Looped heap_queue settings events start start-Inv (tt, start_room, stop, λ r e. tt)
      refl

-- a new task is queued, and the worker that asks for one gets it
abbrev served : Res (List (ℕ × Ptr))
served = do
  a ← handle heap_queue settings bare start (assign 6)
  b ← handle heap_queue settings bare a (request 1)
  ok b.sent

served_result : served ≡ ok ((1, 6) ∷ [])
unfolding handle on_assign on_request serve_pending serve_loop enqueue send_task set_state set_prior
    push pop peek
served_result = refl
