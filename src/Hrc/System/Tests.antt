-- ===== src/Hrc/System/Tests.antt =====
-- A run of the threads over the heap: a task is started, runs on a worker, and blocks.
use my_lpel.Common.{
  ℕ, ◌+◌, refl, true, false, List, [], ◌∷◌, arith, Yields, Ptr, Res, ok, fault, ◌≡◌,
}
use my_lpel.Common.Int.{pos, negsuc}
use my_lpel.Hrc.World.{World, created}
use my_lpel.Hrc.Priority.{Settings, cal_priority}
use my_lpel.Hrc.Master.{
  set_state, set_prior, handle, return_as, on_wakeup, on_assign, return_ready, on_request,
}
use my_lpel.Hrc.Threads.{
  Shared, set_context, set_task, set_current, request_task, return_task, to_master, to_context,
  task_start, block_stream, unblock, deref, context_of, worker_task_wakeup, wake_master,
  worker_task_block, worker_back, worker_receive, run_task, lpel_task_start, init_loop,
  workers_init,
}
use my_lpel.Hrc.System.{
  exits, blocks, wakes, moved, worker_step, run_choice, switch_back, receive, deliver, master_step,
  start_step, read_task, Action, worker, master, start, act, run, Schedule, initial, System,
}
use my_lpel.Hrc.System.Init.{IsFresh}
use my_lpel.Hrc.System.Reach.{Exclusive, IsQuiet, IsSettled, run-Exclusive, run-IsSettled}
use my_lpel.Common.Int.{pos_part}
use my_lpel.Common.{nat_double}
use my_lpel.Hrc.World.{StreamType}
use my_lpel.Hrc.Master.{
  serve_pending, serve_loop, send_task, keep_waiting, update_neigh, update_list,
}
use my_lpel.PrioQueue.{Taskqueue, peek, size}
use my_lpel.PrioQueue.Contract.{heap_queue}

-- priorities are the numbers of records that wait for the task; none is withheld
abbrev settings : Settings ℕ
settings = record {
  prior_cal = λ i o. pos_part i + 1;
  neg_demand_lim = pos 0;
  dbl_max = 1000;
  dbl_min = 0;
}

-- no task has a stream
abbrev bare : World
bare = record {
  stream = λ s. record {
    type = StreamType.middle;
    prod_sd = 0;
    cons_sd = 0;
    read_cnt = pos 0;
    write_cnt = pos 0;
  };
  sd = λ x. record { task = 0; stream = 0 };
  in_streams = λ t. [];
  out_streams = λ t. [];
}

-- worker `i` has its context at 100 + i
abbrev memory : Shared heap_queue settings
memory = record {
  master = record {
    ready_tasks = record { heap = λ i. 99; count = 1; alloc = 50 };
    waitworkers = λ i. true;
    num_workers = 0;
    terminate = false;
    state = λ t. created;
    wakenup = λ t. false;
    prior = λ t. 0;
    sent = [];
    destroyed = [];
  };
  mastermb = [];
  context =
      λ p. record { wid = negsuc 0; terminate = true; current_task = 7; mailbox = []; next = 0 };
  workers = λ i. 0;
  worker_context = λ t. 0;
  limits = λ t. record { rec_cnt = 0; rec_limit = pos 0; rec_limit_factor = negsuc 0 };
  freewrappers = 0;
}

abbrev empty_queue : Taskqueue
empty_queue = record { heap = λ i. 99; count = 1; alloc = 50 }

abbrev table : ℕ → Ptr
table i = 100 + i

abbrev actions : List (Action heap_queue settings)
actions =
    worker 0 exits
    ∷ worker 1 exits
    ∷ start 6
    ∷ master bare
    ∷ master bare
    ∷ master bare
    ∷ worker 0 exits
    ∷ worker 0 exits
    ∷ worker 0 (wakes 6)
    ∷ worker 0 blocks
    ∷ worker 0 exits
    ∷ worker 0 exits
    ∷ master bare
    ∷ master bare
    ∷ master bare
    ∷ []

memory-IsFresh : IsFresh heap_queue settings 2 empty_queue table memory
unfolding size
memory-IsFresh = record {
  valid = record {
    ordered = λ c p q. absurd (omega arith);
    started = omega arith;
    fits = omega arith;
    small = omega arith;
    mapped = omega arith;
  };
  empty = refl;
  state = λ t. refl;
  sent = refl;
  destroyed = refl;
  worker_context = λ t. refl;
  apart = λ i j p q e. omega (arith, e);
  nonnull = λ i p. omega arith;
}

actions-Schedule :
    Schedule heap_queue settings actions (initial heap_queue settings 2 empty_queue table memory)
unfolding initial workers_init init_loop set_context act worker_step request_task to_master moved
    start_step lpel_task_start run_task master_step handle on_request on_assign serve_pending
    serve_loop send_task set_state set_prior deliver to_context receive worker_receive set_current
    task_start set_task run_choice unblock worker_task_wakeup wake_master block_stream switch_back
    worker_task_block context_of worker_back return_task return_as update_neigh update_list
    keep_waiting peek size on_wakeup return_ready cal_priority read_task deref
actions-Schedule = (
  (omega arith, tt),
  (
    (omega arith, tt),
    (
      (omega arith, refl),
      (
        (omega arith, tt),
        (
          (omega arith, tt),
          (
            (omega arith, tt),
            (
              (omega arith, tt),
              (
                (omega arith, tt),
                (
                  (omega arith, (omega arith, refl)),
                  (
                    (omega arith, tt),
                    (
                      (omega arith, tt),
                      (
                        (omega arith, tt),
                        (
                          (omega arith, refl),
                          ((omega arith, tt), ((omega arith, λ e. (refl, refl)), tt)),
                        ),
                      ),
                    ),
                  ),
                ),
              ),
            ),
          ),
        ),
      ),
    ),
  ),
)

run-Exclusive_example :
    Yields
      (Exclusive heap_queue settings)
      (run heap_queue settings actions (initial heap_queue settings 2 empty_queue table memory))
run-Exclusive_example =
    run-Exclusive heap_queue settings 2 empty_queue table memory actions memory-IsFresh
      actions-Schedule

-- The same, and the woken task runs again and blocks: in the end nobody but a thread from outside can
-- move.
abbrev quiet_actions : List (Action heap_queue settings)
quiet_actions =
    worker 0 exits
    ∷ worker 1 exits
    ∷ start 6
    ∷ master bare
    ∷ master bare
    ∷ master bare
    ∷ worker 0 exits
    ∷ worker 0 exits
    ∷ worker 0 (wakes 6)
    ∷ worker 0 blocks
    ∷ worker 0 exits
    ∷ worker 0 exits
    ∷ master bare
    ∷ master bare
    ∷ master bare
    ∷ worker 0 exits
    ∷ worker 0 exits
    ∷ worker 0 blocks
    ∷ worker 0 exits
    ∷ worker 0 exits
    ∷ master bare
    ∷ master bare
    ∷ []

quiet_actions-Schedule :
    Schedule heap_queue settings quiet_actions
      (initial heap_queue settings 2 empty_queue table memory)
unfolding initial workers_init init_loop set_context act worker_step request_task to_master moved
    start_step lpel_task_start run_task master_step handle on_request on_assign serve_pending
    serve_loop send_task set_state set_prior deliver to_context receive worker_receive set_current
    task_start set_task run_choice unblock worker_task_wakeup wake_master block_stream switch_back
    worker_task_block context_of worker_back return_task return_as update_neigh update_list
    keep_waiting peek size on_wakeup return_ready cal_priority read_task deref
quiet_actions-Schedule = (
  (omega arith, tt),
  (
    (omega arith, tt),
    (
      (omega arith, refl),
      (
        (omega arith, tt),
        (
          (omega arith, tt),
          (
            (omega arith, tt),
            (
              (omega arith, tt),
              (
                (omega arith, tt),
                (
                  (omega arith, (omega arith, refl)),
                  (
                    (omega arith, tt),
                    (
                      (omega arith, tt),
                      (
                        (omega arith, tt),
                        (
                          (omega arith, refl),
                          (
                            (omega arith, tt),
                            (
                              (omega arith, λ e. (refl, refl)),
                              (
                                (omega arith, tt),
                                (
                                  (omega arith, tt),
                                  (
                                    (omega arith, tt),
                                    (
                                      (omega arith, tt),
                                      (
                                        (omega arith, tt),
                                        ((omega arith, tt), ((omega arith, λ e. (refl, refl)), tt)),
                                      ),
                                    ),
                                  ),
                                ),
                              ),
                            ),
                          ),
                        ),
                      ),
                    ),
                  ),
                ),
              ),
            ),
          ),
        ),
      ),
    ),
  ),
)

abbrev result : Res (System heap_queue settings) → System heap_queue settings
result (ok r) = r
result (fault e) = initial heap_queue settings 2 empty_queue table memory

abbrev quiet_end : System heap_queue settings
quiet_end =
    result (
      run heap_queue settings quiet_actions
        (initial heap_queue settings 2 empty_queue table memory))

quiet_run :
    run heap_queue settings quiet_actions (initial heap_queue settings 2 empty_queue table memory)
    ≡ ok quiet_end
unfolding run initial workers_init init_loop set_context act worker_step request_task to_master
    moved start_step lpel_task_start run_task master_step handle on_request on_assign serve_pending
    serve_loop send_task set_state set_prior deliver to_context receive worker_receive set_current
    task_start set_task run_choice unblock worker_task_wakeup wake_master block_stream switch_back
    worker_task_block context_of worker_back return_task return_as update_neigh update_list
    keep_waiting peek size on_wakeup return_ready cal_priority read_task deref
quiet_run = refl

quiet_end-IsQuiet : IsQuiet heap_queue settings quiet_end
unfolding run initial workers_init init_loop set_context act worker_step request_task to_master
    moved start_step lpel_task_start run_task master_step handle on_request on_assign serve_pending
    serve_loop send_task set_state set_prior deliver to_context receive worker_receive set_current
    task_start set_task run_choice unblock worker_task_wakeup wake_master block_stream switch_back
    worker_task_block context_of worker_back return_task return_as update_neigh update_list
    keep_waiting peek size on_wakeup return_ready cal_priority read_task deref
quiet_end-IsQuiet = record {
  mastermb = refl;
  phase = λ i p. ground arith;
  mailbox = λ i p. ground arith;
}

run-IsSettled_example : IsSettled heap_queue settings quiet_end
run-IsSettled_example =
    run-IsSettled heap_queue settings 2 empty_queue table memory quiet_actions quiet_end
      memory-IsFresh quiet_actions-Schedule quiet_run quiet_end-IsQuiet
