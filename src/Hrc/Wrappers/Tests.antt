-- ===== src/Hrc/Wrappers/Tests.antt =====
-- A wrapper from its creation to its end.
use my_lpel.Common.{ℕ, ◌+◌, refl, true, false, List, [], ◌∷◌, arith, Yields, inr, nat_double}
use my_lpel.Common.Int.{pos, negsuc, pos_part}
use my_lpel.Hrc.World.{created, World, StreamType}
use my_lpel.Hrc.Priority.{Settings}
use my_lpel.Hrc.Master.{set_state, destroy}
use my_lpel.Hrc.Threads.{
  Shared, set_context, set_task, set_current, wrapper_receive, task_start, exit, block_stream,
  worker_task_exit, worker_task_block, context_of, task_destroy, add_free_wrapper, get_free_wrapper,
  worker_task_wakeup, unblock, deref, wake_master, to_master, wake_wrapper, to_context, run_task,
  lpel_task_start, create_wrapper_context,
}
use my_lpel.Hrc.System.{wakes, exits, blocks}
use my_lpel.Hrc.Wrappers.{
  Action, moves, start, wake, act, run, Schedule, create, receive, loop_top, run_choice,
  switch_back, loop_end, wrapper_step,
}
use my_lpel.Hrc.Wrappers.Sound.{IsWrapper}
use my_lpel.Hrc.Wrappers.Run.{run-create-IsWrapper}
use my_lpel.PrioQueue.Contract.{heap_queue}

-- priorities are the numbers of records that wait for the task; none is withheld
abbrev settings : Settings ℕ
settings = record {
  prior_cal = λ i o. pos_part i + 1;
  neg_demand_lim = pos 0;
  dbl_max = 1000;
  dbl_min = 0;
}

-- no task has a stream
abbrev bare : World
bare = record {
  stream = λ s. record {
    type = StreamType.middle;
    prod_sd = 0;
    cons_sd = 0;
    read_cnt = pos 0;
    write_cnt = pos 0;
  };
  sd = λ x. record { task = 0; stream = 0 };
  in_streams = λ t. [];
  out_streams = λ t. [];
}

abbrev memory : Shared heap_queue settings
memory = record {
  master = record {
    ready_tasks = record { heap = λ i. 99; count = 1; alloc = 50 };
    waitworkers = λ i. true;
    num_workers = 0;
    terminate = false;
    state = λ t. created;
    wakenup = λ t. false;
    prior = λ t. 0;
    sent = [];
    destroyed = [];
  };
  mastermb = [];
  context =
      λ p. record { wid = negsuc 0; terminate = true; current_task = 7; mailbox = []; next = 0 };
  workers = λ i. 0;
  worker_context = λ t. 0;
  limits = λ t. record { rec_cnt = 0; rec_limit = pos 0; rec_limit_factor = negsuc 0 };
  freewrappers = 0;
}

-- the wrapper 50 gets task 6, which wakes task 8 of the workers, blocks before it is woken, is woken, and ends
abbrev actions : List (Action heap_queue settings)
actions =
    moves bare blocks
    ∷ start
    ∷ moves bare blocks
    ∷ moves bare blocks
    ∷ moves bare blocks
    ∷ moves bare (wakes 8)
    ∷ moves bare blocks
    ∷ wake
    ∷ moves bare blocks
    ∷ moves bare blocks
    ∷ moves bare blocks
    ∷ moves bare blocks
    ∷ moves bare blocks
    ∷ moves bare exits
    ∷ moves bare blocks
    ∷ moves bare blocks
    ∷ []

actions-Schedule :
    Schedule heap_queue settings
      (create heap_queue settings memory 6 (negsuc 0) 50).0
      6
      actions
      (create heap_queue settings memory 6 (negsuc 0) 50).1
unfolding create create_wrapper_context get_free_wrapper set_context set_task set_state act
    wrapper_step loop_top receive wrapper_receive task_start run_choice exit block_stream
    switch_back worker_task_exit worker_task_block context_of loop_end task_destroy destroy
    add_free_wrapper set_current worker_task_wakeup wake_wrapper to_context lpel_task_start run_task
    unblock deref wake_master to_master
actions-Schedule = (
  (tt, λ e. (refl, refl)),
  (
    (refl, refl),
    (
      (tt, λ e. (refl, refl)),
      (
        (tt, λ e. (refl, refl)),
        (
          (tt, λ e. (refl, refl)),
          (
            ((omega arith, refl, (λ e. refl), λ e. absurd (omega (arith, e))), λ e. (refl, refl)),
            (
              (tt, λ e. (refl, refl)),
              (
                (inr refl, refl, refl),
                (
                  (tt, λ e. (refl, refl)),
                  (
                    (tt, λ e. (refl, refl)),
                    (
                      (tt, λ e. (refl, refl)),
                      (
                        (tt, λ e. (refl, refl)),
                        (
                          (tt, λ e. (refl, refl)),
                          (
                            (refl, λ e. (refl, refl)),
                            ((tt, λ e. (refl, refl)), ((tt, λ e. (refl, refl)), tt)),
                          ),
                        ),
                      ),
                    ),
                  ),
                ),
              ),
            ),
          ),
        ),
      ),
    ),
  ),
)

run-create-IsWrapper_example :
    Yields (IsWrapper heap_queue settings (create heap_queue settings memory 6 (negsuc 0) 50).0 6) (
      run heap_queue settings
        (create heap_queue settings memory 6 (negsuc 0) 50).0
        6
        actions
        (create heap_queue settings memory 6 (negsuc 0) 50).1)
run-create-IsWrapper_example =
    run-create-IsWrapper heap_queue settings memory 6 (negsuc 0) 50 actions (omega arith)
      (omega arith) refl (λ ne. absurd (ne refl)) actions-Schedule
