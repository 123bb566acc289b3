-- ===== src/Hrc/Threads/Tests.antt =====
-- A task that has used up its limit of three records.
use my_lpel.Common.{ℕ, ◌+◌, refl, true, false, [], arith, Yields, nat_double}
use my_lpel.Common.Int.{pos, negsuc, pos_part}
use my_lpel.Hrc.World.{running}
use my_lpel.Hrc.Priority.{Settings}
use my_lpel.Hrc.Threads.{Shared, check_yield}
use my_lpel.Hrc.Threads.Pace.{Checked, IsPaced, check_yield-Checked}
use my_lpel.PrioQueue.Contract.{heap_queue}

-- priorities are the numbers of records that wait for the task; none is withheld
abbrev settings : Settings ℕ
settings = record {
  prior_cal = λ i o. pos_part i + 1;
  neg_demand_lim = pos 0;
  dbl_max = 1000;
  dbl_min = 0;
}

abbrev memory : Shared heap_queue settings
memory = record {
  master = record {
    ready_tasks = record { heap = λ i. 99; count = 1; alloc = 50 };
    waitworkers = λ i. true;
    num_workers = 0;
    terminate = false;
    state = λ t. running;
    wakenup = λ t. false;
    prior = λ t. 0;
    sent = [];
    destroyed = [];
  };
  mastermb = [];
  context = λ p. record { wid = pos 1; terminate = true; current_task = 7; mailbox = []; next = 0 };
  workers = λ i. 0;
  worker_context = λ t. 100;
  limits = λ t. record { rec_cnt = 3; rec_limit = pos 3; rec_limit_factor = negsuc 0 };
  freewrappers = 0;
}

memory-IsPaced : IsPaced heap_queue settings memory 6 1
memory-IsPaced = record {
  runs = refl;
  hosted = omega arith;
  wid = refl;
  within = λ l e. ground arith;
  small = λ l e. ground arith;
}

check_yield-Checked_example :
    Yields (Checked heap_queue settings memory 6 1) (check_yield heap_queue settings memory 6)
check_yield-Checked_example = check_yield-Checked heap_queue settings memory 6 1 memory-IsPaced
