-- ===== src/Hrc/World.antt =====
-- What sched/hierarchy/hrc_task.h and hrc_stream.h keep of tasks, streams and stream descriptors,
-- as far as scheduling reads it. A pointer is a number and a memory is a function.
use my_lpel.Common.{◌≡◌, Bool, true, false, List, [], ◌∷◌, arith, Ptr}
use my_lpel.Common.Int.{ℤ}

-- `lpel_taskstate_t`, with the two states that hrc_lpel.h adds
pub data TaskState : Type 0 where
  created running ready blocked mutex zombie inqueue returned : TaskState

abbrev pub is_inqueue : TaskState → Bool
is_inqueue TaskState.inqueue = true
is_inqueue _ = false

abbrev pub is_ready : TaskState → Bool
is_ready TaskState.ready = true
is_ready _ = false

abbrev pub is_created : TaskState → Bool
is_created TaskState.created = true
is_created _ = false

abbrev pub is_returned : TaskState → Bool
is_returned TaskState.returned = true
is_returned _ = false

abbrev pub is_zombie : TaskState → Bool
is_zombie TaskState.zombie = true
is_zombie _ = false

abbrev pub is_blocked : TaskState → Bool
is_blocked TaskState.blocked = true
is_blocked _ = false

abbrev pub is_running : TaskState → Bool
is_running TaskState.running = true
is_running _ = false

abbrev pub is_empty : List Ptr → Bool
is_empty [] = true
is_empty (x ∷ l) = false

-- `lpel_stream_type`
pub data StreamType : Type 0 where
  entry exit middle : StreamType

pub record Stream : Type 0 where
  pub type : StreamType
  pub prod_sd : Ptr
  pub cons_sd : Ptr
  pub read_cnt : ℤ
  pub write_cnt : ℤ

pub record StreamDesc : Type 0 where
  pub task : Ptr
  pub stream : Ptr

-- `in_streams` and `out_streams` are the two lists of `sched_task_t`, without their list nodes
pub record World : Type 0 where
  pub stream : Ptr → Stream
  pub sd : Ptr → StreamDesc
  pub in_streams : Ptr → List Ptr
  pub out_streams : Ptr → List Ptr

-- A state that passes the test is RETURNED.
pub returned_of : (s : TaskState) → is_returned s ≡ true → s ≡ TaskState.returned
returned_of s h = ground arith
