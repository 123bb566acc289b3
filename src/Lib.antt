-- ===== src/Lib.antt =====
-- LPEL, the light-weight parallel execution layer: tasks that exchange records over streams run on
-- a few worker threads. Two schedulers share one interface, chosen at build time: src/sched/hierarchy,
-- where a master hands tasks to workers that ask for them, and src/sched/decentralised, where every
-- worker schedules its own tasks.
--
-- Common: numbers, tests, results of C calls (Outcome), arrays as functions of the index (Arrays),
-- C doubles read through their order (Values) and C ints as integers (Int).
--
-- ReadyQueue: what the master relies on in the ready queue, as a record of operations and laws.
--
-- PrioQueue (src/sched/hierarchy/hrc_taskqueue.c): the binary max-heap of task pointers. The struct
-- is the record Taskqueue; an index outside the allocated array is a fault, `count` and `alloc` wrap
-- at 2^32, and an int index that reaches 2^31 is a fault. upHeap is up_heap, downHeap down_heap,
-- searchItem search_item, and LpelTaskqueueX the function x. The loops run on fuel: upHeap halves its
-- index, so the index plus one is enough; downHeap and searchItem raise theirs, so the count is.
-- PrioQueue.Contract is the heap as a ReadyQueue. The priorities of the tasks are a
-- function from tasks to doubles, since a task is shared by pointer. What malloc and realloc return
-- holds arbitrary entries; both are taken to succeed.
--
-- Hrc.World and Hrc.Priority (src/sched/hierarchy/hrc_task.c, hrc_stream.c): the fields of tasks,
-- streams and stream descriptors that scheduling reads, and the priority of a task from the fill
-- levels of its streams. The chosen priority function is a field of Settings. count_int is countRec in
-- C ints, whose overflow is a fault; count_rec and cal_priority, which the master calls, are the values
-- when no int overflows.
--
-- Hrc.TaskPriority (src/sched/hierarchy/taskpriority.c): the priority functions, over the record Arith
-- of double arithmetic, and the choice between them. What they need of rounding is the record
-- IsRounded. `rand` is a parameter.
--
-- Hrc.Master (src/sched/hierarchy/hrc_worker_op.c): MasterLoop. Each case of its switch is a function,
-- on_assign, return_as, on_wakeup and on_request, and handle is the switch. The record Master is
-- masterctx_t with the fields of the tasks that the master writes. Messages to workers are collected
-- in `sent`. The master reads streams and task states that other threads write, so each arriving
-- message carries the streams and the state writes since the last one (Event). The demand limit
-- _USE_NEG_DEMAND_LIMIT_ is on, as hrc_task.h sets it.
--
-- Memory: a heap of structs by address, with Memory.Seg for linked lists in it; address 0 is NULL.
--
-- Mailbox (src/mailbox.c): the messages of a worker, as a circular list whose handle is its last node,
-- and the pool of free nodes. LpelMailboxX is the function x; Recv is `none` where it waits on the
-- condition variable. Each operation runs under its lock, so that an interleaving of calls is a
-- sequence of them (Mailbox.Fifo.Trace). What malloc returns is an address that holds nothing, an
-- argument of send. LpelMailboxDestroy frees the nodes of the pool and the mailbox itself, which
-- stands on a heap of its own; its loop runs on fuel, one more than the pool has nodes.
--
-- Hrc.Threads (src/sched/hierarchy/hrc_worker_op.c, hrc_task.c, hrc_worker.h): what workers, wrappers
-- and running tasks do to the states of the tasks, to their own contexts and to the mailboxes. The
-- record Context is workerctx_t, whose mailbox is the list of its messages, as Mailbox.Fifo.Trace
-- shows it; Shared is all that the threads share. LpelWorkerTaskX is worker_task_x, LpelTaskStart
-- lpel_task_start, TaskStart task_start, requestTask request_task, and so on. A call is cut where it
-- switches to another stack: worker_receive and wrapper_receive reach from a message to the switch,
-- worker_back goes on after it, and checked_yield is the second half of check_yield. `rec_cnt` starts
-- at 0 and passing 2^31 - 1 is a fault. The contexts' addresses are those malloc returns. A task that LpelTaskDestroy has freed is in the
-- list `destroyed` of the master, and reading such a task (deref) is a fault.
--
-- Hrc.System: the master, the workers and their tasks as one transition system. A Schedule is a list
-- of Actions, each the next step of a worker with the task on it, of the master, or of a thread
-- outside that starts a task or terminates; Phase says where a worker is, and Choice what its task
-- does next. The streams the master reads are given with each of its steps. A schedule is permitted
-- while workers exist, the tasks that are woken are not NULL and not freed, each wake-up is handled
-- before its task is freed, a task is started once and ends with its streams closed, and the ready queue
-- has room for one more task. The master's read of a task that a message names is a fault if the task
-- was freed (read_task). A running task finds itself as the current task of its worker (task_self).
-- `started` and `woken` in the record System are history that no step reads: for which tasks
-- LpelTaskStart was called, and LpelTaskUnblock since they last started to run.
-- The address of a freed task is not used again. Hrc.System.Sound is the invariant, and the files beside
-- it one step each.
--
-- Hrc.Wrappers: a wrapper thread with its one task, from LpelTaskCreate to addFreeWrapper, on the same
-- calls of Hrc.Threads. May is what the task may do: it can wake itself, other tasks that have another
-- context or none, and no task that is NULL or was freed.
--
-- Hrc.StreamLists (src/sched/hierarchy/hrc_task.c): LpelTaskAddStream and LpelTaskRemoveStream, on a
-- heap of list elements; `rec_limit` is a C int whose overflow is a fault. Hrc.FreeLists
-- (src/sched/hierarchy/hrc_worker_op.c): the free lists of stream descriptors and streams. Both search
-- a list with a trailing pointer (Memory.Unlink) on fuel, for which the length of the list and one is
-- enough.
--
-- Streamset (src/streamset.c): sets of stream descriptors, circular lists whose handle points to the
-- last one, and their iterators. LpelStreamsetX is the function x and LpelStreamIterX iter_x; the
-- handle is an argument, and what it is set to a part of the result. The loop of
-- LpelStreamsetRemove runs on fuel.
--
-- Hrc.Buffer (src/sched/hierarchy/hrc_buffer.c): the items of a stream, a linked list whose first
-- entry is spent; LpelBufferX is the function x. ItemBuffer is what a stream relies on in its buffer,
-- as a record of operations and laws; Hrc.Buffer.Contract is the one of this buffer, with an
-- allocator that hands out addresses in order as an instance of malloc.
--
-- Hrc.Streams (src/sched/hierarchy/hrc_stream.c): LpelStreamRead and LpelStreamWrite of one stream, as
-- the steps read_step and write_step between which the other task may run. Reading and Writing say
-- where the two tasks are; LpelTaskBlockStream is the state `blocked`, which a task leaves when a
-- wake-up was sent for it, as Hrc.Master hands a woken task back. The semaphores are C ints that wrap, as the atomic builtins do; read_cnt and write_cnt are counted
-- with ++, which is a fault at 2^31 - 1 (count_up).
-- The mode of a descriptor is which of the two steps is taken. Poll is not modelled, but Write takes
-- its token; the yield after a write does not touch the stream.
--
-- Timing (src/timing.c): times as seconds and nanoseconds; LpelTimingX is the function x. A result
-- outside 64 bits is a fault. The clock is an argument. The conversions to double are not modelled.
--
-- Decen.Ring (src/sched/decentralised/decen_buffer.c): the circular buffer, whose indices wrap at 2^64;
-- an index outside the array is a fault. LpelBufferX is the function x.
--
-- Decen.Deque (src/sched/decentralised/decen_taskqueue.c): the doubly linked queue of tasks on a heap.
-- LpelTaskqueueX is the function x; the count wraps at 2^32. LpelTaskqueueDestroy only asserts that the
-- queue is empty. IterateRemove is not modelled.
--
-- Decen.Scheduler (src/sched/decentralised/decen_scheduler.c): one such queue for each priority.
-- LpelSchedX is the function x; the priority of a task is an argument. An index outside the array of
-- queues is a fault (queue_at). The loop of LpelSchedFetchReady
-- goes down the levels.
--
-- Not modelled: the monitoring callbacks, which only log; context switching and atomics, which are
-- assembly and compiler intrinsics; hwloc, and the creation, affinity and joining of threads; the
-- emptying of mailboxes after the threads have ended (cleanupMasterMb); the SCC port; the archive
-- folder; the streams, tasks and workers of the decentralised scheduler.
mod Common
pub mod Memory
pub mod Mailbox
pub mod ReadyQueue
pub mod PrioQueue
pub mod ItemBuffer
pub mod Hrc
pub mod Timing
pub mod Decen
pub mod Streamset
