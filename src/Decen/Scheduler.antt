-- ===== src/Decen/Scheduler.antt =====
-- sched/decentralised/decen_scheduler.c: the ready tasks of a worker, one queue for each priority.
pub mod Levels
mod Tests
use my_lpel.Common.{
  ℕ, zero, suc, ◌-◌, Bool, Option, none, some, ltb, leb, ◌==◌, if◌then◌else◌, Res, ok, fault, segv,
  ◌>>=◌, ◌>>◌, assert, update, Ptr,
}
use my_lpel.Common.Int.{ℤ, pos, negsuc}
use my_lpel.Memory.{Heap}
use my_lpel.Decen.Deque.{Task, Deque, init, push, pop, destroy as destroy_queue}

-- `SCHED_NUM_PRIO`
abbrev pub num_prio : ℕ
num_prio = 2

-- `schedctx_t`: the queue of each priority, at the indices below `num_prio`
abbrev pub SchedCtx : Type 0
SchedCtx = ℕ → Deque

-- `sc->queue[i]`
unfoldable pub queue_at : SchedCtx → ℕ → Res Deque
queue_at sc i = if ltb i num_prio then ok (sc i) else fault segv

-- `LpelSchedCreate`
unfoldable pub create : SchedCtx
create = λ i. init

-- the loop of `LpelSchedDestroy` from level `i` on, for `k` levels, without its frees
unfoldable pub destroy_loop : ℕ → ℕ → SchedCtx → Res (Unit {0})
destroy_loop zero i sc = ok tt
destroy_loop (suc k) i sc = queue_at sc i >>= λ tq.
    (assert (tq.count == 0) >> destroy_queue tq >> destroy_loop k (suc i) sc)

-- `LpelSchedDestroy`
unfoldable pub destroy : SchedCtx → Res (Unit {0})
destroy sc = destroy_loop num_prio 0 sc

-- the level of a priority
unfoldable pub level : ℤ → ℕ
level (pos n) = if leb num_prio n then num_prio - 1 else n
level (negsuc n) = 0

-- `LpelSchedMakeReady` of a task with the priority
unfoldable pub make_ready : Heap Task → SchedCtx → Ptr → ℤ → Res (Heap Task × SchedCtx)
make_ready h sc t prio = do
  queue ← queue_at sc (level prio)
  (g, tq) ← push h queue t
  ok (g, update sc (level prio) tq)

-- the level `i` after `LpelTaskqueuePop`
abbrev pub popped :
    SchedCtx → ℕ → Option (Ptr × Heap Task × Deque) → Option (Ptr × Heap Task × SchedCtx)
popped sc i none = none
popped sc i (some (t, g, tq)) = some (t, g, update sc i tq)

-- the loop of `LpelSchedFetchReady` over the levels below `k`; `none` for NULL
unfoldable pub fetch_loop : ℕ → Heap Task → SchedCtx → Res (Option (Ptr × Heap Task × SchedCtx))
fetch_loop zero h sc = ok none
fetch_loop (suc i) h sc =
    let rest = fetch_loop i h sc in
    let from_queue : Deque → Res (Option (Ptr × Heap Task × SchedCtx)) = λ tq.
      let take : Res (Option (Ptr × Heap Task × SchedCtx)) =
        (pop h tq >>= λ r. ok (popped sc i r)) in
      if ltb 0 tq.count then take else rest in
    queue_at sc i >>= from_queue

-- `LpelSchedFetchReady`
unfoldable pub fetch_ready : Heap Task → SchedCtx → Res (Option (Ptr × Heap Task × SchedCtx))
fetch_ready h sc = fetch_loop num_prio h sc
