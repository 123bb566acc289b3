-- ===== src/PrioQueue.antt =====
-- sched/hierarchy/hrc_taskqueue.c: the master's ready queue, a binary max-heap of task pointers in
-- a growing array. A task is a number; its priority, a C double that is never NaN, is read through
-- `Double`, and the priorities of all tasks are a function.
pub mod Order
pub mod Up
pub mod Down
pub mod Push
pub mod Search
pub mod Pop
pub mod Update
pub mod Contract
mod Tests
use my_lpel.Common.{
  Double, Ptr, null, ℕ, zero, suc, ◌+◌, ◌-◌, ◌*◌, ◌/◌, ◌%◌, ◌^◌, ◌≤◌, ◌<◌, ◌≡◌, Bool, true, false,
  ◌&&◌, not, Option, none, some, ltb, leb, ltb-true, ◌==◌, if◌then◌else◌, Res, ok, fault, segv,
  assertion, overflow, fuel, ◌>>=◌, ◌>>◌, assert, update,
}

abbrev pub block_size : ℕ
block_size = 50

pub record Taskqueue : Type 0 where
  pub heap : ℕ → Ptr
  pub count : ℕ
  pub alloc : ℕ

-- `heap[i]` in an array of `alloc` entries
pub load : ℕ → (ℕ → Ptr) → ℕ → Res Ptr
load alloc a i = if ltb i alloc then ok (a i) else fault segv

pub store : ℕ → (ℕ → Ptr) → ℕ → Ptr → Res (ℕ → Ptr)
store alloc a i t = if ltb i alloc then ok (update a i t) else fault segv

pub load-ok : (alloc : ℕ) (a : ℕ → Ptr) (i : ℕ) → i < alloc → load alloc a i ≡ ok (a i)
unfolding load
load-ok alloc a i h = rw (ltb-true i alloc h)

pub store-ok :
    (alloc : ℕ) (a : ℕ → Ptr) (i : ℕ) (t : Ptr) → i < alloc → store alloc a i t ≡ ok (update a i t)
unfolding store
store-ok alloc a i t h = rw (ltb-true i alloc h)

-- an `int` result that must be below 2 ^ 31
pub int : ℕ → Res ℕ
int n = if ltb n (2 ^ 31) then ok n else fault overflow

pub int-ok : (n : ℕ) → n < 2 ^ 31 → int n ≡ ok n
unfolding int
int-ok n h = rw (ltb-true n (2 ^ 31) h)

-- `searchItem`, the loop from index `i` on; `none` for -1
pub search_item : Ptr → ℕ → ℕ → (ℕ → Ptr) → ℕ → ℕ → Res (Option ℕ)
search_item t alloc count a zero i = fault fuel
search_item t alloc count a (suc k) i =
    let more : Res (Option ℕ) = do
      u ← load alloc a i
      let next = search_item t alloc count a k (i + 1)
      if u == t then ok (some i) else next
    in if ltb i count then more else ok none

module _ {D : Type 0} ⦃d : Double D⦄ where
  -- the loop of `upHeap`, for a task of priority `p`
  up_loop : (ℕ → D) → ℕ → Ptr → ℕ → (ℕ → Ptr) → ℕ → Res (ℕ → Ptr)
  up_loop prior alloc t zero a pos = fault fuel
  up_loop prior alloc t (suc k) a pos =
      let parent = pos / 2 in
      let rise : Res (ℕ → Ptr) = do
        u ← load alloc a parent
        b ← store alloc a pos u
        up_loop prior alloc t k b parent
      in let step : Res (ℕ → Ptr) = do
        u ← load alloc a parent
        if d.lt (prior u) (prior t) then rise else store alloc a pos t
        in if parent == 0 then store alloc a pos t else step

  pub up_heap : (ℕ → D) → Taskqueue → ℕ → Res Taskqueue
  unfolding up_loop load store
  up_heap prior tq pos = do
    t ← load tq.alloc tq.heap pos
    a ← up_loop prior tq.alloc t (pos + 1) tq.heap pos
    ok (record tq { heap = a })

  -- the child that `downHeap` compares with: the right one if it exists and is greater
  greater_child : (ℕ → D) → ℕ → ℕ → (ℕ → Ptr) → ℕ → Res ℕ
  greater_child prior alloc count a child =
      let both : Res ℕ = do
        l ← load alloc a child
        r ← load alloc a (child + 1)
        ok (if d.lt (prior l) (prior r) then child + 1 else child)
      in if ltb (child + 1) count then both else ok child

  down_loop : (ℕ → D) → ℕ → ℕ → Ptr → ℕ → (ℕ → Ptr) → ℕ → Res (ℕ → Ptr)
  down_loop prior alloc count t zero a pos = fault fuel
  down_loop prior alloc count t (suc k) a pos =
      let sift = λ (left : ℕ). greater_child prior alloc count a left >>= λ child.
      load alloc a child >>= λ u.
      let sink : Res (ℕ → Ptr) = do b ← store alloc a pos u; down_loop prior alloc count t k b child
      in if not (d.lt (prior t) (prior u)) then store alloc a pos t else sink in
      do left ← int (pos * 2); if ltb left count then sift left else store alloc a pos t

  pub down_heap : (ℕ → D) → Taskqueue → ℕ → Res Taskqueue
  unfolding down_loop greater_child load store int
  down_heap prior tq pos = do
    t ← load tq.alloc tq.heap pos
    a ← down_loop prior tq.alloc tq.count t tq.count tq.heap pos
    ok (record tq { heap = a })

  -- `LpelTaskqueuePush`
  unfoldable pub push : (ℕ → D) → Taskqueue → Ptr → Res Taskqueue
  unfolding up_heap store
  push prior tq t =
      let alloc = if leb tq.alloc tq.count then (tq.alloc + block_size) % 2 ^ 32 else tq.alloc in
      do
        a ← store alloc tq.heap tq.count t
        q ← up_heap prior (record { heap = a; count = tq.count; alloc = alloc }) tq.count
        ok (record q { count = (q.count + 1) % 2 ^ 32 })

  -- `LpelTaskqueueRemoveHead`
  pub remove_head : (ℕ → D) → Taskqueue → Res Taskqueue
  unfolding down_heap load store
  remove_head prior tq =
      let count = (tq.count + 2 ^ 32 - 1) % 2 ^ 32 in
      do
        t ← load tq.alloc tq.heap count
        a ← store tq.alloc tq.heap 1 t
        down_heap prior (record tq { heap = a; count = count }) 1

  -- `LpelTaskqueuePop`
  unfoldable pub pop : (ℕ → D) → Taskqueue → Res (Ptr × Taskqueue)
  unfolding remove_head load
  pop prior tq =
      if tq.count == 1
      then ok (null, tq)
      else do t ← load tq.alloc tq.heap 1; q ← remove_head prior tq; ok (t, q)

  -- `LpelTaskqueueUpdatePriority` once `searchItem` has returned
  pub update_at : (ℕ → D) → Taskqueue → Ptr → D → Option ℕ → Res ((ℕ → D) × Taskqueue)
  update_at prior tq t np none = fault assertion
  update_at prior tq t np (some pos) =
      let written = update prior t np in
      if d.lt (prior t) np
      then (up_heap written tq pos >>= λ q. ok (written, q))
      else if d.lt np (prior t)
      then (down_heap written tq pos >>= λ q. ok (written, q))
      else ok (written, tq)

  -- `LpelTaskqueueUpdatePriority`, with the priorities that it leaves
  pub update_priority : (ℕ → D) → Taskqueue → Ptr → D → Res ((ℕ → D) × Taskqueue)
  unfolding update_at
  update_priority prior tq t np = do
    found ← search_item t tq.alloc tq.count tq.heap tq.count 1
    update_at prior tq t np found

-- `LpelTaskqueueInit`; `mem` is what the array that `malloc` returns happens to hold
pub init : (ℕ → Ptr) → Taskqueue
init mem = record { heap = mem; count = 1; alloc = block_size }

-- `LpelTaskqueuePeek`
unfoldable pub peek : Taskqueue → Res Ptr
unfolding load
peek tq = if tq.count == 1 then ok null else load tq.alloc tq.heap 1

-- `LpelTaskqueueSize`
unfoldable pub size : Taskqueue → ℕ
size tq = tq.count - 1
