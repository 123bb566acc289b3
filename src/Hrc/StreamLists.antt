-- ===== src/Hrc/StreamLists.antt =====
-- sched/hierarchy/hrc_task.c: the lists of the descriptors that a task has open, one for reading and
-- one for writing, as lists of `stream_elem_t` on a heap.
pub mod Remove
mod Tests
use my_lpel.Common.{
  ℕ, zero, suc, ◌≡◌, Bool, true, false, not, ◌&&◌, ◌==◌, if◌then◌else◌, Res, ok, fault, overflow,
  assert, ◌>>=◌, ◌>>◌, Ptr, null, ltb, ◌^◌, arith, some,
}
use my_lpel.Common.Int.{ℤ, pos, negsuc, ◌+ℤ◌, ◌-ℤ◌}
use my_lpel.Memory.{Heap, write, load, modify, free}
use my_lpel.Memory.Unlink.{search}

-- `stream_elem_t`
pub record StreamElem : Type 0 where
  pub stream_desc : Ptr
  pub next : Ptr

-- the `mode` of a descriptor, 'r' or 'w'
pub data Mode : Type 0 where
  reads writes : Mode

-- the fields of `sched_task_t` that change when a stream is opened or closed
pub record SchedTask : Type 0 where
  pub rec_limit : ℤ
  pub rec_limit_factor : ℤ
  pub in_streams : Ptr
  pub out_streams : Ptr

-- a C int
unfoldable pub int_of : ℤ → Res ℤ
int_of (pos n) = if ltb n (2 ^ 31) then ok (pos n) else fault overflow
int_of (negsuc n) = if ltb n (2 ^ 31) then ok (negsuc n) else fault overflow

abbrev pub list_of : SchedTask → Mode → Ptr
list_of s reads = s.in_streams
list_of s writes = s.out_streams

abbrev pub set_list : SchedTask → Mode → Ptr → SchedTask
set_list s reads p = record s { in_streams = p }
set_list s writes p = record s { out_streams = p }

abbrev pub is_desc : Ptr → Ptr → Ptr → Bool
is_desc des p stream_desc = stream_desc == des

-- the change of the limit by the list that is chosen
unfoldable pub raise_limit : SchedTask → Mode → Res SchedTask
raise_limit s reads = ok s
raise_limit s writes = do
  lim ← int_of (s.rec_limit +ℤ s.rec_limit_factor)
  ok (record s { rec_limit = lim })

unfoldable pub lower_limit : SchedTask → Mode → Res SchedTask
lower_limit s reads = ok s
lower_limit s writes = do
  lim ← int_of (s.rec_limit -ℤ s.rec_limit_factor)
  ok (record s { rec_limit = lim })

-- `LpelTaskAddStream`; `new` is what malloc returns
pub add_stream : Heap StreamElem → SchedTask → Ptr → Mode → Ptr → Res (Heap StreamElem × SchedTask)
add_stream h s des mode new = do
  r ← raise_limit s mode
  let head = list_of r mode
  ok (
    write h new (some (record { stream_desc = des; next = if head == null then null else head })),
    set_list r mode new,
  )

-- the loop of `LpelTaskRemoveStream`, on fuel
pub find_elem : ℕ → Heap StreamElem → Ptr → Ptr → Ptr → Res (Ptr × Ptr)
find_elem k h des prev head = search (λ n. n.next) (λ n. n.stream_desc) (is_desc des) k h prev head

-- `LpelTaskRemoveStream`
pub remove_stream : ℕ → Heap StreamElem → SchedTask → Ptr → Mode → Res (Heap StreamElem × SchedTask)
remove_stream k h s des mode = do
  r ← lower_limit s mode
  (prev, head) ← find_elem k h des null (list_of r mode)
  assert (not (head == null))
  n ← load h head
  let first : Res (Heap StreamElem × SchedTask) = (do
    g ← free h head
    ok (g, set_list r mode n.next))
  let later : Res (Heap StreamElem × SchedTask) = (do
    g ← modify h prev λ e. record e { next = n.next }
    u ← free g head
    ok (u, r))
  if prev == null then first else later
