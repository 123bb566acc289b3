-- ===== src/Hrc/FreeLists.antt =====
-- sched/hierarchy/hrc_worker_op.c: the lists of stream descriptors and of streams that a worker keeps
-- to use again, linked by their `next` fields on a heap.
pub mod Take
pub mod Destroy
mod Tests
use my_lpel.Common.{
  ℕ, zero, suc, Bool, true, false, ◌&&◌, ◌==◌, if◌then◌else◌, Res, ok, fault, fuel, ◌>>=◌, ◌>>◌,
  assert, Ptr, null,
}
use my_lpel.Memory.{Heap, load, modify, free}
use my_lpel.Memory.Unlink.{search}

-- what `lpel_stream_desc_t` and `lpel_stream_t` have in these lists: the fields that tell whether the
-- struct is still in use, and the link; of a stream, the two descriptors
pub record Spare : Type 0 where
  pub first : Ptr
  pub second : Ptr
  pub next : Ptr

abbrev pub uses : Spare → Ptr × Ptr
uses n = (n.first, n.second)

-- `task` and `stream` of a descriptor, `cons_sd` and `prod_sd` of a stream, are NULL
abbrev pub is_unused : Ptr → Ptr × Ptr → Bool
is_unused p (a, b) = a == null && b == null

-- what a call leaves: its result, the heap, and the head of the list
pub record Took : Type 0 where
  pub result : Ptr
  pub heap : Heap Spare
  pub head : Ptr

-- `LpelWorkerPutSd` and `LpelWorkerPutStream`
unfoldable pub put : Heap Spare → Ptr → Ptr → Res (Heap Spare × Ptr)
put h head sd =
    if head == null
    then (modify h sd (λ n. record n { next = null }) >>= λ g. ok (g, sd))
    else (modify h sd (λ n. record n { next = head }) >>= λ g. ok (g, sd))

-- `LpelWorkerGetSd`; the loop on fuel
unfoldable pub get_sd : ℕ → Heap Spare → Ptr → Res Took
get_sd k h head =
    let at_head : Spare → Res Took = λ n. (do
      g ← modify h head λ m. record m { next = null }
      ok (record { result = head; heap = g; head = n.next })) in
    let behind : Spare → Res Took = λ n. (do
      (prev, p) ← search (λ m. m.next) uses is_unused k h head n.next
      let unlink : Res Took = (do
        m ← load h p
        g ← modify h prev λ e. record e { next = m.next }
        u ← modify g p λ e. record e { next = null }
        ok (record { result = p; heap = u; head = head }))
      if p == null then ok (record { result = null; heap = h; head = head }) else unlink) in
    if head == null
    then ok (record { result = null; heap = h; head = head })
    else (load h head >>= λ n. if is_unused head (uses n) then at_head n else behind n)

-- `LpelWorkerGetStream` of a worker
unfoldable pub get_stream : Heap Spare → Ptr → Res Took
get_stream h head =
    let take : Res Took = (do
      n ← load h head
      g ← modify h head λ m. record m { next = null }
      assert (is_unused head (uses n))
      ok (record { result = head; heap = g; head = n.next })) in
    if head == null then ok (record { result = null; heap = h; head = head }) else take

-- `LpelWorkerDestroySd`, on fuel
unfoldable pub destroy_sd : ℕ → Heap Spare → Ptr → Res (Heap Spare)
destroy_sd zero h head = fault fuel
destroy_sd (suc k) h head =
    if head == null then ok h else (load h head >>= λ n. free h head >>= λ g. destroy_sd k g n.next)
