-- ===== src/Decen/Deque.antt =====
-- sched/decentralised/decen_taskqueue.c: a doubly linked queue of tasks.
pub mod Links
pub mod Queue
mod Tests
use my_lpel.Common.{
  ℕ, zero, suc, ◌+◌, ◌-◌, ◌*◌, ◌/◌, ◌%◌, ◌^◌, ◌≤◌, ◌<◌, ◌≡◌, ◌≢◌, ◌↔◌, refl, sym, ap, ◌∙◌, inl, inr,
  ◌⊎◌, Bool, true, false, not, ◌&&◌, ◌||◌, Option, none, some, List, [], ◌∷◌, ◌++◌, map, arith, ltb,
  leb, ◌==◌, if◌then◌else◌, Bool-cases, ==-true, ==-false, ==-refl, ==-ne, ltb-true, ltb-false, Res,
  ok, fault, Fault, segv, assertion, overflow, fuel, ◌>>=◌, ◌>>◌, assert, Yields, yields,
  Yields-bind, Yields-map, Yields-open, Yields-of, Yields-at, hit, update, update_self, occurs,
  occurs-suc, occurs-at, occurs-twice, occurs-update, occurs-update_above, occurs-index, Double,
  Ptr, null,
}
use my_lpel.Memory.{Heap, load, modify}

-- the fields of `lpel_task_t` that link the queue
pub record Task : Type 0 where
  pub prev : Ptr
  pub next : Ptr

-- `taskqueue_t`
pub record Deque : Type 0 where
  pub head : Ptr
  pub tail : Ptr
  pub count : ℕ

-- `LpelTaskqueueInit`
unfoldable pub init : Deque
init = record { head = null; tail = null; count = 0 }

-- a task that is in no queue
unfoldable pub is_loose : Task → Bool
is_loose t = (t.prev == null) && (t.next == null)

pub link_last : Heap Task → Ptr → Ptr → Res (Heap Task)
link_last h tail t = do
  g ← modify h tail λ n. record n { next = t }
  modify g t λ n. record n { prev = tail }

-- `LpelTaskqueuePush`
pub push : Heap Task → Deque → Ptr → Res (Heap Task × Deque)
push h tq t = do
  n ← load h t
  assert (is_loose n)
  let linked = link_last h tq.tail t
  g ← if tq.head == null then ok h else linked
  ok (
    g,
    record {
      head = if tq.head == null then t else tq.head;
      tail = t;
      count = (tq.count + 1) % 2 ^ 32;
    },
  )

pub link_first : Heap Task → Ptr → Ptr → Res (Heap Task)
link_first h head t = do
  g ← modify h head λ n. record n { prev = t }
  modify g t λ n. record n { next = head }

-- `LpelTaskqueuePushFront`
pub push_front : Heap Task → Deque → Ptr → Res (Heap Task × Deque)
push_front h tq t = do
  n ← load h t
  assert (is_loose n)
  let linked = link_first h tq.head t
  g ← if tq.tail == null then ok h else linked
  ok (
    g,
    record {
      head = t;
      tail = if tq.tail == null then t else tq.tail;
      count = (tq.count + 1) % 2 ^ 32;
    },
  )

pub unlink_first : Heap Task → Ptr → Ptr → Res (Heap Task)
unlink_first h t next = do
  g ← modify h next λ n. record n { prev = null }
  modify g t λ n. record n { next = null }

-- `LpelTaskqueuePop`; `none` for NULL
pub pop : Heap Task → Deque → Res (Option (Ptr × Heap Task × Deque))
pop h tq =
    let take : Res (Option (Ptr × Heap Task × Deque)) = do
      n ← load h tq.head
      let unlinked = unlink_first h tq.head n.next
      g ← if n.next == null then ok h else unlinked
      m ← load g tq.head
      assert (is_loose m)
      ok (
          some (
            tq.head,
            g,
            record {
              head = n.next;
              tail = if n.next == null then null else tq.tail;
              count = (tq.count + 2 ^ 32 - 1) % 2 ^ 32;
            },
          ))
    in if tq.head == null then ok none else take

pub unlink_last : Heap Task → Ptr → Ptr → Res (Heap Task)
unlink_last h t prev = do
  g ← modify h prev λ n. record n { next = null }
  modify g t λ n. record n { prev = null }

-- `LpelTaskqueuePopBack`
pub pop_back : Heap Task → Deque → Res (Option (Ptr × Heap Task × Deque))
pop_back h tq =
    let take : Res (Option (Ptr × Heap Task × Deque)) = do
      n ← load h tq.tail
      let unlinked = unlink_last h tq.tail n.prev
      g ← if n.prev == null then ok h else unlinked
      m ← load g tq.tail
      assert (is_loose m)
      ok (
          some (
            tq.tail,
            g,
            record {
              head = if n.prev == null then null else tq.head;
              tail = n.prev;
              count = (tq.count + 2 ^ 32 - 1) % 2 ^ 32;
            },
          ))
    in if tq.tail == null then ok none else take

-- `LpelTaskqueueDestroy`, but for the free of the queue
unfoldable pub destroy : Deque → Res (Unit {0})
destroy tq = assert ((tq.head == null) && (tq.tail == null))
