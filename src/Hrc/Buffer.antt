-- ===== src/Hrc/Buffer.antt =====
-- sched/hierarchy/hrc_buffer.c: the buffer of a stream, a linked list that starts with a spent entry.
pub mod Contents
pub mod Front
mod Tests
pub mod Contract
use my_lpel.Common.{
  ℕ, zero, suc, ◌+◌, ◌-◌, ◌*◌, ◌/◌, ◌%◌, ◌^◌, ◌≤◌, ◌<◌, ◌≡◌, ◌≢◌, ◌↔◌, refl, sym, ap, ◌∙◌, inl, inr,
  ◌⊎◌, Bool, true, false, not, ◌&&◌, ◌||◌, Option, none, some, List, [], ◌∷◌, ◌++◌, map, arith, ltb,
  leb, ◌==◌, if◌then◌else◌, Bool-cases, ==-true, ==-false, ==-refl, ==-ne, ltb-true, ltb-false, Res,
  ok, fault, Fault, segv, assertion, overflow, fuel, ◌>>=◌, ◌>>◌, assert, Yields, yields,
  Yields-bind, Yields-map, Yields-open, Yields-of, Yields-at, hit, update, update_self, occurs,
  occurs-suc, occurs-at, occurs-twice, occurs-update, occurs-update_above, occurs-index, Double,
  Ptr, null,
}
use my_lpel.Memory.{Heap, write, load, modify, free}

-- `struct entry`
pub record Entry : Type 0 where
  pub item : Ptr
  pub next : Ptr

-- `struct buffer_t`
pub record Buffer : Type 0 where
  pub head : Ptr
  pub tail : Ptr

-- `createEntry`; `fresh` is what `malloc` returns
pub create_entry : Ptr → Ptr → Heap Entry → Heap Entry
create_entry fresh item h = write h fresh (some (record { item = item; next = null }))

-- `LpelBufferInit`
pub init : Ptr → Heap Entry → Heap Entry × Buffer
init fresh h = (create_entry fresh null h, record { head = fresh; tail = fresh })

-- `LpelBufferCleanup`
pub cleanup : Heap Entry → Buffer → Res (Heap Entry)
cleanup h buf = free h buf.head

-- `LpelBufferTop`
pub top : Heap Entry → Buffer → Res Ptr
top h buf = do
  e ← load h buf.head
  let first : Res Ptr = do f ← load h e.next; ok f.item
  if e.next == null then ok null else first

-- `LpelBufferPop`
pub pop : Heap Entry → Buffer → Res (Heap Entry × Buffer)
pop h buf = do
  e ← load h buf.head
  let advance : Res (Heap Entry × Buffer) = do
    g ← free h buf.head
    ok (g, record buf { head = e.next })
  if e.next == null then ok (h, buf) else advance

-- `LpelBufferIsSpace`
pub is_space : Buffer → Bool
is_space buf = true

-- `LpelBufferPut`
pub put : Ptr → Heap Entry → Buffer → Ptr → Res (Heap Entry × Buffer)
put fresh h buf item = do
  assert (not (item == null))
  g ← modify (create_entry fresh item h) buf.tail λ e. record e { next = fresh }
  last ← load g buf.tail
  ok (g, record buf { tail = last.next })

-- `LpelBufferIsEmpty`
pub is_empty : Heap Entry → Buffer → Res Bool
is_empty h buf = do e ← load h buf.head; ok (e.next == null)
