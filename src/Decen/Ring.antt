-- ===== src/Decen/Ring.antt =====
-- sched/decentralised/decen_buffer.c: a circular buffer in which NULL marks an empty place. The
-- indices are 64-bit numbers that wrap.
pub mod Places
pub mod Queue
mod Tests
use my_lpel.Common.{
  ℕ, zero, suc, ◌+◌, ◌-◌, ◌*◌, ◌/◌, ◌%◌, ◌^◌, ◌≤◌, ◌<◌, ◌≡◌, ◌≢◌, ◌↔◌, refl, sym, ap, ◌∙◌, inl, inr,
  ◌⊎◌, Bool, true, false, not, ◌&&◌, ◌||◌, Option, none, some, List, [], ◌∷◌, ◌++◌, map, arith, ltb,
  leb, ◌==◌, if◌then◌else◌, Bool-cases, ==-true, ==-false, ==-refl, ==-ne, ltb-true, ltb-false, Res,
  ok, fault, Fault, segv, assertion, overflow, fuel, ◌>>=◌, ◌>>◌, assert, Yields, yields,
  Yields-bind, Yields-map, Yields-open, Yields-of, Yields-at, hit, update, update_self, occurs,
  occurs-suc, occurs-at, occurs-twice, occurs-update, occurs-update_above, occurs-index, Double,
  Ptr, null,
}

-- `buffer_t`, without its padding; `entries` is the array `data`
pub record Buffer : Type 0 where
  pub pread : ℕ
  pub pwrite : ℕ
  pub size : ℕ
  pub entries : ℕ → Ptr

-- `LpelBufferInit`
pub init : ℕ → Buffer
init size = record { pread = 0; pwrite = 0; size = size; entries = λ i. null }

pub load : Buffer → ℕ → Res Ptr
load buf i = if ltb i buf.size then ok (buf.entries i) else fault segv

pub store : Buffer → ℕ → Ptr → Res Buffer
store buf i x =
    if ltb i buf.size then ok (record buf { entries = update buf.entries i x }) else fault segv

-- the next index, where `1-buf->size` is an unsigned number
pub advance : ℕ → ℕ → ℕ
advance size p = (p + (if leb size (p + 1) then (1 + 2 ^ 64 - size) % 2 ^ 64 else 1)) % 2 ^ 64

-- `LpelBufferTop`
pub top : Buffer → Res Ptr
top buf = load buf buf.pread

-- `LpelBufferPop`
pub pop : Buffer → Res Buffer
pop buf = do b ← store buf buf.pread null; ok (record b { pread = advance b.size b.pread })

-- `LpelBufferIsSpace`
pub is_space : Buffer → Res Bool
is_space buf = do x ← load buf buf.pwrite; ok (x == null)

-- `LpelBufferPut`
pub put : Buffer → Ptr → Res Buffer
put buf item = do
  assert (not (item == null))
  space ← is_space buf
  assert space
  b ← store buf buf.pwrite item
  ok (record b { pwrite = advance b.size b.pwrite })

-- `LpelBufferIsEmpty`
pub is_empty : Buffer → Res Bool
is_empty buf = do x ← load buf buf.pread; ok (x == null)
