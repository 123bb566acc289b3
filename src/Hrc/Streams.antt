-- ===== src/Hrc/Streams.antt =====
-- sched/hierarchy/hrc_stream.c: Read and Write of one stream, cut where another thread can come
-- between: at each atomic operation, each lock and each point where a task blocks or wakes another.
pub mod Balance
pub mod Read
mod Tests
pub mod Run
pub mod Post
pub mod Write
use my_lpel.Common.{
  ℕ, zero, suc, ◌+◌, ◌-◌, ◌*◌, ◌/◌, ◌%◌, ◌^◌, ◌≤◌, ◌<◌, ◌≡◌, ◌≢◌, ◌↔◌, refl, sym, ap, ◌∙◌, inl, inr,
  ◌⊎◌, Bool, true, false, not, ◌&&◌, ◌||◌, Option, none, some, List, [], ◌∷◌, ◌++◌, map, arith, ltb,
  leb, ◌==◌, if◌then◌else◌, Bool-cases, ==-true, ==-false, ==-refl, ==-ne, ltb-true, ltb-false, Res,
  ok, fault, Fault, segv, assertion, overflow, fuel, ◌>>=◌, ◌>>◌, assert, Yields, yields,
  Yields-bind, Yields-map, Yields-open, Yields-of, Yields-at, hit, update, update_self, occurs,
  occurs-suc, occurs-at, occurs-twice, occurs-update, occurs-update_above, occurs-index, Double,
  Ptr, null,
}
use my_lpel.Common.Int.{ℤ, pos, negsuc, ltb_ℤ, eqb_ℤ}
use my_lpel.ItemBuffer.{ItemBuffer}
use my_lpel.Hrc.World.{StreamType, entry, exit, middle}

-- `atomic_fetch_add(v, 1)` on an `atomic_int`, which wraps around
pub fetch_inc : ℤ → ℤ
fetch_inc (pos n) = if suc n == 2 ^ 31 then negsuc (2 ^ 31 - 1) else pos (suc n)
fetch_inc (negsuc zero) = pos 0
fetch_inc (negsuc (suc n)) = negsuc n

-- `atomic_fetch_sub(v, 1)`
pub fetch_dec : ℤ → ℤ
fetch_dec (pos zero) = negsuc 0
fetch_dec (pos (suc n)) = pos n
fetch_dec (negsuc n) = if n + 1 == 2 ^ 31 then pos (2 ^ 31 - 1) else negsuc (suc n)

-- whether a plain `int` can be counted up
pub fits_more : ℤ → Bool
fits_more n = ltb_ℤ n (pos (2 ^ 31 - 1))

-- `n++` on a plain `int`, which must not overflow
pub count_up : ℤ → Res ℤ
count_up n = if fits_more n then ok (fetch_inc n) else fault overflow

-- where the consumer is in `LpelStreamRead`
pub data Reading : Type 0 where
  idle : Reading
  blocked : Reading
  taking : Reading
  posting : Reading
  counting : Reading

-- where the producer is in `LpelStreamWrite`, with the item it writes
pub data Writing : Type 0 where
  idle : Writing
  blocked : Ptr → Writing
  putting : Ptr → Writing
  posting : Bool → Writing
  counting : Writing

pub is_entry : StreamType → Bool
is_entry entry = true
is_entry exit = false
is_entry middle = false

-- what a step shows to the outside: an item written or read, or nothing
pub data Label : Type 0 where
  silent : Label
  wrote : Ptr → Label
  took : Ptr → Label

module _ (B : ItemBuffer) where
  -- The fields of `lpel_stream_t` that Read and Write use; `poll_token` and `wakeup_sd` are fields
  -- of the consumer. A task is woken when a wake-up was sent for it that it has not used yet.
  pub record Stream : Type 0 where
    pub buffer : B.Buf
    pub type : StreamType
    pub n_sem : ℤ
    pub e_sem : ℤ
    pub is_poll : Bool
    pub poll_token : Bool
    pub wakeup_sd : Bool
    pub read_cnt : ℤ
    pub write_cnt : ℤ
    pub reader : Reading
    pub writer : Writing
    pub cons_woken : Bool
    pub prod_woken : Bool

  -- `LpelStreamCreate`, with the buffer that `LpelBufferInit` makes or the free list gives
  pub create : B.Buf → StreamType → ℕ → Res Stream
  create buffer type size = do
    empty ← B.is_empty buffer
    assert empty
    ok (record {
      buffer = buffer;
      type = type;
      n_sem = pos 0;
      e_sem = pos (if size == 0 then 16 else size);
      is_poll = false;
      poll_token = false;
      wakeup_sd = false;
      read_cnt = pos 0;
      write_cnt = pos 0;
      reader = Reading.idle;
      writer = Writing.idle;
      cons_woken = false;
      prod_woken = false;
    })

  -- quasi P(n_sem)
  pub read_enter : Stream → Stream
  read_enter s = record s {
    n_sem = fetch_dec s.n_sem;
    reader = if eqb_ℤ s.n_sem (pos 0) then Reading.blocked else Reading.taking;
  }

  -- the buffer's top is taken off
  pub read_take : Stream → Res (Label × Stream)
  read_take s = do
    item ← B.top s.buffer
    assert (not (item == null))
    b ← B.pop s.buffer
    ok (
      took item,
      record s {
        buffer = b;
        reader = if is_entry s.type then Reading.posting else Reading.counting;
      },
    )

  -- quasi V(e_sem), which may wake the producer
  pub read_post : Stream → Stream
  read_post s = record s {
    e_sem = fetch_inc s.e_sem;
    prod_woken = if ltb_ℤ s.e_sem (pos 0) then true else s.prod_woken;
    reader = Reading.counting;
  }

  -- the next step of the consumer; `none` where it is blocked and not woken
  pub read_at : Reading → Stream → Res (Option (Label × Stream))
  read_at Reading.idle s = ok (some (silent, read_enter s))
  read_at Reading.blocked s = ok (
      if s.cons_woken
      then some (silent, record s { cons_woken = false; reader = Reading.taking })
      else none)
  read_at Reading.taking s = do r ← read_take s; ok (some r)
  read_at Reading.posting s = ok (some (silent, read_post s))
  read_at Reading.counting s = do
    n ← count_up s.read_cnt
    ok (some (silent, record s { read_cnt = n; reader = Reading.idle }))

  -- `LpelStreamRead`
  pub read_step : Stream → Res (Option (Label × Stream))
  read_step s = read_at s.reader s

  -- quasi P(e_sem) on an entry stream
  pub write_enter : Ptr → Stream → Res Stream
  write_enter item s = do
    assert (not (item == null))
    ok (
        if is_entry s.type
        then record s {
          e_sem = fetch_dec s.e_sem;
          writer = if eqb_ℤ s.e_sem (pos 0) then Writing.blocked item else Writing.putting item;
        }
        else record s { writer = Writing.putting item })

  -- the critical section: the item is put, and the token of a polling consumer is taken
  pub write_put : Ptr → Stream → Res (Label × Stream)
  write_put item s = do
    assert (B.is_space s.buffer)
    b ← B.put s.buffer item
    ok (
      wrote item,
      if s.is_poll
          then record s {
            buffer = b;
            poll_token = false;
            is_poll = false;
            writer = Writing.posting s.poll_token;
          }
          else record s { buffer = b; writer = Writing.posting false },
    )

  -- quasi V(n_sem), which may wake the consumer
  pub write_post : Bool → Stream → Stream
  write_post poll_wakeup s =
      let r = record s { n_sem = fetch_inc s.n_sem; writer = Writing.counting } in
      if ltb_ℤ s.n_sem (pos 0)
      then record r { cons_woken = true }
      else if poll_wakeup
      then record r { cons_woken = true; wakeup_sd = true }
      else r

  -- the next step of the producer, which writes `item` next
  pub write_at : Writing → Ptr → Stream → Res (Option (Label × Stream))
  write_at Writing.idle item s = do r ← write_enter item s; ok (some (silent, r))
  write_at (Writing.blocked i) item s = ok (
      if s.prod_woken
      then some (silent, record s { prod_woken = false; writer = Writing.putting i })
      else none)
  write_at (Writing.putting i) item s = do r ← write_put i s; ok (some r)
  write_at (Writing.posting poll) item s = ok (some (silent, write_post poll s))
  write_at Writing.counting item s = do
    n ← count_up s.write_cnt
    ok (some (silent, record s { write_cnt = n; writer = Writing.idle }))

  -- `LpelStreamWrite`
  pub write_step : Ptr → Stream → Res (Option (Label × Stream))
  write_step item s = write_at s.writer item s

  -- `LpelStreamTryWrite` at its start; `none` for its -1
  pub try_write : Ptr → Stream → Res (Option Stream)
  try_write item s =
      let go : Res (Option Stream) = do r ← write_enter item s; ok (some r)
      in if not (B.is_space s.buffer) then ok none else go
