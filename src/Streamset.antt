-- ===== src/Streamset.antt =====
-- streamset.c: sets of stream descriptors, as a circular list whose handle points to the last one, and
-- their iterators.
pub mod Ring
pub mod Seek
pub mod Remove
pub mod Insert
pub mod Append
pub mod Between
pub mod Step
pub mod Iterate
mod Tests
use my_lpel.Common.{
  ℕ, zero, suc, Bool, true, false, not, ◌&&◌, ◌||◌, Option, none, some, ◌==◌, if◌then◌else◌, Res,
  ok, fault, fuel, ◌>>=◌, ◌>>◌, assert, Ptr, null,
}
use my_lpel.Memory.{Heap, load, modify}

-- what `lpel_stream_desc_t` has here
pub record Member : Type 0 where
  pub stream : Ptr
  pub next : Ptr

-- `lpel_stream_iter_t`; the set that it points to is an argument of each operation
pub record Iter : Type 0 where
  pub cur : Ptr
  pub prev : Ptr

-- `LpelStreamsetPut`; `set` is what the handle holds, and the result what it is set to
unfoldable pub put : Heap Member → Ptr → Ptr → Res (Heap Member × Ptr)
put h set node =
    let only : Res (Heap Member × Ptr) = do
      g ← modify h node λ n. record n { next = node }
      ok (g, node)
    in let behind : Res (Heap Member × Ptr) = do
      last ← load h set
      g ← modify h node λ n. record n { next = last.next }
      k ← modify g set λ n. record n { next = node }
      ok (k, node)
      in if set == null then only else behind

-- the loop of `LpelStreamsetRemove`, on fuel: `prev` and `cur` at its end
unfoldable pub seek : ℕ → Heap Member → Ptr → Ptr → Ptr → Res (Ptr × Ptr)
seek zero h set node cur = fault fuel
seek (suc k) h set node cur = load h cur >>= λ n.
    let rest = seek k h set node n.next in
    if n.next == node || n.next == set then ok (cur, n.next) else rest

-- `LpelStreamsetRemove`; whether the node was in the set
unfoldable pub remove : ℕ → Heap Member → Ptr → Ptr → Res (Bool × Heap Member × Ptr)
remove k h set node = do
  assert (not (set == null))
  (prev, cur) ← seek k h set node set
  let unlink : Res (Bool × Heap Member × Ptr) = do
    n ← load h cur
    g ← modify h prev λ m. record m { next = n.next }
    u ← modify g cur λ m. record m { next = null }
    ok (true, u, if set == cur then prev else set)
  if not (cur == node)
      then ok (false, h, set)
      else if prev == cur
      then ok (true, h, null)
      else unlink

-- `LpelStreamsetIsEmpty`
unfoldable pub is_empty : Ptr → Bool
is_empty set = set == null

-- `LpelStreamIterCreate`, of a set or of none; `junk` is what malloc returns
unfoldable pub iter_create : Option Ptr → Iter → Iter
iter_create none junk = record junk { cur = null }
iter_create (some set) junk = record { cur = null; prev = set }

-- `LpelStreamIterReset`
unfoldable pub iter_reset : Ptr → Iter
iter_reset set = record { cur = null; prev = set }

-- `LpelStreamIterHasNext`
unfoldable pub has_next : Ptr → Iter → Bool
has_next set it = not (set == null) && (not (it.cur == set) || it.cur == null)

-- `LpelStreamIterNext`
unfoldable pub iter_next : Heap Member → Ptr → Iter → Res (Ptr × Iter)
iter_next h set it = do
  assert (has_next set it)
  let later : Res (Ptr × Iter) = do
    n ← load h it.cur
    ok (n.next, record { cur = n.next; prev = it.cur })
  let first : Res (Ptr × Iter) = do n ← load h it.prev; ok (n.next, record it { cur = n.next })
  if it.cur == null then first else later

-- `LpelStreamIterAppend`
unfoldable pub iter_append : Heap Member → Ptr → Iter → Ptr → Res (Heap Member × Ptr × Iter)
iter_append h set it node = do
  last ← load h set
  g ← modify h node λ n. record n { next = last.next }
  k ← modify g set λ n. record n { next = node }
  let prev = if it.prev == set then node else it.prev
  ok (k, node, record it { prev = if prev == it.cur then node else prev })

-- `LpelStreamIterRemove`
unfoldable pub iter_remove : Heap Member → Ptr → Iter → Res (Heap Member × Ptr × Iter)
iter_remove h set it =
    let single : Res (Heap Member × Ptr × Iter) = do
      assert (it.prev == set)
      g ← modify h it.cur λ n. record n { next = null }
      ok (g, null, it)
    in let unlink : Res (Heap Member × Ptr × Iter) = do
      n ← load h it.cur
      g ← modify h it.prev λ m. record m { next = n.next }
      k ← modify g it.cur λ m. record m { next = null }
      if set == it.prev
          then ok (k, set, record it { cur = null })
          else ok (k, if set == it.cur then it.prev else set, record it { cur = it.prev })
      in if it.prev == it.cur then single else unlink
