-- ===== src/Decen/Ring/Places.antt =====
-- The places of the ring, counted from the reading index, hold the items and then NULL.
use my_lpel.Common.{
  ℕ, zero, suc, ◌+◌, ◌-◌, ◌^◌, ◌≤◌, ◌<◌, ◌≡◌, ◌≢◌, refl, Bool, true, not, ◌&&◌, List, [], ◌∷◌, ◌++◌,
  arith, ltb, ◌==◌, if◌then◌else◌, ==-ne, Ptr, null,
}
use my_lpel.Common.Lists.{length}
use my_lpel.Decen.Ring.{Buffer, init, advance}

-- the place `i` steps after `p`
abbrev pub place : ℕ → ℕ → ℕ → ℕ
place size p i = if ltb (p + i) size then p + i else p + i - size

-- the item at a position, NULL behind the last
abbrev pub item_at : List Ptr → ℕ → Ptr
item_at [] i = null
item_at (x ∷ items) zero = x
item_at (x ∷ items) (suc i) = item_at items i

abbrev pub no_null : List Ptr → Bool
no_null [] = true
no_null (x ∷ items) = not (x == null) && no_null items

pub item_at-beyond : (items : List Ptr) (i : ℕ) → length items ≤ i → item_at items i ≡ null
item_at-beyond [] i h = refl
item_at-beyond (x ∷ items) zero h = absurd (ground (arith, h))
item_at-beyond (x ∷ items) (suc i) h = item_at-beyond items i (omega (arith, h))

pub item_at-append :
    (items : List Ptr) (x : Ptr) (i : ℕ)
    → item_at (items ++ x ∷ []) i ≡ (if i == length items then x else item_at items i)
item_at-append [] x zero = refl
item_at-append [] x (suc i) = ground arith
item_at-append (y ∷ items) x zero = ground arith
item_at-append (y ∷ items) x (suc i) = ground (arith, item_at-append items x i)

pub no_null-append :
    (items : List Ptr) (x : Ptr)
    → no_null items ≡ true
    → x ≢ null
    → no_null (items ++ x ∷ []) ≡ true
no_null-append [] x h ne = rw (==-ne x null ne)
no_null-append (y ∷ items) x h ne = ground (arith, h, ne, no_null-append items x)

pub advance-place : (size p : ℕ) → p < size → size < 2 ^ 32 → advance size p ≡ place size p 1
unfolding advance
advance-place size p i j = ground (arith, i, j)

-- a ring in order that holds these items
pub record IsRing (buf : Buffer) (items : List Ptr) : Type 0 where
  pub small : buf.size < 2 ^ 32
  pub reads : buf.pread < buf.size
  pub writes : buf.pwrite ≡ place buf.size buf.pread (length items)
  pub fits : length items ≤ buf.size
  pub proper : no_null items ≡ true
  pub entry : (i : ℕ) → i < buf.size → buf.entries (place buf.size buf.pread i) ≡ item_at items i

pub init-IsRing : (size : ℕ) → 0 < size → size < 2 ^ 32 → IsRing (init size) []
unfolding init
init-IsRing size i j = record {
  small = j;
  reads = i;
  writes = ground (arith, i);
  fits = omega arith;
  proper = refl;
  entry = λ k l. refl;
}
