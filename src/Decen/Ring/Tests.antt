-- ===== src/Decen/Ring/Tests.antt =====
-- A ring of three places whose two items lie across the end of the array.
use my_lpel.Common.{
  ℕ, zero, suc, ◌<◌, ◌≡◌, refl, false, List, [], ◌∷◌, arith, ◌==◌, if◌then◌else◌, ok, Yields, Ptr,
  null,
}
use my_lpel.Decen.Ring.{Buffer, top, put, is_empty}
use my_lpel.Decen.Ring.Places.{item_at, place, IsRing}
use my_lpel.Decen.Ring.Queue.{top-item_at, is_empty-length, put-IsRing}

abbrev ring : Buffer
ring = record {
  pread = 2;
  pwrite = 1;
  size = 3;
  entries = λ i. if i == 0 then 6 else if i == 2 then 5 else null;
}

abbrev items : List Ptr
items = 5 ∷ 6 ∷ []

ring-entry : (i : ℕ) → i < 3 → ring.entries (place 3 2 i) ≡ item_at items i
ring-entry zero h = refl
ring-entry (suc zero) h = refl
ring-entry (suc (suc zero)) h = refl
ring-entry (suc (suc (suc i))) h = absurd (omega (arith, h))

ring-IsRing : IsRing ring items
ring-IsRing = record {
  small = omega arith;
  reads = omega arith;
  writes = refl;
  fits = omega arith;
  proper = refl;
  entry = ring-entry;
}

abbrev pair : Buffer
pair = record { pread = 1; pwrite = 1; size = 2; entries = λ i. if i == 0 then 6 else 5 }

pair-entry : (i : ℕ) → i < 2 → pair.entries (place 2 1 i) ≡ item_at items i
pair-entry zero h = refl
pair-entry (suc zero) h = refl
pair-entry (suc (suc i)) h = absurd (omega (arith, h))

pair-IsRing : IsRing pair items
pair-IsRing = record {
  small = omega arith;
  reads = omega arith;
  writes = refl;
  fits = omega arith;
  proper = refl;
  entry = pair-entry;
}

put-IsRing_example :
    Yields (λ c. IsRing c (5 ∷ 6 ∷ 7 ∷ []) × (c.pread ≡ 2) × (c.size ≡ 3)) (put ring 7)
put-IsRing_example = put-IsRing ring items ring-IsRing 7 (omega arith) (omega arith)

top-item_at_example : top ring ≡ ok 5
top-item_at_example = top-item_at ring items ring-IsRing

is_empty-length_example : is_empty ring ≡ ok false
is_empty-length_example = is_empty-length ring items ring-IsRing
