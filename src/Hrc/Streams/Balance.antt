-- ===== src/Hrc/Streams/Balance.antt =====
-- The two semaphores of a stream count what is in it.
use my_lpel.Common.{
  ℕ, zero, suc, ◌+◌, ◌-◌, ◌^◌, ◌<◌, ◌≡◌, ◌≢◌, refl, ap, ◌∙◌, Bool, true, false, not, ◌&&◌, ◌||◌,
  Option, none, some, List, [], ◌∷◌, ◌++◌, arith, ◌==◌, ==-ne, Ptr, null,
}
use my_lpel.Common.Int.{ℤ, pos, negsuc, ltb_ℤ, eqb_ℤ}
use my_lpel.Common.Lists.{length}
use my_lpel.ItemBuffer.{ItemBuffer}
use my_lpel.Hrc.World.{entry}
use my_lpel.Hrc.Streams.{fetch_inc, fetch_dec, Reading, Writing, Stream, Label, silent, wrote, took}

-- the counter is `m` - 1, so that it is -1 at least
pub data IsLevel : ℤ → ℕ → Type 0 where
  short : IsLevel (negsuc 0) 0
  at_least : {n : ℕ} → IsLevel (pos n) (suc n)

pub fetch_inc-IsLevel : {z : ℤ} {m : ℕ} → IsLevel z m → m < 2 ^ 31 → IsLevel (fetch_inc z) (suc m)
unfolding fetch_inc
fetch_inc-IsLevel short i = at_least
fetch_inc-IsLevel (at_least {n}) i = rw (==-ne (suc n) (2 ^ 31) (λ e. omega (arith, e, i))) at_least

pub fetch_dec-IsLevel : {z : ℤ} {m : ℕ} → IsLevel z (suc m) → IsLevel (fetch_dec z) m
unfolding fetch_dec
fetch_dec-IsLevel (at_least {n = zero}) = short
fetch_dec-IsLevel (at_least {n = suc n}) = at_least

suc-pred : (n : ℕ) → suc n - 1 ≡ n
suc-pred n = omega arith

pub fetch_dec-above : {z : ℤ} {m : ℕ} → IsLevel z m → m == 0 ≡ false → IsLevel (fetch_dec z) (m - 1)
fetch_dec-above short i = ground (arith, i)
fetch_dec-above (at_least {n}) i = rw (suc-pred n) (fetch_dec-IsLevel at_least)

pub IsLevel-zero : {z : ℤ} {m : ℕ} → IsLevel z m → eqb_ℤ z (pos 0) ≡ (m == 1)
IsLevel-zero short = refl
IsLevel-zero (at_least {n}) = ground arith

pub IsLevel-negative : {z : ℤ} {m : ℕ} → IsLevel z m → ltb_ℤ z (pos 0) ≡ (m == 0)
IsLevel-negative short = refl
IsLevel-negative (at_least {n}) = ground arith

-- 1 from the consumer's P(n_sem) until it takes the item
abbrev pub claims : Reading → ℕ
claims Reading.idle = 0
claims Reading.blocked = 1
claims Reading.taking = 1
claims Reading.posting = 0
claims Reading.counting = 0

-- 1 from taking the item until V(e_sem)
abbrev pub releases : Reading → ℕ
releases Reading.posting = 1
releases _ = 0

abbrev pub is_blocked : Reading → Bool
is_blocked Reading.blocked = true
is_blocked _ = false

-- 1 from the producer's P(e_sem) until it puts the item
abbrev pub reserves : Writing → ℕ
reserves Writing.idle = 0
reserves (Writing.blocked i) = 1
reserves (Writing.putting i) = 1
reserves (Writing.posting p) = 0
reserves Writing.counting = 0

-- 1 from putting the item until V(n_sem)
abbrev pub announces : Writing → ℕ
announces Writing.idle = 0
announces (Writing.blocked i) = 0
announces (Writing.putting i) = 0
announces (Writing.posting p) = 1
announces Writing.counting = 0

abbrev pub is_held : Writing → Bool
is_held (Writing.blocked i) = true
is_held _ = false

-- no item on its way is NULL, and no token was taken
pub data IsItem : Writing → Type 0 where
  idle : IsItem Writing.idle
  blocked : {i : Ptr} → i ≢ null → IsItem (Writing.blocked i)
  putting : {i : Ptr} → i ≢ null → IsItem (Writing.putting i)
  posting : IsItem (Writing.posting false)
  counting : IsItem Writing.counting

module _ (B : ItemBuffer) where
  -- `n` - 1 is n_sem: the items that are announced and not claimed. A task waits unwoken exactly if
  -- its semaphore is -1.
  pub record Balanced (s : Stream B) (items : List Ptr) : Type 0 where
    pub holds : B.Holds s.buffer items
    pub n : ℕ
    pub n_level : IsLevel s.n_sem n
    pub n_count : n + announces s.writer + claims s.reader ≡ suc (length items)
    pub cons_waits : (n == 0) ≡ (is_blocked s.reader && not s.cons_woken)
    pub cons_calm : (is_blocked s.reader || not s.cons_woken) ≡ true
    pub item : IsItem s.writer
    pub unpolled : s.is_poll ≡ false

  -- the same of e_sem on an entry stream of a given size
  pub record Bounded (size : ℕ) (s : Stream B) (items : List Ptr) : Type 0 where
    pub is_entry : s.type ≡ entry
    pub small : size < 2 ^ 31
    pub e : ℕ
    pub e_level : IsLevel s.e_sem e
    pub e_count : e + length items + reserves s.writer + releases s.reader ≡ suc size
    pub prod_waits : (e == 0) ≡ (is_held s.writer && not s.prod_woken)
    pub prod_calm : (is_held s.writer || not s.prod_woken) ≡ true

-- what a step does to the items
pub data Flow : Label → List Ptr → List Ptr → Type 0 where
  still : {items : List Ptr} → Flow silent items items
  in_last : {x : Ptr} {items : List Ptr} → Flow (wrote x) items (items ++ x ∷ [])
  out_first : {x : Ptr} {items : List Ptr} → Flow (took x) (x ∷ items) items

module _ (B : ItemBuffer) where
  -- a step that keeps both counts, of a stream of either kind
  pub record Kept (s : Stream B) (items : List Ptr) (r : Label × Stream B) : Type 0 where
    pub after : List Ptr
    pub flow : Flow r.0 items after
    pub balanced : Balanced B r.1 after
    pub bounded : (size : ℕ) → Bounded B size s items → Bounded B size r.1 after

  -- a task that cannot move is blocked and not woken
  pub data Follows (s : Stream B) (items : List Ptr) (is_stuck : Bool)
      : Option (Label × Stream B) → Type 0 where
    stuck : is_stuck ≡ true → Follows s items is_stuck none
    steps :
        {r : Label × Stream B}
        → is_stuck ≡ false
        → Kept s items r
        → Follows s items is_stuck (some r)

  abbrev pub cons_stuck : Stream B → Bool
  cons_stuck s = is_blocked s.reader && not s.cons_woken

  abbrev pub prod_stuck : Stream B → Bool
  prod_stuck s = is_held s.writer && not s.prod_woken

  -- a step that leaves the producer's side alone
  pub Bounded-same :
      {s r : Stream B} {items : List Ptr}
      → r.type ≡ s.type
      → r.e_sem ≡ s.e_sem
      → r.writer ≡ s.writer
      → r.prod_woken ≡ s.prod_woken
      → releases r.reader ≡ releases s.reader
      → (size : ℕ) → Bounded B size s items
      → Bounded B size r items
  Bounded-same type sem at woken release size o = record {
    is_entry = type ∙ o.is_entry;
    small = o.small;
    e = o.e;
    e_level = rw (sem) o.e_level;
    e_count = omega (arith, o.e_count, ap reserves at, release);
    prod_waits = rw (at, woken) o.prod_waits;
    prod_calm = rw (at, woken) o.prod_calm;
  }
