-- ===== src/Timing.antt =====
-- timing.c: times as seconds and nanoseconds, signed 64-bit numbers whose overflow is a fault.
pub mod Sums
pub mod Roundtrip
mod Tests
use my_lpel.Common.{
  ℕ, zero, suc, ◌+◌, ◌-◌, ◌*◌, ◌/◌, ◌%◌, ◌^◌, ◌≤◌, ◌<◌, ◌≡◌, ◌≢◌, ◌↔◌, refl, sym, ap, ◌∙◌, inl, inr,
  ◌⊎◌, Bool, true, false, not, ◌&&◌, ◌||◌, Option, none, some, List, [], ◌∷◌, ◌++◌, map, arith, ltb,
  leb, ◌==◌, if◌then◌else◌, Bool-cases, ==-true, ==-false, ==-refl, ==-ne, ltb-true, ltb-false, Res,
  ok, fault, Fault, segv, assertion, overflow, fuel, ◌>>=◌, ◌>>◌, assert, Yields, yields,
  Yields-bind, Yields-map, Yields-open, Yields-of, Yields-at, hit, update, update_self, occurs,
  occurs-suc, occurs-at, occurs-twice, occurs-update, occurs-update_above, occurs-index, Double,
  Ptr, null,
}
use my_lpel.Common.Int.{ℤ, pos, negsuc, ◌+ℤ◌, ◌-ℤ◌, ltb_ℤ, eqb_ℤ}

-- `TIMING_BILLION`
abbrev pub billion : ℕ
billion = 1000000000

-- `lpel_timing_t`
pub record Timing : Type 0 where
  pub tv_sec : ℤ
  pub tv_nsec : ℤ

-- a `long` result
pub long : ℤ → Res ℤ
long (pos n) = if ltb n (2 ^ 63) then ok (pos n) else fault overflow
long (negsuc n) = if ltb n (2 ^ 63) then ok (negsuc n) else fault overflow

pub add_long : ℤ → ℤ → Res ℤ
add_long a b = long (a +ℤ b)

pub sub_long : ℤ → ℤ → Res ℤ
sub_long a b = long (a -ℤ b)

-- the borrow of `LpelTimingDiff`: a start whose nanoseconds are not above the end's
pub borrow : Timing → Timing → Res Timing
borrow start end =
    let lend : Res Timing = do
      nsec ← sub_long start.tv_nsec (pos billion)
      sec ← add_long start.tv_sec (pos 1)
      ok (record { tv_sec = sec; tv_nsec = nsec })
    in if ltb_ℤ end.tv_nsec start.tv_nsec then lend else ok start

-- `LpelTimingDiff`
pub diff : Timing → Timing → Res Timing
diff start end = do
  res ← borrow start end
  nsec ← sub_long end.tv_nsec res.tv_nsec
  sec ← sub_long end.tv_sec res.tv_sec
  ok (record { tv_sec = sec; tv_nsec = nsec })

-- `LpelTimingEnd`; `now` is the clock's time
pub end : Timing → Timing → Res Timing
end now t = diff t now

-- `LpelTimingAdd`
pub add : Timing → Timing → Res Timing
add t val = do
  sec ← add_long t.tv_sec val.tv_sec
  nsec ← add_long t.tv_nsec val.tv_nsec
  let carry : Res Timing = do
    n ← sub_long nsec (pos billion)
    s ← add_long sec (pos 1)
    ok (record { tv_sec = s; tv_nsec = n })
  if ltb_ℤ (pos billion) nsec then carry else ok (record { tv_sec = sec; tv_nsec = nsec })

-- `LpelTimingSet`
pub set : Timing → Timing → Timing
set t val = record { tv_sec = val.tv_sec; tv_nsec = val.tv_nsec }

-- `LpelTimingZero`
pub zero_time : Timing
zero_time = record { tv_sec = pos 0; tv_nsec = pos 0 }

-- `LpelTimingEquals`
pub equals : Timing → Timing → Bool
equals a b = eqb_ℤ a.tv_sec b.tv_sec && eqb_ℤ a.tv_nsec b.tv_nsec
