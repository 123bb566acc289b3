-- ===== src/Timing/Roundtrip.antt =====
-- Adding a difference to its start.
use my_lpel.Common.{
  ℕ, suc, ◌+◌, ◌-◌, ◌^◌, ◌≤◌, ◌<◌, ◌≡◌, refl, inl, inr, false, arith, ltb, Bool-cases, ok, ◌>>=◌,
  Yields, Yields-of,
}
use my_lpel.Timing.{billion, diff, add, equals}
use my_lpel.Timing.Sums.{time, total, diff-borrowed, diff-plain, add-carried, add-plain}

same_time : (a b c d : ℕ) → a ≡ c → b ≡ d → ok (time a b) ≡ ok (time c d)
same_time a b c d e f = rw (e, f)

-- Adding the difference of two normalised times to the start gives the end, if the start is not
-- after the end, the end is below 2^63 - 1 seconds, and the end is not at a whole second while
-- the start is inside one.
pub add-diff :
    (s n e m : ℕ)
    → n < billion
    → m < billion
    → (m ≡ 0 → n ≡ 0)
    → total s n ≤ total e m
    → e + 1 < 2 ^ 63
    → (diff (time s n) (time e m) >>= add (time s n)) ≡ ok (time e m)
add-diff s n e m i j whole k l = elim (Bool-cases (ltb m n)) [
  | inl lt ↦
      let p : m < n = ground (arith, lt) in
      let q : suc s ≤ e = omega (arith, i, j, k, p) in
      let u : 0 < m = ground (arith, whole, p) in
      rw
        (
          diff-borrowed s n e m p i q (omega (arith, l)),
          add-carried s n (e - (s + 1)) (m + billion - n) (omega (arith, p, i, u)) i
              (omega (arith, p, i)) (omega (arith, q, l)),
        )
        (same_time _ _ e m (omega (arith, q)) (omega (arith, p, i)))
  | inr ge ↦
      let p : n ≤ m = ground (arith, ge) in
      let q : s ≤ e = omega (arith, i, j, k, p) in
      rw
        (
          diff-plain s n e m p j q (omega (arith, l)),
          add-plain s n (e - s) (m - n) (omega (arith, p, j)) (omega (arith, q, l)),
        )
        (same_time _ _ e m (omega (arith, q)) (omega (arith, p)))
]

-- For a start inside a second and an end at a later whole second below 2^63, adding their
-- difference to the start gives a time that is not equal to the end: its nanoseconds are a
-- billion.
pub add-diff_whole :
    (s n e : ℕ)
    → 0 < n
    → n < billion
    → s < e
    → e < 2 ^ 63
    → Yields
        (λ r. (equals r (time e 0) ≡ false) × (r ≡ time (e - 1) billion))
        (diff (time s n) (time e 0) >>= add (time s n))
unfolding equals
add-diff_whole s n e u i k l =
    rw
      (
        diff-borrowed s n e 0 u i k l,
        add-plain s n (e - (s + 1)) (0 + billion - n) (omega (arith, i)) (omega (arith, k, l)),
      )
      (Yields-of _ (same_time _ _ (e - 1) billion (omega (arith, k)) (omega (arith, i)))
        (ground (arith, k), refl))
