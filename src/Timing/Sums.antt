-- ===== src/Timing/Sums.antt =====
-- Sums and differences of times.
use my_lpel.Common.{
  ℕ, suc, ◌+◌, ◌-◌, ◌*◌, ◌^◌, ◌≤◌, ◌<◌, ◌≡◌, refl, inl, inr, true, false, arith, ltb, Bool-cases,
  ltb-true, ok, Yields, yields,
}
use my_lpel.Common.Int.{pos, ◌+ℤ◌, ◌-ℤ◌, ltb_ℤ, int_laws, eq_of_parts}
use my_lpel.Timing.{billion, Timing, long, add_long, sub_long, borrow, diff, add}

abbrev pub time : ℕ → ℕ → Timing
time sec nsec = record { tv_sec = pos sec; tv_nsec = pos nsec }

long-ok : (n : ℕ) → n < 2 ^ 63 → long (pos n) ≡ ok (pos n)
unfolding long
long-ok n i = rw (ltb-true n (2 ^ 63) i)

add_long-pos : (a b : ℕ) → a + b < 2 ^ 63 → add_long (pos a) (pos b) ≡ ok (pos (a + b))
unfolding add_long
add_long-pos a b i =
    rw (eq_of_parts (pos a +ℤ pos b) (pos (a + b)) (grind int_laws)) (long-ok (a + b) i)

sub_long-pos : (a b : ℕ) → b ≤ a → a < 2 ^ 63 → sub_long (pos a) (pos b) ≡ ok (pos (a - b))
unfolding sub_long
sub_long-pos a b j i =
    rw (eq_of_parts (pos a -ℤ pos b) (pos (a - b)) (grind int_laws))
      (long-ok (a - b) (omega (arith, i)))

-- nanoseconds, of a time that is not negative
abbrev pub total : ℕ → ℕ → ℕ
total sec nsec = sec * billion + nsec

-- the nanoseconds that `borrow` leaves, taken from the end's
lent : (m n : ℕ) → m < n → n < billion → (pos m -ℤ (pos n -ℤ pos billion)) ≡ pos (m + billion - n)
lent m n i j =
    eq_of_parts (pos m -ℤ (pos n -ℤ pos billion)) (pos (m + billion - n)) (grind int_laws)

lend-sub : (n : ℕ) → n < billion → sub_long (pos n) (pos billion) ≡ ok (pos n -ℤ pos billion)
unfolding sub_long long ◌-ℤ◌
lend-sub n i = ground (arith, i)

lent-sub :
    (m n : ℕ)
    → m < n
    → n < billion
    → sub_long (pos m) (pos n -ℤ pos billion) ≡ ok (pos (m + billion - n))
unfolding sub_long
lent-sub m n i j = rw (lent m n i j) (long-ok (m + billion - n) (omega (arith, i, j)))

is_later : (m n : ℕ) → m < n → ltb_ℤ (pos m) (pos n) ≡ true
is_later m n i = ground (arith, i)

not_later : (m n : ℕ) → n ≤ m → ltb_ℤ (pos m) (pos n) ≡ false
not_later m n i = ground (arith, i)

pub diff-borrowed :
    (s n e m : ℕ)
    → m < n
    → n < billion
    → suc s ≤ e
    → e < 2 ^ 63
    → diff (time s n) (time e m) ≡ ok (time (e - (s + 1)) (m + billion - n))
unfolding diff borrow
diff-borrowed s n e m i j k l = rw (
  is_later m n i,
  lend-sub n j,
  add_long-pos s 1 (omega (arith, k, l)),
  lent-sub m n i j,
  sub_long-pos e (s + 1) (omega (arith, k)) l,
)

pub diff-plain :
    (s n e m : ℕ)
    → n ≤ m
    → m < billion
    → s ≤ e
    → e < 2 ^ 63
    → diff (time s n) (time e m) ≡ ok (time (e - s) (m - n))
unfolding diff borrow
diff-plain s n e m i j k l =
    rw (not_later m n i, sub_long-pos m n i (omega (arith, j)), sub_long-pos e s k l)

-- a time that is not negative and whose nanoseconds are below a bound
pub record IsTotal (bound nanoseconds : ℕ) (t : Timing) : Type 0 where
  pub sec : ℕ
  pub nsec : ℕ
  pub is : t ≡ time sec nsec
  pub small : nsec < bound
  pub sums : total sec nsec ≡ nanoseconds

-- The difference of two normalised times that are not negative, the start not after the end and
-- the end below 2^63 seconds, is normalised and has exactly the nanoseconds between them.
pub diff-IsTotal :
    (s n e m : ℕ)
    → n < billion
    → m < billion
    → total s n ≤ total e m
    → e < 2 ^ 63
    → Yields (IsTotal billion (total e m - total s n)) (diff (time s n) (time e m))
diff-IsTotal s n e m i j k l = elim (Bool-cases (ltb m n)) [
  | inl lt ↦
      let p : m < n = ground (arith, lt) in
      rw (diff-borrowed s n e m p i (omega (arith, i, j, k, p)) l) (
        yields (record {
          sec = e - (s + 1);
          nsec = m + billion - n;
          is = refl;
          small = omega (arith, p, i);
          sums = omega (arith, i, j, k, p);
        }))
  | inr ge ↦
      let p : n ≤ m = ground (arith, ge) in
      rw (diff-plain s n e m p j (omega (arith, i, j, k, p)) l) (
        yields (record {
          sec = e - s;
          nsec = m - n;
          is = refl;
          small = omega (arith, p, j);
          sums = omega (arith, i, j, k, p);
        }))
]

pub add-carried :
    (s n t k : ℕ)
    → billion < n + k
    → n < billion
    → k < billion
    → s + t + 1 < 2 ^ 63
    → add (time s n) (time t k) ≡ ok (time (s + t + 1) (n + k - billion))
unfolding add
add-carried s n t k i j j' l = rw (
  add_long-pos s t (omega (arith, l)),
  add_long-pos n k (omega (arith, j, j')),
  is_later billion (n + k) i,
  sub_long-pos (n + k) billion (omega (arith, i)) (omega (arith, j, j')),
  add_long-pos (s + t) 1 l,
)

pub add-plain :
    (s n t k : ℕ)
    → n + k ≤ billion
    → s + t < 2 ^ 63
    → add (time s n) (time t k) ≡ ok (time (s + t) (n + k))
unfolding add
add-plain s n t k i l =
    rw (add_long-pos s t l, add_long-pos n k (omega (arith, i)), not_later billion (n + k) i)

-- The sum of two normalised times that are not negative, whose seconds and one more are below
-- 2^63, has exactly the nanoseconds of both, with at most a billion in the nanosecond field.
pub add-IsTotal :
    (s n t k : ℕ)
    → n < billion
    → k < billion
    → s + t + 1 < 2 ^ 63
    → Yields (IsTotal (billion + 1) (total s n + total t k)) (add (time s n) (time t k))
add-IsTotal s n t k i j l = elim (Bool-cases (ltb billion (n + k))) [
  | inl lt ↦
      let p : billion < n + k = ground (arith, lt) in
      rw (add-carried s n t k p i j l) (
        yields (record {
          sec = s + t + 1;
          nsec = n + k - billion;
          is = refl;
          small = omega (arith, p, i, j);
          sums = omega (arith, p);
        }))
  | inr ge ↦
      let p : n + k ≤ billion = ground (arith, ge) in
      rw (add-plain s n t k p (omega (arith, l))) (
        yields (record {
          sec = s + t;
          nsec = n + k;
          is = refl;
          small = omega (arith, p);
          sums = omega arith;
        }))
]
