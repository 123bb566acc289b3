-- ===== src/Timing/Tests.antt =====
-- A second and a half, and three seconds.
use my_lpel.Common.{◌-◌, ◌≡◌, refl, false, arith, ok, ◌>>=◌, Yields}
use my_lpel.Common.Int.{◌-ℤ◌}
use my_lpel.Timing.{billion, long, sub_long, borrow, diff, end, add, set, zero_time, equals}
use my_lpel.Timing.Sums.{time, total, IsTotal, diff-IsTotal}
use my_lpel.Timing.Roundtrip.{add-diff, add-diff_whole}

diff-IsTotal_example :
    Yields (IsTotal billion (total 3 0 - total 1 500000000)) (diff (time 1 500000000) (time 3 0))
diff-IsTotal_example =
    diff-IsTotal 1 500000000 3 0 (omega arith) (omega arith) (omega arith) (omega arith)

add-diff_example :
    (diff (time 1 500000000) (time 3 200000000) >>= add (time 1 500000000)) ≡ ok (time 3 200000000)
add-diff_example =
    add-diff 1 500000000 3 200000000 (omega arith) (omega arith) (λ e. omega (arith, e))
      (omega arith) (omega arith)

add-diff_whole_example :
    Yields
      (λ r. (equals r (time 3 0) ≡ false) × (r ≡ time 2 billion))
      (diff (time 1 500000000) (time 3 0) >>= add (time 1 500000000))
add-diff_whole_example =
    add-diff_whole 1 500000000 3 (omega arith) (omega arith) (omega arith) (omega arith)

end_test : end (time 3 0) (time 1 0) ≡ ok (time 2 0)
unfolding end diff borrow sub_long long ◌-ℤ◌
end_test = refl

set_test : set zero_time (time 3 1) ≡ time 3 1
unfolding set
set_test = refl
