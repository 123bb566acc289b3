-- ===== src/Hrc/TaskPriority/Tests.antt =====
-- Priorities over the natural numbers, with the division that rounds down.
use my_lpel.Common.{ℕ, ◌+◌, ◌*◌, ◌/◌, ◌≤◌, ◌≡◌, refl, false, arith, ltb}
use native.Mathlib.Nat.{mul-le-mul_left, mul-le-mul_right, le-div_iff_mul-le, div-mul-le_self}
use my_lpel.Common.{nat_double}
use my_lpel.Common.Int.{ℤ, pos, pos_part, ◌≤ℤ◌, minus_one}
use my_lpel.Hrc.TaskPriority.{Arith, none_as_zero, priorfunc3, priorfunc9, set_priority_func}
use my_lpel.Hrc.TaskPriority.Order.{le, IsRounded, set_priority_func-le}

abbrev nat_arith : Arith ℕ
nat_arith = record {
  of_int = pos_part;
  zero_double = 0;
  one = 1;
  plus = λ x y. x + y;
  times = λ x y. x * y;
  over = λ x y. x / y;
  dbl_max = 1000;
  rand = pos 3;
}

abbrev Below : ℕ → ℕ → Type 0
Below x y = ltb y x ≡ false

of_Below : (x y : ℕ) → Below x y → x ≤ y
of_Below x y h = ground (arith, h)

to_Below : (x y : ℕ) → x ≤ y → Below x y
to_Below x y h = ground (arith, h)

trans_le : (x y z : ℕ) → x ≤ y → y ≤ z → x ≤ z
trans_le x y z p q = omega (arith, p, q)

times_le : (x y : ℕ) → x ≤ y → x * x ≤ y * y
times_le x y p = trans_le (x * x) (x * y) (y * y) (mul-le-mul_left x p) (mul-le-mul_right y p)

over_le : (x y z w : ℕ) → x ≤ y → 1 ≤ w → w ≤ z → x / z ≤ y / w
over_le x y z w p q r = (le-div_iff_mul-le {k = w} {x = x / z} {y = y} q).1 (
    trans_le (x / z * w) (x / z * z) y (mul-le-mul_left (x / z) r)
      (trans_le (x / z * z) x y (div-mul-le_self x z) p))

int_le : (m n : ℤ) → m ≤ℤ n → pos_part m ≤ pos_part n
int_le m n h = ground (arith, h)

nat_arith-IsRounded : IsRounded nat_arith
nat_arith-IsRounded = record {
  le_trans = λ {x} {y} {z} p q. to_Below x z (trans_le x y z (of_Below x y p) (of_Below y z q));
  int_le = λ {m} {n} h. to_Below (pos_part m) (pos_part n) (int_le m n h);
  plus_le = λ {x} {y} p. to_Below (x + 1) (y + 1) (omega (arith, of_Below x y p));
  one_plus = λ n. to_Below 1 (n + 1) (omega arith);
  zero_one = refl;
  times_le = λ {x} {y} p q. to_Below (x * x) (y * y) (times_le x y (of_Below x y q));
  times_positive = λ {x} p. to_Below 0 (x * x) (omega arith);
  over_le = λ {x} {y} {z} {w} p q r s.
      to_Below (x / z) (y / w) (over_le x y z w (of_Below x y q) (of_Below 1 w r) (of_Below w z s));
  over_positive = λ {x} {z} p q. to_Below 0 (x / z) (omega arith);
}

set_priority_func-le_example :
    le
      (set_priority_func nat_arith (pos 5) (pos 2) (pos 4))
      (set_priority_func nat_arith (pos 5) (pos 7) (pos 1))
set_priority_func-le_example =
    set_priority_func-le nat_arith nat_arith-IsRounded (pos 5) 2 7 4 1 refl (omega arith)
      (omega arith)

entry_test : priorfunc3 nat_arith minus_one minus_one ≡ 1
unfolding priorfunc3 none_as_zero
entry_test = refl

middle_test : priorfunc9 nat_arith (pos 11) (pos 1) ≡ 3
unfolding priorfunc9
middle_test = refl
