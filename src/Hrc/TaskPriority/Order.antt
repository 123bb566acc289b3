-- ===== src/Hrc/TaskPriority/Order.antt =====
-- Priorities of tasks with inputs and outputs: a longer input raises them, a longer output lowers
-- them.
use my_lpel.Common.{ℕ, ◌≤◌, ◌≡◌, ap, Bool, true, false, arith, if◌then◌else◌, Double}
use my_lpel.Common.Int.{ℤ, pos, ◌≤ℤ◌, ◌-ℤ◌, eqb_ℤ, minus_one, int_laws}
use my_lpel.Hrc.TaskPriority.{
  Arith, none_as_zero, priorfunc1, priorfunc2, priorfunc3, priorfunc4, priorfunc5, priorfunc6,
  priorfunc7, priorfunc8, priorfunc9, priorfunc10, priorfunc11, priorfunc12, priorfunc14,
  set_priority_func,
}

module _ {D : Type 0} ⦃d : Double D⦄ where
  -- not above, for doubles other than NaN
  abbrev pub le : D → D → Type 0
  le x y = d.lt y x ≡ false

  -- what IEEE 754 says of rounded arithmetic
  pub record IsRounded (a : Arith D) : Type 0 where
    pub le_trans : {x y z : D} → le x y → le y z → le x z
    pub int_le : {m n : ℤ} → m ≤ℤ n → le (a.of_int m) (a.of_int n)
    pub plus_le : {x y : D} → le x y → le (a.plus x a.one) (a.plus y a.one)
    pub one_plus : (n : ℕ) → le a.one (a.plus (a.of_int (pos n)) a.one)
    pub zero_one : le a.zero_double a.one
    pub times_le : {x y : D} → le a.zero_double x → le x y → le (a.times x x) (a.times y y)
    pub times_positive : {x : D} → le a.zero_double x → le a.zero_double (a.times x x)
    pub over_le :
        {x y z w : D}
        → le a.zero_double x
        → le x y
        → le a.one w
        → le w z
        → le (a.over x z) (a.over y w)
    pub over_positive : {x z : D} → le a.zero_double x → le a.one z → le a.zero_double (a.over x z)

  -- higher for more input and less output
  abbrev IsDemand : (ℤ → ℤ → D) → Type 0
  IsDemand f = (i i' o o' : ℕ) → i ≤ i' → o' ≤ o → le (f (pos i) (pos o)) (f (pos i') (pos o'))

  choose-IsDemand :
      (b : Bool) (f g : ℤ → ℤ → D) → IsDemand f → IsDemand g → IsDemand (if b then f else g)
  choose-IsDemand true f g p q = p
  choose-IsDemand false f g p q = q

  module _ (a : Arith D) (r : IsRounded a) where
    abbrev up : ℕ → D
    up n = a.plus (a.of_int (pos n)) a.one

    up_positive : (n : ℕ) → le a.zero_double (up n)
    up_positive n = r.le_trans r.zero_one (r.one_plus n)

    up_le : (m n : ℕ) → m ≤ n → le (up m) (up n)
    up_le m n i = r.plus_le (r.int_le (omega (arith, i)))

    ratio : (i i' o o' : ℕ) → i ≤ i' → o' ≤ o → le (a.over (up i) (up o)) (a.over (up i') (up o'))
    ratio i i' o o' p q = r.over_le (up_positive i) (up_le i i' p) (r.one_plus o') (up_le o' o q)

    square :
        (i i' o o' : ℕ)
        → i ≤ i'
        → o' ≤ o
        → le (a.over (a.times (up i) (up i)) (up o)) (a.over (a.times (up i') (up i')) (up o'))
    square i i' o o' p q =
        r.over_le (r.times_positive (up_positive i)) (r.times_le (up_positive i) (up_le i i' p))
          (r.one_plus o') (up_le o' o q)

    twice :
        (i i' o o' : ℕ)
        → i ≤ i'
        → o' ≤ o
        → le (a.over (a.over (up i) (up o)) (up o)) (a.over (a.over (up i') (up o')) (up o'))
    twice i i' o o' p q =
        r.over_le (r.over_positive (up_positive i) (r.one_plus o)) (ratio i i' o o' p q)
          (r.one_plus o') (up_le o' o q)

    is_counted : (n : ℕ) → eqb_ℤ (pos n) minus_one ≡ false
    is_counted n = ground arith

    none_as_zero-pos : (n : ℕ) → none_as_zero a (pos n) ≡ pos n
    unfolding none_as_zero
    none_as_zero-pos n = rw (is_counted n)

    counted : (i o : ℕ) → (none_as_zero a (pos i) -ℤ none_as_zero a (pos o)) ≡ (pos i -ℤ pos o)
    counted i o = rw (none_as_zero-pos i, none_as_zero-pos o)

    priorfunc14-counted : (i o : ℕ) → priorfunc14 a (pos i) (pos o) ≡ a.of_int (pos i -ℤ pos o)
    unfolding priorfunc14
    priorfunc14-counted i o = ap a.of_int (counted i o)

    difference : IsDemand (priorfunc14 a)
    difference i i' o o' p q =
        rw (priorfunc14-counted i o, priorfunc14-counted i' o') (r.int_le (grind int_laws))

    priorfunc1-IsDemand : IsDemand (priorfunc1 a)
    unfolding priorfunc1
    priorfunc1-IsDemand i i' o o' p q =
        rw (is_counted i, is_counted o, is_counted i', is_counted o') (ratio i i' o o' p q)

    priorfunc2-IsDemand : IsDemand (priorfunc2 a)
    unfolding priorfunc2
    priorfunc2-IsDemand i i' o o' p q =
        rw (is_counted i, is_counted o, is_counted i', is_counted o') (ratio i i' o o' p q)

    priorfunc3-IsDemand : IsDemand (priorfunc3 a)
    unfolding priorfunc3
    priorfunc3-IsDemand i i' o o' p q =
        rw (is_counted i, is_counted o, is_counted i', is_counted o') (ratio i i' o o' p q)

    priorfunc4-IsDemand : IsDemand (priorfunc4 a)
    unfolding priorfunc4
    priorfunc4-IsDemand i i' o o' p q =
        rw (is_counted i, is_counted o, is_counted i', is_counted o') (ratio i i' o o' p q)

    priorfunc5-IsDemand : IsDemand (priorfunc5 a)
    unfolding priorfunc5
    priorfunc5-IsDemand i i' o o' p q =
        rw (is_counted i, is_counted o, is_counted i', is_counted o') (square i i' o o' p q)

    priorfunc6-IsDemand : IsDemand (priorfunc6 a)
    unfolding priorfunc6
    priorfunc6-IsDemand i i' o o' p q =
        rw (is_counted i, is_counted o, is_counted i', is_counted o') (square i i' o o' p q)

    priorfunc7-IsDemand : IsDemand (priorfunc7 a)
    unfolding priorfunc7
    priorfunc7-IsDemand i i' o o' p q =
        rw (is_counted i, is_counted o, is_counted i', is_counted o') (square i i' o o' p q)

    priorfunc8-IsDemand : IsDemand (priorfunc8 a)
    unfolding priorfunc8
    priorfunc8-IsDemand i i' o o' p q =
        rw (is_counted i, is_counted o, is_counted i', is_counted o') (square i i' o o' p q)

    priorfunc9-IsDemand : IsDemand (priorfunc9 a)
    unfolding priorfunc9
    priorfunc9-IsDemand i i' o o' p q =
        rw (is_counted i, is_counted o, is_counted i', is_counted o') (twice i i' o o' p q)

    priorfunc10-IsDemand : IsDemand (priorfunc10 a)
    unfolding priorfunc10
    priorfunc10-IsDemand i i' o o' p q =
        rw (is_counted i, is_counted o, is_counted i', is_counted o') (twice i i' o o' p q)

    priorfunc11-IsDemand : IsDemand (priorfunc11 a)
    unfolding priorfunc11
    priorfunc11-IsDemand i i' o o' p q =
        rw (is_counted i, is_counted o, is_counted i', is_counted o') (twice i i' o o' p q)

    priorfunc12-IsDemand : IsDemand (priorfunc12 a)
    unfolding priorfunc12
    priorfunc12-IsDemand i i' o o' p q =
        rw (is_counted i, is_counted o, is_counted i', is_counted o') (twice i i' o o' p q)

    -- each choice but the random one
    set_priority_func-IsDemand :
        (func : ℤ) → eqb_ℤ func (pos 13) ≡ false → IsDemand (set_priority_func a func)
    unfolding set_priority_func
    set_priority_func-IsDemand func ne = rw (ne) (
        choose-IsDemand (eqb_ℤ func (pos 1)) _ _ priorfunc1-IsDemand (
          choose-IsDemand (eqb_ℤ func (pos 2)) _ _ priorfunc2-IsDemand (
            choose-IsDemand (eqb_ℤ func (pos 3)) _ _ priorfunc3-IsDemand (
              choose-IsDemand (eqb_ℤ func (pos 4)) _ _ priorfunc4-IsDemand (
                choose-IsDemand (eqb_ℤ func (pos 5)) _ _ priorfunc5-IsDemand (
                  choose-IsDemand (eqb_ℤ func (pos 6)) _ _ priorfunc6-IsDemand (
                    choose-IsDemand (eqb_ℤ func (pos 7)) _ _ priorfunc7-IsDemand (
                      choose-IsDemand (eqb_ℤ func (pos 8)) _ _ priorfunc8-IsDemand (
                        choose-IsDemand (eqb_ℤ func (pos 9)) _ _ priorfunc9-IsDemand (
                          choose-IsDemand (eqb_ℤ func (pos 10)) _ _ priorfunc10-IsDemand (
                            choose-IsDemand (eqb_ℤ func (pos 11)) _ _ priorfunc11-IsDemand (
                              choose-IsDemand (eqb_ℤ func (pos 12)) _ _ priorfunc12-IsDemand
                                (difference)))))))))))))

    -- With any choice of priority function but the random one, a task that is neither entry nor
    -- exit gets no lower priority from more input and less output, given that double arithmetic
    -- rounds monotonically.
    pub set_priority_func-le :
        (func : ℤ) (i i' o o' : ℕ)
        → eqb_ℤ func (pos 13) ≡ false
        → i ≤ i'
        → o' ≤ o
        → le (set_priority_func a func (pos i) (pos o)) (set_priority_func a func (pos i') (pos o'))
    set_priority_func-le func i i' o o' ne p q = set_priority_func-IsDemand func ne i i' o o' p q
