-- ===== src/Hrc/TaskPriority.antt =====
-- sched/hierarchy/taskpriority.c and the choice between its functions in hrc_task.c.
pub mod Order
mod Tests
use my_lpel.Common.{
  ℕ, zero, suc, ◌+◌, ◌-◌, ◌*◌, ◌/◌, ◌%◌, ◌^◌, ◌≤◌, ◌<◌, ◌≡◌, ◌≢◌, ◌↔◌, refl, sym, ap, ◌∙◌, inl, inr,
  ◌⊎◌, Bool, true, false, not, ◌&&◌, ◌||◌, Option, none, some, List, [], ◌∷◌, ◌++◌, map, arith, ltb,
  leb, ◌==◌, if◌then◌else◌, Bool-cases, ==-true, ==-false, ==-refl, ==-ne, ltb-true, ltb-false, Res,
  ok, fault, Fault, segv, assertion, overflow, fuel, ◌>>=◌, ◌>>◌, assert, Yields, yields,
  Yields-bind, Yields-map, Yields-open, Yields-of, Yields-at, hit, update, update_self, occurs,
  occurs-suc, occurs-at, occurs-twice, occurs-update, occurs-update_above, occurs-index, Double,
  Ptr, null,
}
use my_lpel.Common.Int.{ℤ, pos, ◌-ℤ◌, eqb_ℤ, minus_one}

-- the arithmetic of C doubles that priorities use, and what `rand` returns
pub record Arith (D : Type 0) : Type 0 where
  pub of_int : ℤ → D
  pub zero_double : D
  pub one : D
  pub plus : D → D → D
  pub times : D → D → D
  pub over : D → D → D
  pub dbl_max : D
  pub rand : ℤ

module _ {D : Type 0} (a : Arith D) where
  -- `n + 1.0`
  abbrev pub plus_one : ℤ → D
  plus_one n = a.plus (a.of_int n) a.one

  -- `(n == -1 ? 0 : n)`
  pub none_as_zero : ℤ → ℤ
  none_as_zero n = if eqb_ℤ n minus_one then pos 0 else n

  pub priorfunc1 : ℤ → ℤ → D
  priorfunc1 i o =
      if eqb_ℤ i minus_one
      then a.zero_double
      else if eqb_ℤ o minus_one
      then a.dbl_max
      else a.over (plus_one i) (plus_one o)

  pub priorfunc2 : ℤ → ℤ → D
  priorfunc2 i o =
      if eqb_ℤ i minus_one
      then a.zero_double
      else if eqb_ℤ o minus_one
      then plus_one i
      else a.over (plus_one i) (plus_one o)

  pub priorfunc3 : ℤ → ℤ → D
  priorfunc3 i o =
      if eqb_ℤ i minus_one
      then a.over a.one (a.plus a.one (a.of_int (none_as_zero o)))
      else if eqb_ℤ o minus_one
      then a.dbl_max
      else a.over (plus_one i) (plus_one o)

  pub priorfunc4 : ℤ → ℤ → D
  priorfunc4 i o =
      if eqb_ℤ i minus_one
      then a.over a.one (a.plus a.one (a.of_int (none_as_zero o)))
      else if eqb_ℤ o minus_one
      then plus_one i
      else a.over (plus_one i) (plus_one o)

  pub priorfunc5 : ℤ → ℤ → D
  priorfunc5 i o =
      if eqb_ℤ i minus_one
      then a.zero_double
      else if eqb_ℤ o minus_one
      then a.dbl_max
      else a.over (a.times (plus_one i) (plus_one i)) (plus_one o)

  pub priorfunc6 : ℤ → ℤ → D
  priorfunc6 i o =
      if eqb_ℤ i minus_one
      then a.zero_double
      else if eqb_ℤ o minus_one
      then a.times (plus_one i) (plus_one i)
      else a.over (a.times (plus_one i) (plus_one i)) (plus_one o)

  pub priorfunc7 : ℤ → ℤ → D
  priorfunc7 i o =
      if eqb_ℤ i minus_one
      then a.over a.one (a.plus a.one (a.of_int (none_as_zero o)))
      else if eqb_ℤ o minus_one
      then a.dbl_max
      else a.over (a.times (plus_one i) (plus_one i)) (plus_one o)

  pub priorfunc8 : ℤ → ℤ → D
  priorfunc8 i o =
      if eqb_ℤ i minus_one
      then a.over a.one (a.plus a.one (a.of_int (none_as_zero o)))
      else if eqb_ℤ o minus_one
      then a.times (plus_one i) (plus_one i)
      else a.over (a.times (plus_one i) (plus_one i)) (plus_one o)

  pub priorfunc9 : ℤ → ℤ → D
  priorfunc9 i o =
      if eqb_ℤ i minus_one
      then a.zero_double
      else if eqb_ℤ o minus_one
      then a.dbl_max
      else a.over (a.over (plus_one i) (plus_one o)) (plus_one o)

  pub priorfunc10 : ℤ → ℤ → D
  priorfunc10 i o =
      if eqb_ℤ i minus_one
      then a.zero_double
      else if eqb_ℤ o minus_one
      then plus_one i
      else a.over (a.over (plus_one i) (plus_one o)) (plus_one o)

  pub priorfunc11 : ℤ → ℤ → D
  priorfunc11 i o =
      if eqb_ℤ i minus_one
      then a.over (a.over a.one (a.plus a.one (a.of_int (none_as_zero o))))
          (plus_one (none_as_zero o))
      else if eqb_ℤ o minus_one
      then a.dbl_max
      else a.over (a.over (plus_one i) (plus_one o)) (plus_one o)

  pub priorfunc12 : ℤ → ℤ → D
  priorfunc12 i o =
      if eqb_ℤ i minus_one
      then a.over (a.over a.one (a.plus a.one (a.of_int (none_as_zero o))))
          (plus_one (none_as_zero o))
      else if eqb_ℤ o minus_one
      then plus_one i
      else a.over (a.over (plus_one i) (plus_one o)) (plus_one o)

  pub priorfunc13 : ℤ → ℤ → D
  priorfunc13 i o = a.of_int a.rand

  pub priorfunc14 : ℤ → ℤ → D
  priorfunc14 i o = a.of_int (none_as_zero i -ℤ none_as_zero o)

  -- `LpelTaskSetPriorityFunc`: the function that it stores in `prior_cal`
  pub set_priority_func : ℤ → ℤ → ℤ → D
  set_priority_func func =
      if eqb_ℤ func (pos 1)
      then priorfunc1
      else if eqb_ℤ func (pos 2)
      then priorfunc2
      else if eqb_ℤ func (pos 3)
      then priorfunc3
      else if eqb_ℤ func (pos 4)
      then priorfunc4
      else if eqb_ℤ func (pos 5)
      then priorfunc5
      else if eqb_ℤ func (pos 6)
      then priorfunc6
      else if eqb_ℤ func (pos 7)
      then priorfunc7
      else if eqb_ℤ func (pos 8)
      then priorfunc8
      else if eqb_ℤ func (pos 9)
      then priorfunc9
      else if eqb_ℤ func (pos 10)
      then priorfunc10
      else if eqb_ℤ func (pos 11)
      then priorfunc11
      else if eqb_ℤ func (pos 12)
      then priorfunc12
      else if eqb_ℤ func (pos 13)
      then priorfunc13
      else priorfunc14
