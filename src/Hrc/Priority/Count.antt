-- ===== src/Hrc/Priority/Count.antt =====
-- The count of the records that wait in a task's streams.
use my_lpel.Common.{
  ◌≡◌, refl, inl, inr, Bool, true, false, not, ◌&&◌, ◌||◌, List, [], ◌∷◌, ◌==◌, if◌then◌else◌,
  Bool-cases, Ptr, null, Res, ok, fault, overflow, ◌>>=◌, arith,
}
use my_lpel.Common.Int.{
  ℤ, pos, ◌+ℤ◌, eqb_ℤ, minus_one, checked, int_laws, eq_of_parts, is_int, neg_part,
}
use my_lpel.Hrc.World.{World}
use my_lpel.Hrc.Priority.{
  Side, fill_level, uncounted, count_loop, count_rec, level_int, add_level, count_int_loop,
  count_int,
}

-- the streams of a list that are counted: open ones that do not lead outside
abbrev pub is_counted : World → Side → Ptr → Bool
is_counted w side x =
    let s = (w.sd x).stream in not (s == null) && not (uncounted side (w.stream s).type)

-- those that lead outside
abbrev pub is_outside : World → Side → Ptr → Bool
is_outside w side x = let s = (w.sd x).stream in not (s == null) && uncounted side (w.stream s).type

-- the sum of the fill levels of the counted streams
pub waiting : World → Side → List Ptr → ℤ
waiting w side [] = pos 0
waiting w side (x ∷ list) =
    let rest = waiting w side list in
    if is_counted w side x then fill_level (w.stream ((w.sd x).stream)) +ℤ rest else rest

pub leads_outside : World → Side → List Ptr → Bool
leads_outside w side [] = false
leads_outside w side (x ∷ list) = is_outside w side x || leads_outside w side list

sum_assoc : (a b c : ℤ) → a +ℤ b +ℤ c ≡ a +ℤ (b +ℤ c)
sum_assoc a b c = eq_of_parts _ _ (grind int_laws)

sum_zero : (a : ℤ) → a +ℤ pos 0 ≡ a
sum_zero a = eq_of_parts _ _ (grind int_laws)

zero_sum : (a : ℤ) → pos 0 +ℤ a ≡ a
zero_sum a = eq_of_parts _ _ (grind int_laws)

or_false : (b : Bool) → b || false ≡ b
or_false true = refl
or_false false = refl

or_true : (b : Bool) → b || true ≡ true
or_true true = refl
or_true false = refl

count_loop-sum :
    (w : World) (side : Side) (list : List Ptr) (cnt : ℤ) (flag : Bool)
    → count_loop w side list cnt flag
      ≡ (cnt +ℤ waiting w side list, flag || leads_outside w side list)
unfolding count_loop waiting leads_outside
count_loop-sum w side [] cnt flag = rw (sum_zero cnt, or_false flag)
count_loop-sum w side (x ∷ list) cnt flag = elim (Bool-cases ((w.sd x).stream == null)) [
  | inl e ↦ rw e (count_loop-sum w side list cnt flag)
  | inr e ↦ elim (Bool-cases (uncounted side (w.stream ((w.sd x).stream)).type)) [
    | inl u ↦ rw (e, u, or_true flag) (count_loop-sum w side list cnt true)
    | inr u ↦
        rw (e, u, ← sum_assoc cnt (fill_level (w.stream ((w.sd x).stream))) (waiting w side list))
          (count_loop-sum w side list (cnt +ℤ fill_level (w.stream ((w.sd x).stream))) flag)
  ]
]

count_rec_lem :
    (w : World) (side : Side) (x : Ptr) (list : List Ptr)
    → count_rec w side (x ∷ list) ≡ (
        if leads_outside w side (x ∷ list) && eqb_ℤ (waiting w side (x ∷ list)) (pos 0)
        then minus_one
        else waiting w side (x ∷ list))
unfolding count_rec
count_rec_lem w side x list =
    rw (count_loop-sum w side (x ∷ list) (pos 0) false, zero_sum (waiting w side (x ∷ list)))

-- no counted stream has been read more often than written
abbrev pub Filled : World → Side → List Ptr → Type 0
Filled w side [] = Unit
Filled w side (x ∷ list) =
    (is_counted w side x ≡ true → neg_part (fill_level (w.stream ((w.sd x).stream))) ≡ 0)
    × Filled w side list

waiting_pos :
    (w : World) (side : Side) (list : List Ptr)
    → Filled w side list
    → neg_part (waiting w side list) ≡ 0
unfolding waiting
waiting_pos w side [] f = refl
waiting_pos w side (x ∷ list) (f, fs) = elim (Bool-cases (is_counted w side x)) [
  | inl e ↦ rw e (grind (int_laws, f e, waiting_pos w side list fs))
  | inr e ↦ rw e (waiting_pos w side list fs)
]

-- the loop in `int` from a sum that is not negative
loop_result : ℤ → Bool → Res (ℤ × Bool)
loop_result sum flag = if is_int sum then ok (sum, flag) else fault overflow

too_much :
    (a b c : ℤ)
    → neg_part a ≡ 0
    → neg_part b ≡ 0
    → neg_part c ≡ 0
    → is_int b ≡ false
    → is_int (a +ℤ (b +ℤ c)) ≡ false
unfolding ◌+ℤ◌
too_much a b c p q r h = ground arith

too_much_sum :
    (a b c : ℤ)
    → neg_part a ≡ 0
    → neg_part b ≡ 0
    → neg_part c ≡ 0
    → is_int (a +ℤ b) ≡ false
    → is_int (a +ℤ (b +ℤ c)) ≡ false
unfolding ◌+ℤ◌
too_much_sum a b c p q r h = ground arith

sum_pos : (a b : ℤ) → neg_part a ≡ 0 → neg_part b ≡ 0 → neg_part (a +ℤ b) ≡ 0
unfolding ◌+ℤ◌
sum_pos a b p q = ground arith

-- one round of the loop, for a stream that is counted
add_checked :
    (cnt level rest : ℤ) (flag : Bool) (k : ℤ → Res (ℤ × Bool))
    → neg_part cnt ≡ 0
    → neg_part level ≡ 0
    → neg_part rest ≡ 0
    → (is_int (cnt +ℤ level) ≡ true → k (cnt +ℤ level) ≡ loop_result (cnt +ℤ level +ℤ rest) flag)
    → (checked level >>= λ v. checked (cnt +ℤ v)) >>= k ≡ loop_result (cnt +ℤ (level +ℤ rest)) flag
unfolding loop_result
add_checked cnt level rest flag k p q r h = elim (Bool-cases (is_int level)) [
  | inr big ↦ rw (big, too_much cnt level rest p q r big) refl
  | inl fits ↦ elim (Bool-cases (is_int (cnt +ℤ level))) [
    | inr big ↦ rw (fits, big, too_much_sum cnt level rest p q r big) refl
    | inl fits' ↦ rw (fits, fits', h fits', sum_assoc cnt level rest) refl
  ]
]

count_int_loop-sum :
    (w : World) (side : Side) (list : List Ptr) (cnt : ℤ) (flag : Bool)
    → Filled w side list
    → neg_part cnt ≡ 0
    → is_int cnt ≡ true
    → count_int_loop w side list cnt flag
      ≡ loop_result (cnt +ℤ waiting w side list) (flag || leads_outside w side list)
unfolding count_int_loop waiting leads_outside loop_result add_level level_int fill_level
count_int_loop-sum w side [] cnt flag f p q = rw (sum_zero cnt, or_false flag, q) refl
count_int_loop-sum w side (x ∷ list) cnt flag (f, fs) p q =
    elim (Bool-cases ((w.sd x).stream == null)) [
      | inl e ↦ rw e (count_int_loop-sum w side list cnt flag fs p q)
      | inr e ↦ elim (Bool-cases (uncounted side (w.stream ((w.sd x).stream)).type)) [
        | inl u ↦ rw (e, u, or_true flag) (count_int_loop-sum w side list cnt true fs p q)
        | inr u ↦
            let l = fill_level (w.stream ((w.sd x).stream)) in
            let level_pos : neg_part l ≡ 0 = f (rw (e, u) refl) in
            rw (e, u)
              (add_checked cnt l (waiting w side list) (flag || leads_outside w side list)
                (λ sum. count_int_loop w side list sum flag) p level_pos
                (waiting_pos w side list fs)
                λ fits.
                  count_int_loop-sum w side list (cnt +ℤ l) flag fs (sum_pos cnt l p level_pos)
                    fits)
      ]
    ]

-- Counted in C ints, the records on one side of a task with streams there, none of which was read
-- more often than written, come to the sum of the fill levels of its open streams that do not
-- lead outside, or -1 if that is 0 and a stream leads outside, if the sum fits in an int, and to
-- a signed overflow if not.
pub count_int-waiting :
    (w : World) (side : Side) (x : Ptr) (list : List Ptr)
    → Filled w side (x ∷ list)
    → count_int w side (x ∷ list) ≡ (
        if is_int (waiting w side (x ∷ list))
        then ok (
            if leads_outside w side (x ∷ list) && eqb_ℤ (waiting w side (x ∷ list)) (pos 0)
            then minus_one
            else waiting w side (x ∷ list))
        else fault overflow)
unfolding count_int loop_result
count_int-waiting w side x list f = elim (Bool-cases (is_int (waiting w side (x ∷ list)))) [
  | inl e ↦
      rw
        (
          count_int_loop-sum w side (x ∷ list) (pos 0) false f refl refl,
          zero_sum (waiting w side (x ∷ list)),
          e,
        )
        refl
  | inr e ↦
      rw
        (
          count_int_loop-sum w side (x ∷ list) (pos 0) false f refl refl,
          zero_sum (waiting w side (x ∷ list)),
          e,
        )
        refl
]

-- the value of countRec, when no int overflows
pub count_int-count_rec :
    (w : World) (side : Side) (x : Ptr) (list : List Ptr)
    → Filled w side (x ∷ list)
    → is_int (waiting w side (x ∷ list)) ≡ true
    → count_int w side (x ∷ list) ≡ ok (count_rec w side (x ∷ list))
count_int-count_rec w side x list f fits =
    rw (count_int-waiting w side x list f, fits, count_rec_lem w side x list) refl
