-- ===== src/Hrc/Priority/Tests.antt =====
-- A task with an entry stream and a stream that holds three records.
use my_lpel.Common.{◌≡◌, refl, ◌&&◌, [], ◌∷◌, ◌==◌, if◌then◌else◌, null, ok, fault, overflow}
use my_lpel.Common.Int.{pos, ◌+ℤ◌, ◌-ℤ◌, eqb_ℤ, minus_one, is_int}
use my_lpel.Hrc.World.{World, entry, middle}
use my_lpel.Hrc.Priority.{
  input, count_int, count_int_loop, add_level, level_int, fill_level, uncounted,
}
use my_lpel.Hrc.Priority.Count.{waiting, leads_outside, count_int-waiting, Filled}

abbrev world : World
world = record {
  stream = λ s.
      if s == 1
      then record {
        type = entry;
        prod_sd = null;
        cons_sd = 11;
        read_cnt = pos 0;
        write_cnt = pos 4;
      }
      else record {
        type = middle;
        prod_sd = null;
        cons_sd = 12;
        read_cnt = pos 2;
        write_cnt = pos 5;
      };
  sd = λ x. record { task = 30; stream = if x == 11 then 1 else 2 };
  in_streams = λ t. 11 ∷ 12 ∷ [];
  out_streams = λ t. [];
}

world-Filled : Filled world input (11 ∷ 12 ∷ [])
unfolding fill_level ◌-ℤ◌
world-Filled = (λ e. refl, (λ e. refl, tt))

count_int-waiting_example : count_int world input (11 ∷ 12 ∷ []) ≡ (
    if is_int (waiting world input (11 ∷ 12 ∷ []))
    then ok (
        if leads_outside world input (11 ∷ 12 ∷ [])
          && eqb_ℤ (waiting world input (11 ∷ 12 ∷ [])) (pos 0)
        then minus_one
        else waiting world input (11 ∷ 12 ∷ []))
    else fault overflow)
count_int-waiting_example = count_int-waiting world input 11 (12 ∷ []) world-Filled

count_test : count_int world input (11 ∷ 12 ∷ []) ≡ ok (pos 3)
unfolding count_int count_int_loop add_level level_int uncounted ◌+ℤ◌ ◌-ℤ◌
count_test = refl
