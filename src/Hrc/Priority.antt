-- ===== src/Hrc/Priority.antt =====
-- sched/hierarchy/hrc_task.c: the priority of a task from the fill levels of its streams.
-- count_int counts in C ints, whose overflow is a fault; count_rec and cal_priority are the values
-- of countRec and LpelTaskCalPriority when no int overflows.
pub mod Count
mod Tests
use my_lpel.Common.{
  Bool, true, false, ◌&&◌, ◌||◌, List, [], ◌∷◌, ◌==◌, if◌then◌else◌, Ptr, null, Res, ok, ◌>>=◌,
}
use my_lpel.Common.Int.{ℤ, pos, ◌+ℤ◌, ◌-ℤ◌, ltb_ℤ, eqb_ℤ, minus_one, checked}
use my_lpel.Hrc.World.{StreamType, entry, exit, Stream, World}

-- the `inout` of `countRec`
pub data Side : Type 0 where
  input output : Side

-- the descriptor at the other end of a stream
abbrev far_end : Side → Stream → Ptr
far_end input s = s.prod_sd
far_end output s = s.cons_sd

-- `LpelStreamProducer` and `LpelStreamConsumer` of the stream of a descriptor: the task at the
-- other end, or NULL
pub neighbour : World → Side → Ptr → Ptr
neighbour w side x =
    let s = (w.sd x).stream in
    let far = far_end side (w.stream s) in
    if s == null then null else if far == null then null else (w.sd far).task

-- `LpelStreamFillLevel` of a stream that is not NULL, when it fits in an int
pub fill_level : Stream → ℤ
fill_level s = s.write_cnt -ℤ s.read_cnt

-- an entry stream on the input side, or an exit stream on the output side, is not counted
pub uncounted : Side → StreamType → Bool
uncounted input entry = true
uncounted output exit = true
uncounted _ _ = false

-- the loop of `countRec`, when its sums fit in an int
pub count_loop : World → Side → List Ptr → ℤ → Bool → ℤ × Bool
count_loop w side [] cnt flag = (cnt, flag)
count_loop w side (x ∷ list) cnt flag =
    let s = (w.sd x).stream in
    let skip = uncounted side (w.stream s).type in
    count_loop w side list
      (if s == null then cnt else if skip then cnt else cnt +ℤ fill_level (w.stream s))
      (if s == null then flag else if skip then true else flag)

-- `countRec`
pub count_rec : World → Side → List Ptr → ℤ
unfolding count_loop
count_rec w side [] = minus_one
count_rec w side (x ∷ list) =
    let (cnt, flag) = count_loop w side (x ∷ list) (pos 0) false in
    if flag && eqb_ℤ cnt (pos 0) then minus_one else cnt

-- the same functions in `int`, whose overflow is a fault
pub level_int : Stream → Res ℤ
level_int s = checked (s.write_cnt -ℤ s.read_cnt)

pub add_level : World → Side → Ptr → ℤ → Res ℤ
add_level w side s cnt =
    if s == null || uncounted side (w.stream s).type
    then ok cnt
    else do level ← level_int (w.stream s); checked (cnt +ℤ level)

pub count_int_loop : World → Side → List Ptr → ℤ → Bool → Res (ℤ × Bool)
count_int_loop w side [] cnt flag = ok (cnt, flag)
count_int_loop w side (x ∷ list) cnt flag = do
  let s = (w.sd x).stream
  sum ← add_level w side s cnt
  count_int_loop w side list sum
      (if s == null then flag else if uncounted side (w.stream s).type then true else flag)

pub count_int : World → Side → List Ptr → Res ℤ
count_int w side [] = ok minus_one
count_int w side (x ∷ list) = do
  (cnt, flag) ← count_int_loop w side (x ∷ list) (pos 0) false
  ok (if flag && eqb_ℤ cnt (pos 0) then minus_one else cnt)

-- the settings that priorities depend on: `prior_cal`, `neg_demand_lim`, DBL_MAX and LPEL_DBL_MIN
pub record Settings (D : Type 0) : Type 0 where
  pub prior_cal : ℤ → ℤ → D
  pub neg_demand_lim : ℤ
  pub dbl_max : D
  pub dbl_min : D

-- `LpelTaskCalPriority`
unfoldable pub cal_priority : {D : Type 0} → Settings D → World → Ptr → D
unfolding count_rec
cal_priority c w t =
    let i = count_rec w input (w.in_streams t) in
    let o = count_rec w output (w.out_streams t) in
    if eqb_ℤ i minus_one && ltb_ℤ c.neg_demand_lim o && ltb_ℤ (pos 0) c.neg_demand_lim
    then c.dbl_min
    else c.prior_cal i o
