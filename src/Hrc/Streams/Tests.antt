-- ===== src/Hrc/Streams/Tests.antt =====
-- An entry stream of size 1 over a buffer that is a plain list.
use my_lpel.Common.{
  ◌+◌, ◌≡◌, ◌≢◌, refl, ap, Bool, true, false, ◌&&◌, ◌||◌, some, List, [], ◌∷◌, ◌++◌, arith, ◌==◌,
  ==-ne, ok, Yields, yields, Ptr, null,
}
use my_lpel.Common.Int.{pos, negsuc}
use my_lpel.Common.Lists.{length}
use my_lpel.ItemBuffer.{ItemBuffer}
use my_lpel.Hrc.World.{entry}
use my_lpel.Hrc.Streams.{
  count_up, fits_more, fetch_inc, fetch_dec, is_entry, Reading, Writing, Stream, silent, wrote,
  took, read_step, write_step, read_at, write_at, read_enter, read_take, write_enter, write_put,
  write_post,
}
use my_lpel.Hrc.Streams.Balance.{
  short, at_least, announces, releases, IsItem, Balanced, Bounded, Follows, cons_stuck, prod_stuck,
}
use my_lpel.Hrc.Streams.Read.{read_step-Follows}
use my_lpel.Hrc.Streams.Post.{write_step-Follows}
use my_lpel.Hrc.Streams.Run.{
  Run, start, reads, writes, Arrived, run-Arrived, run-all_read, run-all_full, run-not_stuck,
}

abbrev first : List Ptr → Ptr
first [] = null
first (x ∷ items) = x

abbrev rest : List Ptr → List Ptr
rest [] = []
rest (x ∷ items) = items

abbrev no_items : List Ptr → Bool
no_items [] = true
no_items (x ∷ items) = false

abbrev has_null : List Ptr → Bool
has_null [] = false
has_null (x ∷ items) = (x == null) || has_null items

abbrev Plain : List Ptr → List Ptr → Type 0
Plain b items = (b ≡ items) × (has_null items ≡ false)

has_null-append :
    (xs : List Ptr) (x : Ptr) → has_null xs ≡ false → x ≢ null → has_null (xs ++ x ∷ []) ≡ false
has_null-append [] x h ne = rw (==-ne x null ne)
has_null-append (y ∷ xs) x h ne = ground (arith, h, has_null-append xs x, ne)

put-Plain :
    (b : List Ptr) (x : Ptr) (items : List Ptr)
    → Plain b items
    → x ≢ null
    → Yields (λ c. Plain c (items ++ x ∷ [])) (ok (b ++ x ∷ []))
put-Plain b x items (e, h) ne = yields (ap (λ l. l ++ x ∷ []) e, has_null-append items x h ne)

first_proper : (b : List Ptr) (x : Ptr) (items : List Ptr) → Plain b (x ∷ items) → x ≢ null
first_proper b x items (e, h) i = ground (arith, h, i)

rest-Plain :
    (b : List Ptr) (x : Ptr) (items : List Ptr) → Plain b (x ∷ items) → Plain (rest b) items
rest-Plain b x items (e, h) = (ap rest e, ground (arith, h))

abbrev plain_buffer : ItemBuffer
plain_buffer = record {
  Buf = List Ptr;
  Holds = Plain;
  top = λ b. ok (first b);
  pop = λ b. ok (rest b);
  put = λ b x. ok (b ++ x ∷ []);
  is_space = λ b. true;
  is_empty = λ b. ok (no_items b);
  top_none = λ b h. ap (λ l. ok (first l)) h.0;
  top_some = λ b x items h. ap (λ l. ok (first l)) h.0;
  proper = first_proper;
  pop_some = λ b x items h. yields (rest-Plain b x items h);
  put_last = put-Plain;
  space = λ b. refl;
  empty_none = λ b h. ap (λ l. ok (no_items l)) h.0;
  empty_some = λ b x items h. ap (λ l. ok (no_items l)) h.0;
}

abbrev fresh_stream : Stream plain_buffer
fresh_stream = record {
  buffer = [];
  type = entry;
  n_sem = pos 0;
  e_sem = pos 1;
  is_poll = false;
  poll_token = false;
  wakeup_sd = false;
  read_cnt = pos 0;
  write_cnt = pos 0;
  reader = Reading.idle;
  writer = Writing.idle;
  cons_woken = false;
  prod_woken = false;
}

fresh-Balanced : Balanced plain_buffer fresh_stream []
fresh-Balanced = record {
  holds = (refl, refl);
  n = 1;
  n_level = at_least;
  n_count = refl;
  cons_waits = refl;
  cons_calm = refl;
  item = IsItem.idle;
  unpolled = refl;
}

-- the consumer sleeps on the empty stream
abbrev asleep : Stream plain_buffer
asleep = record fresh_stream { n_sem = negsuc 0; reader = Reading.blocked }

asleep-Balanced : Balanced plain_buffer asleep []
asleep-Balanced = record {
  holds = (refl, refl);
  n = 0;
  n_level = short;
  n_count = refl;
  cons_waits = refl;
  cons_calm = refl;
  item = IsItem.idle;
  unpolled = refl;
}

asleep-Bounded : Bounded plain_buffer 1 asleep []
asleep-Bounded = record {
  is_entry = refl;
  small = omega arith;
  e = 2;
  e_level = at_least;
  e_count = refl;
  prod_waits = refl;
  prod_calm = refl;
}

-- the producer sleeps on the full stream
abbrev full : Stream plain_buffer
full = record fresh_stream {
  buffer = 7 ∷ [];
  n_sem = pos 1;
  e_sem = negsuc 0;
  writer = Writing.blocked 8;
}

full-Bounded : Bounded plain_buffer 1 full (7 ∷ [])
full-Bounded = record {
  is_entry = refl;
  small = omega arith;
  e = 0;
  e_level = short;
  e_count = refl;
  prod_waits = refl;
  prod_calm = refl;
}

read_step-Follows_example :
    Yields
      (Follows plain_buffer asleep [] (cons_stuck plain_buffer asleep))
      (read_step plain_buffer asleep)
read_step-Follows_example = read_step-Follows plain_buffer asleep [] (λ e. cc) asleep-Balanced

write_step-Follows_example :
    Yields
      (Follows plain_buffer asleep [] (prod_stuck plain_buffer asleep))
      (write_step plain_buffer 7 asleep)
write_step-Follows_example =
    write_step-Follows plain_buffer asleep [] 7 (omega arith) (omega arith) (λ e. cc)
      asleep-Balanced

-- an item is written and read
abbrev entered : Stream plain_buffer
entered = record fresh_stream { e_sem = pos 0; writer = Writing.putting 7 }

abbrev filled : Stream plain_buffer
filled = record entered { buffer = 7 ∷ []; writer = Writing.posting false }

abbrev announced : Stream plain_buffer
announced = record filled { n_sem = pos 1; writer = Writing.counting }

abbrev claimed : Stream plain_buffer
claimed = record announced { n_sem = pos 0; reader = Reading.taking }

abbrev emptied : Stream plain_buffer
emptied = record claimed { buffer = []; reader = Reading.posting }

enter_step : write_step plain_buffer 7 fresh_stream ≡ ok (some (silent, entered))
unfolding write_step write_at write_enter fetch_dec is_entry
enter_step = refl

put_step : write_step plain_buffer 7 entered ≡ ok (some (wrote 7, filled))
unfolding write_step write_at write_put
put_step = refl

post_step : write_step plain_buffer 7 filled ≡ ok (some (silent, announced))
unfolding write_step write_at write_post fetch_inc
post_step = refl

claim_step : read_step plain_buffer announced ≡ ok (some (silent, claimed))
unfolding read_step read_at read_enter fetch_dec
claim_step = refl

take_step : read_step plain_buffer claimed ≡ ok (some (took 7, emptied))
unfolding read_step read_at read_take is_entry
take_step = refl

run-Arrived_example : Arrived plain_buffer fresh_stream [] (7 ∷ []) (7 ∷ []) emptied
run-Arrived_example =
    run-Arrived plain_buffer fresh_stream [] fresh-Balanced
      (reads (took 7)
        (reads silent
          (writes 7 silent
            (writes 7 (wrote 7) (writes 7 silent start (omega arith) enter_step) (omega arith)
              put_step)
            (omega arith) post_step)
          claim_step)
        take_step)
      (omega arith)

-- the writer writes a second item, for which there is no room
abbrev written : Stream plain_buffer
written = record announced { write_cnt = pos 1; writer = Writing.idle }

abbrev held : Stream plain_buffer
held = record written { e_sem = negsuc 0; writer = Writing.blocked 8 }

count_step : write_step plain_buffer 7 announced ≡ ok (some (silent, written))
unfolding write_step write_at count_up fits_more fetch_inc
count_step = refl

hold_step : write_step plain_buffer 8 written ≡ ok (some (silent, held))
unfolding write_step write_at write_enter fetch_dec is_entry
hold_step = refl

sleep_step : read_step plain_buffer fresh_stream ≡ ok (some (silent, asleep))
unfolding read_step read_at read_enter fetch_dec
sleep_step = refl

to_held : Run plain_buffer fresh_stream (7 ∷ []) [] held
to_held =
    writes 8 silent
      (writes 7 silent
        (writes 7 silent
          (writes 7 (wrote 7) (writes 7 silent start (omega arith) enter_step) (omega arith)
            put_step)
          (omega arith) post_step)
        (omega arith) count_step)
      (omega arith) hold_step

fresh-Bounded : Bounded plain_buffer 1 fresh_stream []
fresh-Bounded = record {
  is_entry = refl;
  small = omega arith;
  e = 2;
  e_level = at_least;
  e_count = refl;
  prod_waits = refl;
  prod_calm = refl;
}

run-all_read_example :
    length {A = Ptr} [] + length {A = Ptr} [] ≡ length {A = Ptr} [] + announces asleep.writer
run-all_read_example =
    run-all_read plain_buffer fresh_stream [] fresh-Balanced (reads silent start sleep_step)
      (omega arith) refl

run-all_full_example :
    length {A = Ptr} [] + length {A = Ptr} (7 ∷ []) + releases held.reader ≡ length {A = Ptr} [] + 1
run-all_full_example =
    run-all_full plain_buffer fresh_stream [] fresh-Balanced to_held (omega arith) 1 fresh-Bounded
      refl

run-not_stuck_example : cons_stuck plain_buffer held && prod_stuck plain_buffer held ≡ false
run-not_stuck_example =
    run-not_stuck plain_buffer fresh_stream [] fresh-Balanced to_held (omega arith) 1 fresh-Bounded
      (omega arith)
