-- ===== src/Hrc/Streams/Run.antt =====
-- What the two counts mean: no item is lost, no wake-up is lost, no deadlock.
use my_lpel.Common.{
  ℕ, suc, ◌+◌, ◌^◌, ◌≤◌, ◌<◌, ◌≡◌, ◌≢◌, refl, sym, ap, ◌∙◌, Bool, true, false, ◌&&◌, some, List, [],
  ◌∷◌, ◌++◌, arith, ==-ne, ok, Yields, yields, Yields-at, Ptr, null,
}
use mathlib.Core.List.{append_assoc, append-nil}
use my_lpel.Common.Lists.{length, length-append}
use my_lpel.ItemBuffer.{ItemBuffer}
use my_lpel.Hrc.World.{StreamType, entry}
use my_lpel.Hrc.Streams.{
  Reading, Writing, Stream, Label, silent, wrote, took, create, read_step, write_step,
}
use my_lpel.Hrc.Streams.Balance.{
  at_least, announces, claims, releases, reserves, is_held, is_blocked, IsItem, Balanced, Bounded,
  Flow, still, in_last, out_first, Follows, steps, cons_stuck, prod_stuck,
}
use my_lpel.Hrc.Streams.Read.{read_step-Follows, read_step-fits}
use my_lpel.Hrc.Streams.Post.{write_step-Follows, write_step-fits}

-- what a step writes, and what it reads
abbrev pub given : Label → List Ptr
given silent = []
given (wrote x) = x ∷ []
given (took x) = []

abbrev pub taken : Label → List Ptr
taken silent = []
taken (wrote x) = []
taken (took x) = x ∷ []

Flow-in_order :
    (items ins outs : List Ptr) {mid after : List Ptr} {l : Label}
    → Flow l mid after
    → items ++ ins ≡ outs ++ mid
    → items ++ (ins ++ given l) ≡ outs ++ taken l ++ after
Flow-in_order items ins outs still e = rw (append-nil ins, append-nil outs) e
Flow-in_order items ins outs {mid} (in_last {x}) e = rw (append-nil outs) (
    sym (append_assoc items ins (x ∷ []))
    ∙ ap (λ l. l ++ x ∷ []) e
    ∙ append_assoc outs mid (x ∷ []))
Flow-in_order items ins outs (out_first {x} {items = after}) e =
    rw (append-nil ins) (e ∙ sym (append_assoc outs (x ∷ []) after))

sleeps : (r : Reading) → is_blocked r ≡ true → (claims r ≡ 1) × (releases r ≡ 0)
sleeps Reading.idle i = ground (arith, i)
sleeps Reading.blocked i = (refl, refl)
sleeps Reading.taking i = ground (arith, i)
sleeps Reading.posting i = ground (arith, i)
sleeps Reading.counting i = ground (arith, i)

waits : (w : Writing) → is_held w ≡ true → (reserves w ≡ 1) × (announces w ≡ 0)
waits Writing.idle i = ground (arith, i)
waits (Writing.blocked p) i = (refl, refl)
waits (Writing.putting p) i = ground (arith, i)
waits (Writing.posting p) i = ground (arith, i)
waits Writing.counting i = ground (arith, i)

module _ (B : ItemBuffer) where
  -- steps of the two tasks in any order, with the items written and the items read
  pub data Run (s : Stream B) : List Ptr → List Ptr → Stream B → Type 0 where
    start : Run s [] [] s
    reads :
        {ins outs : List Ptr} {r r' : Stream B} (l : Label)
        → Run s ins outs r
        → read_step B r ≡ ok (some (l, r'))
        → Run s (ins ++ given l) (outs ++ taken l) r'
    writes :
        {ins outs : List Ptr} {r r' : Stream B} (item : Ptr) (l : Label)
        → Run s ins outs r
        → item ≢ null
        → write_step B item r ≡ ok (some (l, r'))
        → Run s (ins ++ given l) (outs ++ taken l) r'

  -- what is in the stream after a run
  pub record Arrived (s : Stream B) (items ins outs : List Ptr) (r : Stream B) : Type 0 where
    pub after : List Ptr
    pub balanced : Balanced B r after
    pub bounded : (size : ℕ) → Bounded B size s items → Bounded B size r after
    pub in_order : items ++ ins ≡ outs ++ after

  arrive :
      {s r : Stream B} {items ins outs : List Ptr} {x : Label × Stream B} {is_stuck : Bool}
      (a : Arrived s items ins outs r)
      → Follows B r a.after is_stuck (some x)
      → Arrived s items (ins ++ given x.0) (outs ++ taken x.0) x.1
  arrive {items} {ins} {outs} a (steps i k) = record {
    after = k.after;
    balanced = k.balanced;
    bounded = λ size o. k.bounded size (a.bounded size o);
    in_order = Flow-in_order items ins outs k.flow a.in_order;
  }

  -- However the steps of reader and writer are interleaved on a well-formed stream, the items
  -- read followed by those in the buffer are those it held before followed by those written, in
  -- order; the semaphore counts stay right, also of an entry stream, as long as fewer than 2^31
  -- items were held and written.
  pub run-Arrived :
      (s : Stream B) (items : List Ptr) {ins outs : List Ptr} {r : Stream B}
      → Balanced B s items
      → Run s ins outs r
      → length items + length ins < 2 ^ 31
      → Arrived s items ins outs r
  run-Arrived s items b start i = record {
    after = items;
    balanced = b;
    bounded = λ size o. o;
    in_order = append-nil items;
  }
  run-Arrived s items b (reads {ins} {r} {r'} l run e) i =
      let a = run-Arrived s items b run (omega (arith, i, length-append ins (given l))) in
      arrive a (
        Yields-at (some (l, r')) (read_step-Follows B r a.after (read_step-fits B r e) a.balanced)
          e)
  run-Arrived s items b (writes {ins} {outs} {r} {r'} item l run ne e) i =
      let a = run-Arrived s items b run (omega (arith, i, length-append ins (given l))) in
      let fits : length a.after < 2 ^ 31 = omega (
        arith,
        i,
        length-append ins (given l),
        length-append items ins,
        length-append outs a.after,
        ap length a.in_order,
      ) in
      arrive a (
        Yields-at (some (l, r'))
          (write_step-Follows B r a.after item ne fits (write_step-fits B r item e) a.balanced) e)

  cons_stuck-Empty :
      (s : Stream B) (items : List Ptr)
      → Balanced B s items
      → cons_stuck B s ≡ true
      → length items ≡ announces s.writer
  cons_stuck-Empty s items b i = ground (arith, i, b.cons_waits, b.n_count, sleeps s.reader)

  prod_stuck-Full :
      (size : ℕ) (s : Stream B) (items : List Ptr)
      → Bounded B size s items
      → prod_stuck B s ≡ true
      → length items + releases s.reader ≡ size
  prod_stuck-Full size s items o i = ground (arith, i, o.prod_waits, o.e_count, waits s.writer)

  -- A well-formed entry stream never holds more items than its size.
  pub Bounded-fits :
      (size : ℕ) (s : Stream B) (items : List Ptr) → Bounded B size s items → length items ≤ size
  Bounded-fits size s items o = ground (arith, o.prod_waits, o.e_count, waits s.writer)

  not-both_stuck :
      (size : ℕ) (s : Stream B) (items : List Ptr)
      → 1 ≤ size
      → Balanced B s items
      → Bounded B size s items
      → cons_stuck B s && prod_stuck B s ≡ false
  not-both_stuck size s items i b o =
      ground (
        arith,
        i,
        b.cons_waits,
        b.n_count,
        o.prod_waits,
        o.e_count,
        waits s.writer,
        sleeps s.reader,
      )

  module _ (s : Stream B) (items : List Ptr) {ins outs : List Ptr} {r : Stream B}
      (b : Balanced B s items) (run : Run s ins outs r)
      (few : length items + length ins < 2 ^ 31) where
    -- After any interleaving of steps of the reader and the writer of a well-formed stream, with
    -- fewer than 2^31 items held at first and written since, if the reader is asleep and not
    -- woken, all these items have been read, but for one that the writer has put and is about to
    -- announce.
    pub run-all_read :
        cons_stuck B r ≡ true → length items + length ins ≡ length outs + announces r.writer
    run-all_read i =
        let a = run-Arrived s items b run few in
        omega (
          arith,
          cons_stuck-Empty r a.after a.balanced i,
          ap length a.in_order,
          length-append items ins,
          length-append outs a.after,
        )

    module _ (size : ℕ) (o : Bounded B size s items) where
      -- After any interleaving of steps of the reader and the writer of a well-formed entry
      -- stream, with fewer than 2^31 items held at first and written since, if the writer is
      -- asleep and not woken, as many of these items as the size are not read yet, or one less if
      -- the reader has taken one and is about to release its place.
      pub run-all_full :
          prod_stuck B r ≡ true → length items + length ins + releases r.reader ≡ length outs + size
      run-all_full i =
          let a = run-Arrived s items b run few in
          omega (
            arith,
            prod_stuck-Full size r a.after (a.bounded size o) i,
            ap length a.in_order,
            length-append items ins,
            length-append outs a.after,
          )

      -- After any interleaving of steps of the reader and the writer of a well-formed entry
      -- stream of positive size, with fewer than 2^31 items held at first and written since, the
      -- two are not both asleep without a wake-up on its way.
      pub run-not_stuck : 1 ≤ size → cons_stuck B r && prod_stuck B r ≡ false
      run-not_stuck i =
          let a = run-Arrived s items b run few in
          not-both_stuck size r a.after i a.balanced (a.bounded size o)

  -- A stream made with an empty buffer is well formed, and as an entry stream of a positive size
  -- below 2^31 it is bounded by that size.
  pub create-Balanced :
      (buffer : B.Buf) (type : StreamType) (size : ℕ)
      → B.Holds buffer []
      → Yields
          (λ s. Balanced B s [] × (type ≡ entry → 0 < size → size < 2 ^ 31 → Bounded B size s []))
          (create B buffer type size)
  unfolding create
  create-Balanced buffer type size holds = rw (B.empty_none buffer holds) (
      yields (
        record {
          holds = holds;
          n = 1;
          n_level = at_least;
          n_count = refl;
          cons_waits = refl;
          cons_calm = refl;
          item = IsItem.idle;
          unpolled = refl;
        },
        λ is positive small. rw (==-ne size 0 (λ e. omega (arith, e, positive))) (record {
          is_entry = is;
          small = small;
          e = suc size;
          e_level = at_least;
          e_count = omega arith;
          prod_waits = ground arith;
          prod_calm = refl;
        }),
      ))
