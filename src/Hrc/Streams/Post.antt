-- ===== src/Hrc/Streams/Post.antt =====
-- The producer's steps from its item on, and all of them together, keep the counts.
use my_lpel.Common.{
  ℕ, suc, ◌^◌, ◌<◌, ◌≡◌, ◌≢◌, refl, ap, Bool, true, false, Option, Bool-cases, inl, inr, none, some,
  List, [], ◌∷◌, ◌++◌, arith, if◌then◌else◌, ok, Yields, yields, Yields-bind, Ptr, null,
}
use my_lpel.Common.Int.{ℤ, pos, ltb_ℤ}
use my_lpel.Common.Lists.{length, length-append}
use my_lpel.ItemBuffer.{ItemBuffer}
use my_lpel.Hrc.Streams.{
  count_up, fits_more, Label, fetch_inc, Writing, Stream, silent, wrote, write_put, write_post,
  write_at, write_step,
}
use my_lpel.Hrc.Streams.Balance.{
  fetch_inc-IsLevel, IsLevel-negative, announces, reserves, is_held, IsItem, Balanced, Bounded,
  still, in_last, Kept, Follows, stuck, steps, prod_stuck,
}
use my_lpel.Hrc.Streams.Write.{write_enter-Kept, write_wake-Kept, putting_item}

module _ (B : ItemBuffer) where
  -- the counts once the item is put
  put_Balanced :
      (s : Stream B) {items : List Ptr} (buffer : B.Buf) (i : Ptr)
      → s.writer ≡ Writing.putting i
      → B.Holds buffer (items ++ i ∷ [])
      → Balanced B s items
      → Balanced B (record s { buffer = buffer; writer = Writing.posting false }) (items ++ i ∷ [])
  put_Balanced s {items} buffer i at holds b = record {
    holds = holds;
    n = b.n;
    n_level = b.n_level;
    n_count = omega (arith, b.n_count, ap announces at, length-append items (i ∷ []));
    cons_waits = b.cons_waits;
    cons_calm = b.cons_calm;
    item = IsItem.posting;
    unpolled = b.unpolled;
  }

  put_Bounded :
      (s : Stream B) {items : List Ptr} (buffer : B.Buf) (i : Ptr)
      → s.writer ≡ Writing.putting i
      → (size : ℕ) → Bounded B size s items
      → Bounded B size
          (record s { buffer = buffer; writer = Writing.posting false })
          (items ++ i ∷ [])
  put_Bounded s {items} buffer i at size o = record {
    is_entry = o.is_entry;
    small = o.small;
    e = o.e;
    e_level = o.e_level;
    e_count = omega (arith, o.e_count, ap reserves at, length-append items (i ∷ []));
    prod_waits = ground (arith, o.prod_waits, ap is_held at);
    prod_calm = ground (arith, o.prod_calm, ap is_held at);
  }

  put-Kept :
      (poll : Bool) (s : Stream B) (items : List Ptr) (buffer : B.Buf) (i : Ptr)
      → s.is_poll ≡ poll
      → s.writer ≡ Writing.putting i
      → B.Holds buffer (items ++ i ∷ [])
      → Balanced B s items
      → Kept B s items (
        wrote i,
        if poll
            then record s {
              buffer = buffer;
              poll_token = false;
              is_poll = false;
              writer = Writing.posting s.poll_token;
            }
            else record s { buffer = buffer; writer = Writing.posting false },
      )
  put-Kept true s items buffer i p at holds b = ground (arith, p, b.unpolled)
  put-Kept false s items buffer i p at holds b = record {
    after = items ++ i ∷ [];
    flow = in_last;
    balanced = put_Balanced s buffer i at holds b;
    bounded = put_Bounded s buffer i at;
  }

  write_put-Kept :
      (s : Stream B) (items : List Ptr) (i : Ptr)
      → s.writer ≡ Writing.putting i
      → Balanced B s items
      → Yields (Kept B s items) (write_put B i s)
  unfolding write_put
  write_put-Kept s items i at b = rw (B.space s.buffer) (
      Yields-bind (B.put_last s.buffer i items b.holds (putting_item B (rw (← at) b.item)))
        λ buffer holds. yields (put-Kept s.is_poll s items buffer i refl at holds b))

  posting_none : {p : Bool} → IsItem (Writing.posting p) → p ≡ false
  posting_none IsItem.posting = refl

  posted_Bounded :
      (s : Stream B) {items : List Ptr} (n_sem : ℤ) (woken : Bool)
      → reserves s.writer ≡ 0
      → is_held s.writer ≡ false
      → (size : ℕ) → Bounded B size s items
      → Bounded B size
          (record s { n_sem = n_sem; writer = Writing.counting; cons_woken = woken })
          items
  posted_Bounded s n_sem woken at at' size o = record {
    is_entry = o.is_entry;
    small = o.small;
    e = o.e;
    e_level = o.e_level;
    e_count = omega (arith, o.e_count, at);
    prod_waits = ground (arith, o.prod_waits, at');
    prod_calm = ground (arith, o.prod_calm, at');
  }

  post-Kept :
      (low : Bool) (s : Stream B) (items : List Ptr)
      → ltb_ℤ s.n_sem (pos 0) ≡ low
      → announces s.writer ≡ 1
      → reserves s.writer ≡ 0
      → is_held s.writer ≡ false
      → length items < 2 ^ 31
      → Balanced B s items
      → Kept B s items (
        silent,
        let r = record s { n_sem = fetch_inc s.n_sem; writer = Writing.counting } in
            if low then record r { cons_woken = true } else r,
      )
  post-Kept true s items q at at' at'' i b = record {
    after = items;
    flow = still;
    balanced = record {
      holds = b.holds;
      n = suc b.n;
      n_level = fetch_inc-IsLevel b.n_level (omega (arith, b.n_count, at, i));
      n_count = omega (arith, b.n_count, at);
      cons_waits = ground (arith, b.cons_waits, IsLevel-negative b.n_level, q);
      cons_calm = ground (arith, b.cons_waits, b.cons_calm, IsLevel-negative b.n_level, q);
      item = IsItem.counting;
      unpolled = b.unpolled;
    };
    bounded = posted_Bounded s (fetch_inc s.n_sem) true at' at'';
  }
  post-Kept false s items q at at' at'' i b = record {
    after = items;
    flow = still;
    balanced = record {
      holds = b.holds;
      n = suc b.n;
      n_level = fetch_inc-IsLevel b.n_level (omega (arith, b.n_count, at, i));
      n_count = omega (arith, b.n_count, at);
      cons_waits = ground (arith, b.cons_waits, IsLevel-negative b.n_level, q);
      cons_calm = ground (arith, b.cons_waits, b.cons_calm, IsLevel-negative b.n_level, q);
      item = IsItem.counting;
      unpolled = b.unpolled;
    };
    bounded = posted_Bounded s (fetch_inc s.n_sem) s.cons_woken at' at'';
  }

  write_post-Kept :
      (s : Stream B) (items : List Ptr) (p : Bool)
      → s.writer ≡ Writing.posting p
      → length items < 2 ^ 31
      → Balanced B s items
      → Kept B s items (silent, write_post B p s)
  unfolding write_post
  write_post-Kept s items p at i b = rw (posting_none {p = p} (rw (← at) b.item)) (
      post-Kept (ltb_ℤ s.n_sem (pos 0)) s items refl (ap announces at) (ap reserves at)
        (ap is_held at) i b)

  write_count-Kept :
      (s : Stream B) (items : List Ptr)
      → s.writer ≡ Writing.counting
      → Balanced B s items
      → Kept B s items
          (silent, record s { write_cnt = fetch_inc s.write_cnt; writer = Writing.idle })
  write_count-Kept s items at b = record {
    after = items;
    flow = still;
    balanced = record {
      holds = b.holds;
      n = b.n;
      n_level = b.n_level;
      n_count = omega (arith, b.n_count, ap announces at);
      cons_waits = b.cons_waits;
      cons_calm = b.cons_calm;
      item = IsItem.idle;
      unpolled = b.unpolled;
    };
    bounded = λ size o. record {
      is_entry = o.is_entry;
      small = o.small;
      e = o.e;
      e_level = o.e_level;
      e_count = omega (arith, o.e_count, ap reserves at);
      prod_waits = ground (arith, o.prod_waits, ap is_held at);
      prod_calm = ground (arith, o.prod_calm, ap is_held at);
    };
  }

  write_blocked-Follows :
      (w : Bool) (s : Stream B) (items : List Ptr) (i : Ptr)
      → s.writer ≡ Writing.blocked i
      → s.prod_woken ≡ w
      → Balanced B s items
      → Yields (Follows B s items (prod_stuck B s)) (
          ok (
            if w
            then some (silent, record s { prod_woken = false; writer = Writing.putting i })
            else none))
  write_blocked-Follows true s items i at w b =
      yields (steps (rw (at, w)) (write_wake-Kept B s items i at w b))
  write_blocked-Follows false s items i at w b = yields (stuck (rw (at, w)))

  write_at-Follows :
      (w : Writing) (s : Stream B) (items : List Ptr) (item : Ptr)
      → s.writer ≡ w
      → item ≢ null
      → length items < 2 ^ 31
      → (w ≡ Writing.counting → fits_more s.write_cnt ≡ true)
      → Balanced B s items
      → Yields (Follows B s items (prod_stuck B s)) (write_at B w item s)
  unfolding write_at count_up
  write_at-Follows Writing.idle s items item at ne i f b =
      Yields-bind (write_enter-Kept B s items item at ne b) λ r k. yields (steps (rw (at)) k)
  write_at-Follows (Writing.blocked p) s items item at ne i f b =
      write_blocked-Follows s.prod_woken s items p at refl b
  write_at-Follows (Writing.putting p) s items item at ne i f b =
      Yields-bind (write_put-Kept s items p at b) λ r k. yields (steps (rw (at)) k)
  write_at-Follows (Writing.posting p) s items item at ne i f b =
      yields (steps (rw (at)) (write_post-Kept s items p at i b))
  write_at-Follows Writing.counting s items item at ne i f b =
      rw (f refl) (yields (steps (rw (at)) (write_count-Kept s items at b)))

  -- The next step of the writer, of an item that is not NULL, on a well-formed stream with fewer
  -- than 2^31 items, unless it is to count an item with its counter at 2^31 - 1, does not fail an
  -- assert and keeps the stream well formed, and it can be taken unless the writer is asleep and
  -- not woken.
  pub write_step-Follows :
      (s : Stream B) (items : List Ptr) (item : Ptr)
      → item ≢ null
      → length items < 2 ^ 31
      → (s.writer ≡ Writing.counting → fits_more s.write_cnt ≡ true)
      → Balanced B s items
      → Yields (Follows B s items (prod_stuck B s)) (write_step B item s)
  unfolding write_step
  write_step-Follows s items item ne i f b = write_at-Follows s.writer s items item refl ne i f b

  -- a step that was taken did not overflow the counter
  pub write_step-fits :
      (s : Stream B) (item : Ptr) {x : Option (Label × Stream B)}
      → write_step B item s ≡ ok x
      → s.writer ≡ Writing.counting
      → fits_more s.write_cnt ≡ true
  unfolding write_step write_at count_up
  write_step-fits s item e at = elim (Bool-cases (fits_more s.write_cnt)) [
    | inl f ↦ f
    | inr f ↦ let g = rw (at, f) at e in absurd cc
  ]
