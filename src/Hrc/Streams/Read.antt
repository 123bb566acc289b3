-- ===== src/Hrc/Streams/Read.antt =====
-- The consumer's steps keep the counts.
use my_lpel.Common.{
  ℕ, suc, ◌-◌, ◌≡◌, refl, sym, ap, inl, inr, Bool, true, false, Option, none, some, List, [], ◌∷◌,
  arith, ◌==◌, if◌then◌else◌, Bool-cases, ==-ne, ok, Yields, yields, Yields-bind, Ptr, null,
}
use my_lpel.ItemBuffer.{ItemBuffer}
use my_lpel.Hrc.Streams.{
  count_up, fits_more, Label, fetch_inc, is_entry, Reading, Stream, silent, read_enter, read_take,
  read_post, read_at, read_step,
}
use my_lpel.Hrc.Streams.Balance.{
  fetch_inc-IsLevel, IsLevel-zero, IsLevel-negative, claims, releases, is_blocked, Balanced,
  Bounded, still, out_first, Kept, Bounded-same, fetch_dec-above, Follows, stuck, steps, cons_stuck,
}

module _ (B : ItemBuffer) where
  enter_at : Bool → Reading
  enter_at last = if last then Reading.blocked else Reading.taking

  read_enter-Kept :
      (s : Stream B) {items : List Ptr}
      → s.reader ≡ Reading.idle
      → Balanced B s items
      → Kept B s items (silent, read_enter B s)
  unfolding read_enter
  read_enter-Kept s {items} at b = rw (IsLevel-zero b.n_level) (elim (Bool-cases (b.n == 1)) [
    | inl last ↦ rw (last) (record {
      after = items;
      flow = still;
      balanced = record {
        holds = b.holds;
        n = b.n - 1;
        n_level = fetch_dec-above b.n_level above;
        n_count = ground (arith, b.n_count, ap claims at, above);
        cons_waits = ground (arith, last, calm);
        cons_calm = refl;
        item = b.item;
        unpolled = b.unpolled;
      };
      bounded = Bounded-same B refl refl refl refl (sym (ap releases at));
    })
    | inr more ↦ rw (more) (record {
      after = items;
      flow = still;
      balanced = record {
        holds = b.holds;
        n = b.n - 1;
        n_level = fetch_dec-above b.n_level above;
        n_count = ground (arith, b.n_count, ap claims at, above);
        cons_waits = ground (arith, more, above);
        cons_calm = rw (calm);
        item = b.item;
        unpolled = b.unpolled;
      };
      bounded = Bounded-same B refl refl refl refl (sym (ap releases at));
    })
  ])
    where
      above : b.n == 0 ≡ false
      above = ground (arith, b.cons_waits, ap is_blocked at)

      calm : s.cons_woken ≡ false
      calm = ground (arith, b.cons_calm, ap is_blocked at)

  read_wake-Kept :
      (s : Stream B) {items : List Ptr}
      → s.reader ≡ Reading.blocked
      → s.cons_woken ≡ true
      → Balanced B s items
      → Kept B s items (silent, record s { cons_woken = false; reader = Reading.taking })
  read_wake-Kept s {items} at w b = record {
    after = items;
    flow = still;
    balanced = record {
      holds = b.holds;
      n = b.n;
      n_level = b.n_level;
      n_count = omega (arith, b.n_count, ap claims at);
      cons_waits = ground (arith, b.cons_waits, ap is_blocked at, w);
      cons_calm = refl;
      item = b.item;
      unpolled = b.unpolled;
    };
    bounded = Bounded-same B refl refl refl refl (sym (ap releases at));
  }

  read_count-Kept :
      (s : Stream B) {items : List Ptr}
      → s.reader ≡ Reading.counting
      → Balanced B s items
      → Kept B s items (silent, record s { read_cnt = fetch_inc s.read_cnt; reader = Reading.idle })
  read_count-Kept s {items} at b = record {
    after = items;
    flow = still;
    balanced = record {
      holds = b.holds;
      n = b.n;
      n_level = b.n_level;
      n_count = omega (arith, b.n_count, ap claims at);
      cons_waits = ground (arith, b.cons_waits, ap is_blocked at);
      cons_calm = ground (arith, b.cons_calm, ap is_blocked at);
      item = b.item;
      unpolled = b.unpolled;
    };
    bounded = Bounded-same B refl refl refl refl (sym (ap releases at));
  }

  read_post-Kept :
      (s : Stream B) {items : List Ptr}
      → s.reader ≡ Reading.posting
      → Balanced B s items
      → Kept B s items (silent, read_post B s)
  unfolding read_post
  read_post-Kept s {items} at b = record {
    after = items;
    flow = still;
    balanced = record {
      holds = b.holds;
      n = b.n;
      n_level = b.n_level;
      n_count = omega (arith, b.n_count, ap claims at);
      cons_waits = ground (arith, b.cons_waits, ap is_blocked at);
      cons_calm = ground (arith, b.cons_calm, ap is_blocked at);
      item = b.item;
      unpolled = b.unpolled;
    };
    bounded = λ size o. record {
      is_entry = o.is_entry;
      small = o.small;
      e = suc o.e;
      e_level = fetch_inc-IsLevel o.e_level (omega (arith, o.e_count, ap releases at, o.small));
      e_count = omega (arith, o.e_count, ap releases at);
      prod_waits = rw (IsLevel-negative o.e_level) (ground (arith, o.prod_waits));
      prod_calm = rw (IsLevel-negative o.e_level) (ground (arith, o.prod_waits, o.prod_calm));
    };
  }

  -- the consumer after it has taken the first item
  taken_Balanced :
      (s : Stream B) {x : Ptr} {items : List Ptr} (buffer : B.Buf) (r : Reading)
      → s.reader ≡ Reading.taking
      → claims r ≡ 0
      → is_blocked r ≡ false
      → B.Holds buffer items
      → Balanced B s (x ∷ items)
      → Balanced B (record s { buffer = buffer; reader = r }) items
  taken_Balanced s buffer r at claim block holds b = record {
    holds = holds;
    n = b.n;
    n_level = b.n_level;
    n_count = omega (arith, b.n_count, ap claims at, claim);
    cons_waits = ground (arith, b.cons_waits, ap is_blocked at, block);
    cons_calm = ground (arith, b.cons_calm, ap is_blocked at, block);
    item = b.item;
    unpolled = b.unpolled;
  }

  taken_Bounded :
      (s : Stream B) {x : Ptr} {items : List Ptr} (buffer : B.Buf)
      → s.reader ≡ Reading.taking
      → (size : ℕ) → Bounded B size s (x ∷ items)
      → Bounded B size (record s { buffer = buffer; reader = Reading.posting }) items
  taken_Bounded s buffer at size o = record {
    is_entry = o.is_entry;
    small = o.small;
    e = o.e;
    e_level = o.e_level;
    e_count = omega (arith, o.e_count, ap releases at);
    prod_waits = o.prod_waits;
    prod_calm = o.prod_calm;
  }

  Bounded-is_entry :
      {size : ℕ} {s : Stream B} {items : List Ptr} → Bounded B size s items → is_entry s.type ≡ true
  unfolding is_entry
  Bounded-is_entry o = rw (o.is_entry)

  read_take-Kept :
      (s : Stream B) (items : List Ptr)
      → s.reader ≡ Reading.taking
      → Balanced B s items
      → Yields (Kept B s items) (read_take B s)
  unfolding read_take
  read_take-Kept s [] at b = ground (arith, b.n_count, b.cons_waits, ap claims at, ap is_blocked at)
  read_take-Kept s (x ∷ items) at b =
      rw (B.top_some s.buffer x items b.holds, ==-ne x null (B.proper s.buffer x items b.holds))
        (Yields-bind (B.pop_some s.buffer x items b.holds) λ buffer holds.
          elim (Bool-cases (is_entry s.type)) [
            | inl is ↦ rw (is) (
                yields (record {
                  after = items;
                  flow = out_first;
                  balanced = taken_Balanced s buffer Reading.posting at refl refl holds b;
                  bounded = taken_Bounded s buffer at;
                }))
            | inr isnt ↦ rw (isnt) (
                yields (record {
                  after = items;
                  flow = out_first;
                  balanced = taken_Balanced s buffer Reading.counting at refl refl holds b;
                  bounded = λ size o. ground (arith, isnt, Bounded-is_entry o);
                }))
          ])

  read_blocked-Follows :
      (w : Bool) (s : Stream B) {items : List Ptr}
      → s.reader ≡ Reading.blocked
      → s.cons_woken ≡ w
      → Balanced B s items
      → Yields (Follows B s items (cons_stuck B s)) (
          ok (
            if w
            then some (silent, record s { cons_woken = false; reader = Reading.taking })
            else none))
  read_blocked-Follows true s at w b = yields (steps (rw (at, w)) (read_wake-Kept s at w b))
  read_blocked-Follows false s at w b = yields (stuck (rw (at, w)))

  read_at-Follows :
      (r : Reading) (s : Stream B) {items : List Ptr}
      → s.reader ≡ r
      → (r ≡ Reading.counting → fits_more s.read_cnt ≡ true)
      → Balanced B s items
      → Yields (Follows B s items (cons_stuck B s)) (read_at B r s)
  unfolding read_at count_up
  read_at-Follows Reading.idle s at f b = yields (steps (rw (at)) (read_enter-Kept s at b))
  read_at-Follows Reading.blocked s at f b = read_blocked-Follows s.cons_woken s at refl b
  read_at-Follows Reading.taking s {items} at f b =
      Yields-bind (read_take-Kept s items at b) λ r k. yields (steps (rw (at)) k)
  read_at-Follows Reading.posting s at f b = yields (steps (rw (at)) (read_post-Kept s at b))
  read_at-Follows Reading.counting s at f b =
      rw (f refl) (yields (steps (rw (at)) (read_count-Kept s at b)))

  -- The next step of the reader of a well-formed stream, unless it is to count an item with its
  -- counter at 2^31 - 1, does not fail an assert and keeps the stream well formed, and it can be
  -- taken unless the reader is asleep and not woken.
  pub read_step-Follows :
      (s : Stream B) (items : List Ptr)
      → (s.reader ≡ Reading.counting → fits_more s.read_cnt ≡ true)
      → Balanced B s items
      → Yields (Follows B s items (cons_stuck B s)) (read_step B s)
  unfolding read_step
  read_step-Follows s items f b = read_at-Follows s.reader s refl f b

  -- a step that was taken did not overflow the counter
  pub read_step-fits :
      (s : Stream B) {x : Option (Label × Stream B)}
      → read_step B s ≡ ok x
      → s.reader ≡ Reading.counting
      → fits_more s.read_cnt ≡ true
  unfolding read_step read_at count_up
  read_step-fits s e at = elim (Bool-cases (fits_more s.read_cnt)) [
    | inl f ↦ f
    | inr f ↦ let g = rw (at, f) at e in absurd cc
  ]
