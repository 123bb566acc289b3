-- ===== src/Hrc/Streams/Write.antt =====
-- The producer's steps up to its item keep the counts.
use my_lpel.Common.{
  ℕ, ◌-◌, ◌≡◌, ◌≢◌, refl, sym, ap, Bool, true, false, List, arith, ◌==◌, if◌then◌else◌, ==-ne,
  Yields, yields, Ptr, null,
}
use my_lpel.Common.Int.{ℤ, pos, eqb_ℤ}
use my_lpel.ItemBuffer.{ItemBuffer}
use my_lpel.Hrc.Streams.{fetch_dec, is_entry, Writing, Stream, silent, write_enter}
use my_lpel.Hrc.Streams.Balance.{
  fetch_dec-above, IsLevel-zero, announces, reserves, is_held, IsItem, Balanced, Bounded, still,
  Kept,
}

module _ (B : ItemBuffer) where
  -- a step of the producer before it puts its item
  pub before_put :
      (s : Stream B) {items : List Ptr} (e_sem : ℤ) (woken : Bool) (w : Writing)
      → announces s.writer ≡ 0
      → announces w ≡ 0
      → IsItem w
      → Balanced B s items
      → Balanced B (record s { e_sem = e_sem; prod_woken = woken; writer = w }) items
  before_put s e_sem woken w at to item b = record {
    holds = b.holds;
    n = b.n;
    n_level = b.n_level;
    n_count = omega (arith, b.n_count, at, to);
    cons_waits = b.cons_waits;
    cons_calm = b.cons_calm;
    item = item;
    unpolled = b.unpolled;
  }

  Bounded-is_entry :
      {size : ℕ} {s : Stream B} {items : List Ptr} → Bounded B size s items → is_entry s.type ≡ true
  unfolding is_entry
  Bounded-is_entry o = rw (o.is_entry)

  entered_Bounded :
      (s : Stream B) {items : List Ptr} (w : Writing)
      → s.writer ≡ Writing.idle
      → reserves w ≡ 1
      → is_held w ≡ eqb_ℤ s.e_sem (pos 0)
      → (size : ℕ) → Bounded B size s items
      → Bounded B size (record s { e_sem = fetch_dec s.e_sem; writer = w }) items
  entered_Bounded s w at reserve held size o = record {
    is_entry = o.is_entry;
    small = o.small;
    e = o.e - 1;
    e_level = fetch_dec-above o.e_level above;
    e_count = ground (arith, o.e_count, ap reserves at, reserve, above);
    prod_waits = ground (arith, held, calm, above, IsLevel-zero o.e_level);
    prod_calm = ground (arith, calm);
  }
    where
      above : o.e == 0 ≡ false
      above = ground (arith, o.prod_waits, ap is_held at)

      calm : s.prod_woken ≡ false
      calm = ground (arith, o.prod_calm, ap is_held at)

  enter_entry-Kept :
      (full : Bool) (s : Stream B) (items : List Ptr) (item : Ptr)
      → eqb_ℤ s.e_sem (pos 0) ≡ full
      → s.writer ≡ Writing.idle
      → item ≢ null
      → Balanced B s items
      → Kept B s items (
        silent,
        record s {
          e_sem = fetch_dec s.e_sem;
          writer = if full then Writing.blocked item else Writing.putting item;
        },
      )
  enter_entry-Kept true s items item q at ne b = record {
    after = items;
    flow = still;
    balanced =
        before_put s (fetch_dec s.e_sem) s.prod_woken (Writing.blocked item) (ap announces at) refl
          (IsItem.blocked ne) b;
    bounded = entered_Bounded s (Writing.blocked item) at refl (sym q);
  }
  enter_entry-Kept false s items item q at ne b = record {
    after = items;
    flow = still;
    balanced =
        before_put s (fetch_dec s.e_sem) s.prod_woken (Writing.putting item) (ap announces at) refl
          (IsItem.putting ne) b;
    bounded = entered_Bounded s (Writing.putting item) at refl (sym q);
  }

  enter-Kept :
      (is : Bool) (s : Stream B) (items : List Ptr) (item : Ptr)
      → is_entry s.type ≡ is
      → s.writer ≡ Writing.idle
      → item ≢ null
      → Balanced B s items
      → Kept B s items (
        silent,
        if is
            then record s {
              e_sem = fetch_dec s.e_sem;
              writer = if eqb_ℤ s.e_sem (pos 0) then Writing.blocked item else Writing.putting item;
            }
            else record s { writer = Writing.putting item },
      )
  enter-Kept true s items item i at ne b =
      enter_entry-Kept (eqb_ℤ s.e_sem (pos 0)) s items item refl at ne b
  enter-Kept false s items item i at ne b = record {
    after = items;
    flow = still;
    balanced =
        before_put s s.e_sem s.prod_woken (Writing.putting item) (ap announces at) refl
          (IsItem.putting ne) b;
    bounded = λ size o. ground (arith, i, Bounded-is_entry o);
  }

  pub write_enter-Kept :
      (s : Stream B) (items : List Ptr) (item : Ptr)
      → s.writer ≡ Writing.idle
      → item ≢ null
      → Balanced B s items
      → Yields (λ r. Kept B s items (silent, r)) (write_enter B item s)
  unfolding write_enter
  write_enter-Kept s items item at ne b =
      rw (==-ne item null ne) (yields (enter-Kept (is_entry s.type) s items item refl at ne b))

  blocked_item : {i : Ptr} → IsItem (Writing.blocked i) → i ≢ null
  blocked_item (IsItem.blocked ne) = ne

  pub putting_item : {i : Ptr} → IsItem (Writing.putting i) → i ≢ null
  putting_item (IsItem.putting ne) = ne

  pub write_wake-Kept :
      (s : Stream B) (items : List Ptr) (i : Ptr)
      → s.writer ≡ Writing.blocked i
      → s.prod_woken ≡ true
      → Balanced B s items
      → Kept B s items (silent, record s { prod_woken = false; writer = Writing.putting i })
  write_wake-Kept s items i at w b = record {
    after = items;
    flow = still;
    balanced =
        before_put s s.e_sem false (Writing.putting i) (ap announces at) refl
          (IsItem.putting (blocked_item (rw (← at) b.item))) b;
    bounded = λ size o. record {
      is_entry = o.is_entry;
      small = o.small;
      e = o.e;
      e_level = o.e_level;
      e_count = omega (arith, o.e_count, ap reserves at);
      prod_waits = ground (arith, o.prod_waits, ap is_held at, w);
      prod_calm = refl;
    };
  }
