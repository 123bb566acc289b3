-- ===== src/Decen/Ring/Queue.antt =====
-- The ring is a bounded queue: what each operation does to the items.
use my_lpel.Common.{
  ℕ, suc, ◌+◌, ◌-◌, ◌≤◌, ◌<◌, ◌≡◌, ◌≢◌, refl, sym, ap, ◌∙◌, inl, inr, true, List, [], ◌∷◌, ◌++◌,
  arith, ltb, ◌==◌, Bool-cases, ==-true, ==-false, ==-refl, ==-ne, ltb-true, ltb-false, ok, fault,
  assertion, Yields, yields, update, Ptr, null,
}
use my_lpel.Common.Lists.{length, length-append}
use my_lpel.Decen.Ring.{Buffer, load, store, top, pop, is_space, put, is_empty}
use my_lpel.Decen.Ring.Places.{
  place, item_at, no_null, item_at-beyond, item_at-append, no_null-append, advance-place, IsRing,
}

-- the items without the first
abbrev pub drop_first : List Ptr → List Ptr
drop_first [] = []
drop_first (x ∷ items) = items

place-small : (size p i : ℕ) → p < size → i ≤ size → place size p i < size
place-small size p i j k = ground (arith, j, k)

place-zero : (size p : ℕ) → p < size → place size p 0 ≡ p
place-zero size p j = ground (arith, j)

-- distinct steps lead to distinct places
place-differ :
    (size p i j : ℕ) → p < size → i < size → j < size → i ≢ j → place size p i ≢ place size p j
place-differ size p i j k l m ne e = ne (ground (arith, e, k, l, m))

place-next :
    (size p i : ℕ) → p < size → i < size → place size (place size p 1) i ≡ place size p (i + 1)
place-next size p i j k = ground (arith, j, k)

place-step :
    (size p i : ℕ) → p < size → i < size → place size (place size p i) 1 ≡ place size p (i + 1)
place-step size p i j k = ground (arith, j, k)

place-round : (size p : ℕ) → p < size → place size p size ≡ p
place-round size p j = ground (arith, j)

head_null :
    (items : List Ptr) → no_null items ≡ true → (item_at items 0 == null) ≡ (length items == 0)
head_null [] h = refl
head_null (x ∷ items) h = ground (arith, h)

length-drop_first : (items : List Ptr) → length (drop_first items) ≡ length items - 1
length-drop_first [] = omega arith
length-drop_first (x ∷ items) = omega arith

no_null-drop_first : (items : List Ptr) → no_null items ≡ true → no_null (drop_first items) ≡ true
no_null-drop_first [] h = refl
no_null-drop_first (x ∷ items) h = ground (arith, h)

item_at-drop_first :
    (items : List Ptr) (i : ℕ) → item_at (drop_first items) i ≡ item_at items (suc i)
item_at-drop_first [] i = refl
item_at-drop_first (x ∷ items) i = refl

module _ (buf : Buffer) (items : List Ptr) (b : IsRing buf items) where
  read_entry : buf.entries buf.pread ≡ item_at items 0
  read_entry =
      ap buf.entries (sym (place-zero buf.size buf.pread b.reads))
      ∙ b.entry 0 (omega (arith, b.reads))

  pub top-item_at : top buf ≡ ok (item_at items 0)
  unfolding top load
  top-item_at = rw (ltb-true buf.pread buf.size b.reads) (ap ok read_entry)

  pub is_empty-length : is_empty buf ≡ ok (length items == 0)
  unfolding is_empty load
  is_empty-length =
      rw (ltb-true buf.pread buf.size b.reads, read_entry) (ap ok (head_null items b.proper))

  write_small : buf.pwrite < buf.size
  write_small = rw (b.writes) (place-small buf.size buf.pread (length items) b.reads b.fits)

  -- behind the last item is NULL, or in a full ring the first item
  write_null : (buf.entries buf.pwrite == null) ≡ ltb (length items) buf.size
  write_null = rw (b.writes) (elim (Bool-cases (ltb (length items) buf.size)) [
    | inl lt ↦
        let room : length items < buf.size = ground (arith, lt) in
        rw (lt, b.entry (length items) room, item_at-beyond items (length items) (omega arith))
    | inr ge ↦
        let full : length items ≡ buf.size = ground (arith, ge, b.fits) in
        rw (ge, full, place-round buf.size buf.pread b.reads, read_entry, head_null items b.proper)
          (==-ne (length items) 0 λ e. omega (arith, e, full, b.reads))
  ])

  -- IsSpace of a well-formed ring holds exactly if there are fewer items than places.
  pub is_space-fits : is_space buf ≡ ok (ltb (length items) buf.size)
  unfolding is_space load
  is_space-fits = rw (ltb-true buf.pwrite buf.size write_small) (ap ok write_null)

  put_entry :
      (x : Ptr) (i : ℕ)
      → length items < buf.size
      → i < buf.size
      → update buf.entries buf.pwrite x (place buf.size buf.pread i) ≡ item_at (items ++ x ∷ []) i
  put_entry x i room j =
      rw (b.writes, item_at-append items x i)
        (elim (Bool-cases (i == length items)) [
          | inl e ↦
              rw (e, ==-true i (length items) e, ==-refl (place buf.size buf.pread (length items)))
          | inr ne ↦
              rw
                (
                  ne,
                  ==-ne (place buf.size buf.pread i) (place buf.size buf.pread (length items)) (
                      place-differ buf.size buf.pread i (length items) b.reads j room
                        (==-false i (length items) ne)),
                )
                (b.entry i j)
        ])

  moved :
      (x : Ptr)
      → length items < buf.size
      → place buf.size buf.pwrite 1 ≡ place buf.size buf.pread (length (items ++ x ∷ []))
  moved x room = rw (b.writes) (
      place-step buf.size buf.pread (length items) b.reads room
      ∙ ap (place buf.size buf.pread) (omega (arith, length-append items (x ∷ []))))

  -- Put of an item that is not NULL into a well-formed ring with a free place adds the item
  -- behind all others and leaves the reading index and the size alone.
  pub put-IsRing :
      (x : Ptr)
      → x ≢ null
      → length items < buf.size
      → Yields
          (λ c. IsRing c (items ++ x ∷ []) × (c.pread ≡ buf.pread) × (c.size ≡ buf.size))
          (put buf x)
  unfolding put store
  put-IsRing x ne room =
      rw
        (
          ==-ne x null ne,
          is_space-fits,
          ltb-true (length items) buf.size room,
          ltb-true buf.pwrite buf.size write_small,
        )
        (yields (
          record {
            small = b.small;
            reads = b.reads;
            writes = advance-place buf.size buf.pwrite write_small b.small ∙ moved x room;
            fits = omega (arith, room, length-append items (x ∷ []));
            proper = no_null-append items x b.proper ne;
            entry = λ i j. put_entry x i room j;
          },
          refl,
          refl,
        ))

  -- Put into a well-formed ring that is full fails an assert.
  pub put-full : (x : Ptr) → length items ≡ buf.size → put buf x ≡ fault assertion
  unfolding put
  put-full x full = elim (Bool-cases (x == null)) [
    | inl e ↦ rw (e)
    | inr ne ↦ rw (ne, is_space-fits, ltb-false (length items) buf.size (omega (arith, full)))
  ]

  other : (i : ℕ) → i + 1 < buf.size → place buf.size buf.pread (i + 1) ≢ buf.pread
  other i j e =
      place-differ buf.size buf.pread (i + 1) 0 b.reads j (omega (arith, j)) (λ k. omega (arith, k))
        (e ∙ sym (place-zero buf.size buf.pread b.reads))

  pop_place :
      0 < length items
      → buf.pwrite ≡ place buf.size (place buf.size buf.pread 1) (length (drop_first items))
  pop_place some_items =
      b.writes
      ∙ ap (place buf.size buf.pread) (omega (arith, some_items))
      ∙ sym (
          place-next buf.size buf.pread (length items - 1) b.reads
            (omega (arith, some_items, b.fits)))
      ∙ ap (place buf.size (place buf.size buf.pread 1)) (sym (length-drop_first items))

  pop_entry :
      (i : ℕ)
      → i < buf.size
      → update buf.entries buf.pread null (place buf.size (place buf.size buf.pread 1) i)
        ≡ item_at (drop_first items) i
  pop_entry i j =
      rw (place-next buf.size buf.pread i b.reads j) (elim (Bool-cases (i + 1 == buf.size)) [
        | inl e ↦
            let last : i + 1 ≡ buf.size = ==-true (i + 1) buf.size e in
            rw (
              last,
              place-round buf.size buf.pread b.reads,
              ==-refl buf.pread,
              item_at-drop_first items i,
              item_at-beyond items (suc i) (omega (arith, last, b.fits)),
            )
        | inr ne ↦
            let inside : i + 1 < buf.size = ground (arith, ne, j) in
            rw
              (
                item_at-drop_first items i,
                ==-ne (place buf.size buf.pread (i + 1)) buf.pread (other i inside),
              )
              (b.entry (i + 1) inside ∙ ap (item_at items) (omega arith))
      ])

  -- Pop of a well-formed ring that is not empty takes off the first item and leaves the writing
  -- index and the size alone.
  pub pop-IsRing :
      0 < length items
      → Yields
          (λ c. IsRing c (drop_first items) × (c.pwrite ≡ buf.pwrite) × (c.size ≡ buf.size))
          (pop buf)
  unfolding pop store
  pop-IsRing some_items =
      rw (ltb-true buf.pread buf.size b.reads, advance-place buf.size buf.pread b.reads b.small)
        (yields (
          record {
            small = b.small;
            reads = place-small buf.size buf.pread 1 b.reads (omega (arith, b.reads));
            writes = pop_place some_items;
            fits = omega (arith, length-drop_first items, b.fits);
            proper = no_null-drop_first items b.proper;
            entry = λ i j. pop_entry i j;
          },
          refl,
          refl,
        ))
