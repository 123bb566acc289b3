-- ===== src/Hrc/Buffer/Contents.antt =====
-- The linked list as a queue of items.
use my_lpel.Common.{
  ◌≡◌, ◌≢◌, refl, sym, ap, ◌∙◌, true, false, none, some, List, [], ◌∷◌, ◌++◌, arith, ==-refl, ==-ne,
  Yields, yields, Ptr, null,
}
use my_lpel.Memory.{Heap, write, load-ok, modify-ok}
use my_lpel.Memory.Seg.{
  Cells, has, has-append, vals, vals-append, Points, Seg, nil, frame-write, snoc, not-has_of_none,
  Points-write, Points-skip,
}
use my_lpel.Hrc.Buffer.{is_space, Entry, Buffer, create_entry, init, put}

abbrev pub PointsTo : Heap Entry → Ptr → Ptr → Ptr → Type 0
PointsTo = Points (λ e. e.next) (λ e. e.item)

abbrev pub Chain : Heap Entry → Ptr → Ptr → Cells Ptr → Type 0
Chain = Seg (λ e. e.next) (λ e. e.item)

-- items are not NULL
pub data Proper : List Ptr → Type 0 where
  none_proper : Proper []
  and_proper : {x : Ptr} {xs : List Ptr} → x ≢ null → Proper xs → Proper (x ∷ xs)

-- from the head the entries lead to the tail; their items but the first's are the items
pub record Holds (h : Heap Entry) (buf : Buffer) (items : List Ptr) : Type 0 where
  pub cells : Cells Ptr
  pub last : Ptr
  pub chain : Chain h buf.tail buf.head cells
  pub end : PointsTo h buf.tail last null
  pub apart : has buf.tail cells ≡ false
  pub spent : Ptr
  pub shows : vals cells ++ last ∷ [] ≡ spent ∷ items
  pub proper : Proper items

Proper-snoc : (xs : List Ptr) (x : Ptr) → Proper xs → x ≢ null → Proper (xs ++ x ∷ [])
Proper-snoc [] x none_proper ne = and_proper ne none_proper
Proper-snoc (y ∷ xs) x (and_proper ne' p) ne = and_proper ne' (Proper-snoc xs x p ne)

pub init-Holds :
    (fresh : Ptr) (h : Heap Entry) → fresh ≢ null → (let r = init fresh h in Holds r.0 r.1 [])
unfolding init create_entry
init-Holds fresh h ne = record {
  cells = [];
  last = null;
  chain = nil;
  end = Points-write h fresh (record { item = null; next = null }) ne refl refl;
  apart = refl;
  spent = null;
  shows = refl;
  proper = none_proper;
}

-- Put into a well-formed buffer of an item that is not NULL, with an unused address from malloc,
-- adds the item behind all others and changes only the new entry and the tail.
pub put-Holds :
    {h : Heap Entry} {buf : Buffer} {items : List Ptr} (fresh item : Ptr)
    → Holds h buf items
    → fresh ≢ null
    → h fresh ≡ none
    → item ≢ null
    → Yields
        (λ (g, buf').
          Holds g buf' (items ++ item ∷ []) × ((a : Ptr) → a ≢ fresh → a ≢ buf.tail → g a ≡ h a))
        (put fresh h buf item)
unfolding put create_entry
put-Holds {h} {buf} {items} fresh item hold ne unused ne' =
    rw
      (
        ==-ne item null ne',
        modify-ok g buf.tail hold.end.node hold.end.ne_null still,
        load-ok k buf.tail n hold.end.ne_null (rw (==-refl buf.tail)),
      )
      (yields (
        record {
          cells = hold.cells ++ (buf.tail, hold.last) ∷ [];
          last = item;
          chain =
              snoc (frame-write buf.tail _ (frame-write fresh _ hold.chain out) hold.apart)
                (Points-write g buf.tail n hold.end.ne_null hold.end.value refl) hold.apart;
          end =
              Points-skip g buf.tail _
                (Points-write h fresh (record { item = item; next = null }) ne refl refl) other;
          apart = ground (arith, out, has-append fresh hold.cells ((buf.tail, hold.last) ∷ []));
          spent = hold.spent;
          shows =
              ap (λ l. l ++ item ∷ [])
                (vals-append hold.cells ((buf.tail, hold.last) ∷ []) ∙ hold.shows);
          proper = Proper-snoc items item hold.proper ne';
        },
        λ a i j. rw (==-ne a buf.tail j, ==-ne a fresh i),
      ))
  where
    g : Heap Entry
    g = write h fresh (some (record { item = item; next = null }))

    n : Entry
    n = record hold.end.node { next = fresh }

    k : Heap Entry
    k = write g buf.tail (some n)

    other : fresh ≢ buf.tail
    other e = ground (arith, hold.end.holds, ap h e, unused)

    out : has fresh hold.cells ≡ false
    out = not-has_of_none fresh hold.chain unused

    still : g buf.tail ≡ some hold.end.node
    still = rw (==-ne buf.tail fresh (λ i. other (sym i)), hold.end.holds)

-- the buffer is unbounded
pub is_space-true : (buf : Buffer) → is_space buf ≡ true
unfolding is_space
is_space-true buf = refl
