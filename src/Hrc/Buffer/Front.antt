-- ===== src/Hrc/Buffer/Front.antt =====
-- The front of the list: what Top, Pop and IsEmpty see.
use my_lpel.Common.{
  ◌≡◌, ◌≢◌, refl, ◌∙◌, Bool, true, false, none, some, List, [], ◌∷◌, ◌++◌, arith, ==-ne, ok, Yields,
  yields, Ptr, null,
}
use my_lpel.Memory.{Heap, write, load-ok, free-ok}
use my_lpel.Memory.Seg.{Cells, has, vals, nil, cons, frame-write, Points-skip}
use my_lpel.Hrc.Buffer.{Entry, Buffer, top, pop, is_empty}
use my_lpel.Hrc.Buffer.Contents.{PointsTo, Chain, Proper, and_proper, Holds}

-- what `LpelBufferTop` returns
abbrev pub head_or_null : List Ptr → Ptr
head_or_null [] = null
head_or_null (x ∷ items) = x

abbrev pub is_nil : List Ptr → Bool
is_nil [] = true
is_nil (x ∷ items) = false

abbrev pub drop_first : List Ptr → List Ptr
drop_first [] = []
drop_first (x ∷ items) = items

-- what the head leads to: the first item, or nothing
data Front (h : Heap Entry) (buf : Buffer) : List Ptr → Type 0 where
  empty : {e : Entry} → buf.head ≢ null → h buf.head ≡ some e → e.next ≡ null → Front h buf []
  item :
      {e f : Entry} {q x : Ptr} {items : List Ptr}
      → buf.head ≢ null
      → h buf.head ≡ some e
      → e.next ≡ q
      → q ≢ null
      → h q ≡ some f
      → f.item ≡ x
      → x ≢ null
      → Holds (write h buf.head none) (record { head = q; tail = buf.tail }) items
      → Front h buf (x ∷ items)

-- the first entry of a chain that ends in the tail
lead :
    {h : Heap Entry} {tail p last x : Ptr} {xs : Cells Ptr} {rest : List Ptr}
    → Chain h tail p xs
    → PointsTo h tail last null
    → vals xs ++ last ∷ [] ≡ x ∷ rest
    → (f : Entry) × (p ≢ null) × (h p ≡ some f) × (f.item ≡ x)
lead nil e eq = (e.node, e.ne_null, e.holds, e.value ∙ cc eq)
lead (cons e out s) end eq = (e.node, e.ne_null, e.holds, e.value ∙ cc eq)

snoc-ne-nil : (xs : List Ptr) (y : Ptr) → xs ++ y ∷ [] ≢ []
snoc-ne-nil [] y eq = ground (arith, eq)
snoc-ne-nil (x ∷ xs) y eq = ground (arith, eq)

front :
    {h : Heap Entry} {head tail last spent : Ptr} {cells : Cells Ptr} (items : List Ptr)
    → Chain h tail head cells
    → PointsTo h tail last null
    → has tail cells ≡ false
    → vals cells ++ last ∷ [] ≡ spent ∷ items
    → Proper items
    → Front h (record { head = head; tail = tail }) items
front [] nil end out eq proper = empty end.ne_null end.holds end.leads
front (x ∷ items) nil end out eq proper = ground (arith, eq)
front {last} [] (cons {xs} e out' s) end out eq proper = absurd (snoc-ne-nil (vals xs) last (cc eq))
front {h} {head} {tail} {last} (x ∷ items) (cons {q} {xs} e out' s) end out eq (and_proper ne p) =
    let shows : vals xs ++ last ∷ [] ≡ x ∷ items = cc eq in
    let (f, ne', hq, fx) = lead s end shows in
    item e.ne_null e.holds e.leads ne' hq fx ne (record {
      cells = xs;
      last = last;
      chain = frame-write head none s out';
      end = Points-skip h head none end (ground (arith, out));
      apart = ground (arith, out);
      spent = x;
      shows = shows;
      proper = p;
    })

Holds-Front :
    {h : Heap Entry} {buf : Buffer} {items : List Ptr} → Holds h buf items → Front h buf items
Holds-Front {items} hold = front items hold.chain hold.end hold.apart hold.shows hold.proper

Front-entry :
    {h : Heap Entry} {buf : Buffer} {items : List Ptr}
    → Front h buf items
    → (e : Entry) × (h buf.head ≡ some e)
Front-entry (empty {e} ne hd nx) = (e, hd)
Front-entry (item {e} ne hd nx ne' hq fx proper rest) = (e, hd)

pub head_entry :
    {h : Heap Entry} {buf : Buffer} {items : List Ptr}
    → Holds h buf items
    → (e : Entry) × (h buf.head ≡ some e)
head_entry hold = Front-entry (Holds-Front hold)

Front-top :
    {h : Heap Entry} {buf : Buffer} {items : List Ptr}
    → Front h buf items
    → top h buf ≡ ok (head_or_null items)
unfolding top
Front-top {h} {buf} (empty {e} ne hd nx) = rw (load-ok h buf.head e ne hd, nx)
Front-top {h} {buf} (item {e} {f} {q} ne hd nx ne' hq fx proper rest) =
    rw (load-ok h buf.head e ne hd, nx, ==-ne q null ne', load-ok h q f ne' hq, fx)

-- Top of a well-formed buffer is its first item, or NULL if it has none.
pub top-head :
    {h : Heap Entry} {buf : Buffer} {items : List Ptr}
    → Holds h buf items
    → top h buf ≡ ok (head_or_null items)
top-head hold = Front-top (Holds-Front hold)

Front-is_empty :
    {h : Heap Entry} {buf : Buffer} {items : List Ptr}
    → Front h buf items
    → is_empty h buf ≡ ok (is_nil items)
unfolding is_empty
Front-is_empty {h} {buf} (empty {e} ne hd nx) = rw (load-ok h buf.head e ne hd, nx)
Front-is_empty {h} {buf} (item {e} {q} ne hd nx ne' hq fx proper rest) =
    rw (load-ok h buf.head e ne hd, nx, ==-ne q null ne')

pub is_empty-Holds :
    {h : Heap Entry} {buf : Buffer} {items : List Ptr}
    → Holds h buf items
    → is_empty h buf ≡ ok (is_nil items)
is_empty-Holds hold = Front-is_empty (Holds-Front hold)

abbrev pub Advanced : Heap Entry → Buffer → List Ptr → Heap Entry × Buffer → Type 0
Advanced h buf items (g, buf') =
    Holds g buf' (drop_first items) × ((a : Ptr) → a ≢ buf.head → g a ≡ h a)

Front-pop :
    {h : Heap Entry} {buf : Buffer} {items : List Ptr}
    → Holds h buf items
    → Front h buf items
    → Yields (Advanced h buf items) (pop h buf)
unfolding pop
Front-pop {h} {buf} hold (empty {e} ne hd nx) =
    rw (load-ok h buf.head e ne hd, nx) (yields (hold, λ a i. refl))
Front-pop {h} {buf} hold (item {e} {q} ne hd nx ne' hq fx proper rest) =
    rw (load-ok h buf.head e ne hd, nx, ==-ne q null ne', free-ok h buf.head e ne hd)
      (yields (rest, λ a i. rw (==-ne a buf.head i)))

-- Pop takes off the first item if there is one and changes no address but the head, in any
-- well-formed buffer.
pub pop-Holds :
    {h : Heap Entry} {buf : Buffer} {items : List Ptr}
    → Holds h buf items
    → Yields (Advanced h buf items) (pop h buf)
pop-Holds hold = Front-pop hold (Holds-Front hold)

Proper-head : {x : Ptr} {items : List Ptr} → Proper (x ∷ items) → x ≢ null
Proper-head (and_proper ne p) = ne

pub proper_head :
    {h : Heap Entry} {buf : Buffer} {x : Ptr} {items : List Ptr}
    → Holds h buf (x ∷ items)
    → x ≢ null
proper_head hold = Proper-head hold.proper
