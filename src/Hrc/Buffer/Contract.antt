-- ===== src/Hrc/Buffer/Contract.antt =====
-- The linked list fulfils what a stream relies on, with an allocator that hands out addresses in order.
use my_lpel.Common.{
  ◌+◌, ◌≤◌, ◌<◌, ◌≡◌, ◌≢◌, ◌∙◌, inl, inr, none, some, List, [], ◌∷◌, ◌++◌, arith, ltb, Bool-cases,
  Res, ok, ◌>>=◌, Yields, yields, Yields-bind, Ptr, null,
}
use my_lpel.ItemBuffer.{ItemBuffer}
use my_lpel.Memory.{Heap}
use my_lpel.Hrc.Buffer.{Entry, Buffer, top, pop, put, is_space, is_empty}
use my_lpel.Hrc.Buffer.Contents.{Holds, put-Holds, is_space-true}
use my_lpel.Hrc.Buffer.Front.{
  head_entry, drop_first, top-head, pop-Holds, is_empty-Holds, proper_head,
}

-- a buffer with its heap, in which every address from `brk` on holds nothing
pub record Arena : Type 0 where
  pub heap : Heap Entry
  pub buffer : Buffer
  pub brk : Ptr

pub record InArena (a : Arena) (items : List Ptr) : Type 0 where
  pub holds : Holds a.heap a.buffer items
  pub real : 0 < a.brk
  pub unused : (p : Ptr) → a.brk ≤ p → a.heap p ≡ none

pub pop_arena : Arena → Res Arena
pop_arena a = do (h, b) ← pop a.heap a.buffer; ok (record a { heap = h; buffer = b })

pub put_arena : Arena → Ptr → Res Arena
put_arena a x = do
  (h, b) ← put a.brk a.heap a.buffer x
  ok (record { heap = h; buffer = b; brk = a.brk + 1 })

allocated :
    {a : Arena} {items : List Ptr} (p : Ptr) (e : Entry)
    → InArena a items
    → a.heap p ≡ some e
    → p < a.brk
allocated {a} p e i h = elim (Bool-cases (ltb p a.brk)) [
  | inl lt ↦ ground (arith, lt)
  | inr ge ↦ ground (arith, i.unused p (ground (arith, ge)), h)
]

beyond :
    {a : Arena} {items : List Ptr} (p : Ptr) (e : Entry) (q : Ptr)
    → InArena a items
    → a.heap p ≡ some e
    → a.brk ≤ q
    → q ≢ p
beyond p e q i h j k = let lt = allocated p e i h in omega (arith, lt, j, k)

pub pop_arena-Holds :
    (a : Arena) (items : List Ptr)
    → InArena a items
    → Yields (λ c. InArena c (drop_first items)) (pop_arena a)
unfolding pop_arena
pop_arena-Holds a items i =
    let (e, h) = head_entry i.holds in
    Yields-bind (pop-Holds i.holds) λ r p. yields (record {
      holds = p.0;
      real = i.real;
      unused = λ q j. p.1 q (beyond a.buffer.head e q i h j) ∙ i.unused q j;
    })

pub put_arena-Holds :
    (a : Arena) (x : Ptr) (items : List Ptr)
    → InArena a items
    → x ≢ null
    → Yields (λ c. InArena c (items ++ x ∷ [])) (put_arena a x)
unfolding put_arena
put_arena-Holds a x items i ne =
    Yields-bind
      (put-Holds a.brk x i.holds (λ e. ground (arith, i.real, e)) (i.unused a.brk (omega arith)) ne)
      λ r p. yields (record {
        holds = p.0;
        real = omega arith;
        unused = λ q j.
            p.1 q (λ e. omega (arith, e, j))
              (beyond a.buffer.tail i.holds.end.node q i i.holds.end.holds (omega (arith, j)))
            ∙ i.unused q (omega (arith, j));
      })

abbrev pub list_buffer : ItemBuffer
list_buffer = record {
  Buf = Arena;
  Holds = InArena;
  top = λ a. top a.heap a.buffer;
  pop = pop_arena;
  put = put_arena;
  is_space = λ a. is_space a.buffer;
  is_empty = λ a. is_empty a.heap a.buffer;
  top_none = λ a i. top-head i.holds;
  top_some = λ a x items i. top-head i.holds;
  proper = λ a x items i. proper_head i.holds;
  pop_some = λ a x items i. pop_arena-Holds a (x ∷ items) i;
  put_last = λ a x items i ne. put_arena-Holds a x items i ne;
  space = λ a. is_space-true a.buffer;
  empty_none = λ a i. is_empty-Holds i.holds;
  empty_some = λ a x items i. is_empty-Holds i.holds;
}
