-- ===== src/Decen/Deque/Queue.antt =====
-- The queue as a list of tasks: Push at the tail, Pop at the head.
use my_lpel.Common.{
  ℕ, suc, ◌+◌, ◌-◌, ◌%◌, ◌^◌, ◌<◌, ◌≡◌, ◌≢◌, refl, sym, true, false, Option, none, some, List, [],
  ◌∷◌, ◌++◌, arith, ==-refl, ==-ne, Yields, yields, Yields-bind, Ptr, null,
}
use my_lpel.Common.Lists.{length, length-append}
use my_lpel.Memory.{Heap, write, load-ok, modify-ok}
use my_lpel.Decen.Deque.{Task, Deque, is_loose, init, link_last, unlink_first, push, pop}
use my_lpel.Decen.Deque.Links.{
  mem, mem-differ, first, last, Links, nil, cons, frame, at_last, append,
}

pub record Queued (h : Heap Task) (tq : Deque) (tasks : List Ptr) : Type 0 where
  pub links : Links h null tasks
  pub head_first : tq.head ≡ first tasks
  pub tail_last : tq.tail ≡ last tasks
  pub counts : tq.count ≡ length tasks

pub init-Queued : (h : Heap Task) → Queued h init []
unfolding init
init-Queued h = record { links = nil; head_first = refl; tail_last = refl; counts = refl }

last-append : (xs : List Ptr) (t : Ptr) → last (xs ++ t ∷ []) ≡ t
last-append [] t = refl
last-append (x ∷ []) t = refl
last-append (x ∷ y ∷ xs) t = last-append (y ∷ xs) t

loose : (n : Task) → is_loose n ≡ true → (n.prev ≡ null) × (n.next ≡ null)
unfolding is_loose
loose n i = (ground (arith, i), ground (arith, i))

Links-first : {h : Heap Task} {before x : Ptr} {xs : List Ptr} → Links h before (x ∷ xs) → x ≢ null
Links-first (cons ne e p q out l) = ne

count_up :
    (tq : Deque) (tasks : List Ptr) (t : Ptr)
    → tq.count ≡ length tasks
    → length tasks + 1 < 2 ^ 32
    → (tq.count + 1) % 2 ^ 32 ≡ length (tasks ++ t ∷ [])
count_up tq tasks t e i = omega (arith, e, i, length-append tasks (t ∷ []))

-- nothing else was written
abbrev pub SameOutside : Ptr → List Ptr → Heap Task → Heap Task → Type 0
SameOutside t tasks h g = (a : Ptr) → mem a tasks ≡ false → a ≢ t → g a ≡ h a

link_last-Links :
    (h : Heap Task) (t : Ptr) (n : Task) {x : Ptr} (xs : List Ptr)
    → Links h null (x ∷ xs)
    → t ≢ null
    → h t ≡ some n
    → n.next ≡ null
    → mem t (x ∷ xs) ≡ false
    → Yields
        (λ g. Links g null (x ∷ xs ++ t ∷ []) × SameOutside t (x ∷ xs) h g)
        (link_last h (last (x ∷ xs)) t)
unfolding link_last
link_last-Links h t n {x} xs l ne e nn out =
    let (m, i, j, k, inside) = at_last l in
    let other : t ≢ last (x ∷ xs) = mem-differ (x ∷ xs) inside out in
    let still : write h (last (x ∷ xs)) (some (record m { next = t })) t ≡ some n =
      rw (==-ne t (last (x ∷ xs)) other) e in
    rw
      (
        modify-ok h (last (x ∷ xs)) m i j,
        modify-ok (write h (last (x ∷ xs)) (some (record m { next = t }))) t n ne still,
      )
      (yields (
        append h t m (record n { prev = last (x ∷ xs) }) xs l j ne nn refl out,
        λ a o i.
            rw (==-ne a t i, ==-ne a (last (x ∷ xs)) (λ z. mem-differ (x ∷ xs) inside o z)) refl,
      ))

-- Push onto a well-formed doubly linked queue of a task that is in no queue, while fewer than
-- 2^32 - 1 tasks are queued, succeeds and puts the task behind all others, with every link and
-- the count right.
pub push-Queued :
    (h : Heap Task) (tq : Deque) (tasks : List Ptr) (t : Ptr) (n : Task)
    → Queued h tq tasks
    → t ≢ null
    → h t ≡ some n
    → is_loose n ≡ true
    → mem t tasks ≡ false
    → length tasks + 1 < 2 ^ 32
    → Yields (λ (g, tq'). Queued g tq' (tasks ++ t ∷ []) × SameOutside t tasks h g) (push h tq t)
unfolding push
push-Queued h tq [] t n d ne e free out i =
    let (np, nn) = loose n free in
    rw (load-ok h t n ne e, free, d.head_first)
      (yields (
        record {
          links = cons {n = n} ne e np nn refl nil;
          head_first = refl;
          tail_last = refl;
          counts = count_up tq [] t d.counts i;
        },
        λ a o j. refl,
      ))
push-Queued h tq (x ∷ xs) t n d ne e free out i =
    let (np, nn) = loose n free in
    rw (load-ok h t n ne e, free, d.head_first, d.tail_last, ==-ne x null (Links-first d.links))
      (Yields-bind (link_last-Links h t n xs d.links ne e nn out) λ g (l, same). yields (
        record {
          links = l;
          head_first = refl;
          tail_last = sym (last-append (x ∷ xs) t);
          counts = count_up tq (x ∷ xs) t d.counts i;
        },
        same,
      ))

pub data Dequeued (h : Heap Task) : List Ptr → Option (Ptr × Heap Task × Deque) → Type 0 where
  nothing : Dequeued h [] none
  took_first :
      {t : Ptr} {tasks : List Ptr} {g : Heap Task} {tq' : Deque} {n : Task}
      → Queued g tq' tasks
      → g t ≡ some n
      → is_loose n ≡ true
      → SameOutside t tasks h g
      → Dequeued h (t ∷ tasks) (some (t, g, tq'))

unlinked :
    (h : Heap Task) (t y : Ptr) (n m : Task) {ys : List Ptr}
    → y ≢ null
    → m.next ≡ first ys
    → mem y ys ≡ false
    → mem t (y ∷ ys) ≡ false
    → Links h y ys
    → Links (write (write h y (some (record m { prev = null }))) t (some n)) null (y ∷ ys)
unlinked h t y n m {ys} ne q out free l =
    cons ne (rw (==-ne y t (λ e. ground (arith, free, e)), ==-refl y)) refl q out (
      frame l λ a i. rw (
        ==-ne a t (λ e. mem-differ ys i (ground (arith, free)) (sym e)),
        ==-ne a y (λ e. mem-differ ys i out (sym e)),
      ))

count_down :
    (tq : Deque) (n : ℕ) → tq.count ≡ suc n → suc n < 2 ^ 32 → (tq.count + 2 ^ 32 - 1) % 2 ^ 32 ≡ n
count_down tq n e i = omega (arith, e, i)

pop_some :
    (h : Heap Task) (tq : Deque) {t : Ptr} (tasks : List Ptr)
    → Queued h tq (t ∷ tasks)
    → length (t ∷ tasks) < 2 ^ 32
    → Links h null (t ∷ tasks)
    → Yields (Dequeued h (t ∷ tasks)) (pop h tq)
unfolding pop is_loose unlink_first
pop_some h tq {t} [] d i (cons {n} ne e p q out l) =
    rw (d.head_first, ==-ne t null ne, load-ok h t n ne e, q, load-ok h t n ne e, p, q)
      (yields (
        took_first
          (record {
            links = nil;
            head_first = refl;
            tail_last = refl;
            counts = count_down tq 0 d.counts i;
          })
          e (rw (p, q)) λ a o j. refl))
pop_some h tq {t} (y ∷ ys) d i (cons {n} ne e p q out (cons {n = m} ne' e' p' q' out' l)) =
    let other : t ≢ y = λ j. ground (arith, out, j) in
    rw
      (
        d.head_first,
        ==-ne t null ne,
        load-ok h t n ne e,
        q,
        ==-ne y null ne',
        modify-ok h y m ne' e',
        modify-ok (write h y (some (record m { prev = null }))) t n ne (rw (==-ne t y other) e),
        load-ok
            (write (write h y (some (record m { prev = null }))) t
              (some (record n { next = null })))
            t (record n { next = null }) ne (rw (==-refl t)),
        p,
      )
      (yields (
        took_first {n = record { prev = null; next = null }}
          (record {
            links = unlinked h t y (record { prev = null; next = null }) m ne' q' out' out l;
            head_first = refl;
            tail_last = d.tail_last;
            counts = count_down tq (length (y ∷ ys)) d.counts i;
          })
          (rw (==-refl t)) refl
          λ a o j. rw (==-ne a t j, ==-ne a y (λ z. ground (arith, o, z))) refl))

-- Pop of a well-formed doubly linked queue of fewer than 2^32 tasks gives nothing if it is empty;
-- otherwise it takes off the first task, which is then in no queue, fails no assert, and leaves
-- every link and the count right.
pub pop-Dequeued :
    (h : Heap Task) (tq : Deque) (tasks : List Ptr)
    → Queued h tq tasks
    → length tasks < 2 ^ 32
    → Yields (Dequeued h tasks) (pop h tq)
unfolding pop
pop-Dequeued h tq [] d i = rw (d.head_first) (yields nothing)
pop-Dequeued h tq (t ∷ tasks) d i = pop_some h tq tasks d i d.links
