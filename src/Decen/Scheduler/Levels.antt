-- ===== src/Decen/Scheduler/Levels.antt =====
-- The levels as lists of tasks: a task is made ready behind the others of its priority, and the first
-- one of the highest priority is fetched.
use my_lpel.Common.{
  ok, leb, ltb-true, ◌-◌, ◌≤◌, ℕ, zero, suc, ◌+◌, ◌^◌, ◌<◌, ◌≡◌, ◌≢◌, refl, sym, ap, ◌∙◌, true,
  false, Option, none, some, List, [], ◌∷◌, ◌++◌, arith, ◌==◌, ==-ne, ==-refl, ==-true, ==-false,
  Bool-cases, inl, inr, ltb, Yields, yields, Yields-bind, Yields-map, update, Ptr, null,
}
use my_lpel.Common.Int.{ℤ, pos, negsuc}
use my_lpel.Common.Lists.{length}
use my_lpel.Memory.{Heap}
use my_lpel.Decen.Deque.{Task, Deque, is_loose}
use my_lpel.Decen.Deque.Links.{mem, mem-append, frame}
use my_lpel.Decen.Deque.Queue.{
  Queued, init-Queued, SameOutside, push-Queued, Dequeued, nothing, took_first, pop-Dequeued,
}
use my_lpel.Decen.Scheduler.{
  queue_at, num_prio, SchedCtx, create, level, make_ready, popped, fetch_loop, fetch_ready,
}

-- each level holds its tasks, and no task is on two levels
pub record Levels (h : Heap Task) (sc : SchedCtx) (tasks : ℕ → List Ptr) : Type 0 where
  pub queued : (i : ℕ) → Queued h (sc i) (tasks i)
  pub apart : (a i j : ℕ) → mem a (tasks i) ≡ true → i ≢ j → mem a (tasks j) ≡ false

pub create-Levels : (h : Heap Task) → Levels h create (λ i. [])
unfolding create
create-Levels h = record { queued = λ i. init-Queued h; apart = λ a i j e ne. refl }

Queued-frame :
    {h g : Heap Task} {tq : Deque} {tasks : List Ptr}
    → Queued h tq tasks
    → ((a : Ptr) → mem a tasks ≡ true → g a ≡ h a)
    → Queued g tq tasks
Queued-frame d same = record {
  links = frame d.links same;
  head_first = d.head_first;
  tail_last = d.tail_last;
  counts = d.counts;
}

module _ {h : Heap Task} {sc : SchedCtx} {tasks : ℕ → List Ptr} (i t : ℕ) (tq : Deque)
    (xs : List Ptr) (l : Levels h sc tasks) (others : (j : ℕ) → i ≢ j → mem t (tasks j) ≡ false)
    (from : (a : Ptr) → mem a xs ≡ true → a ≢ t → mem a (tasks i) ≡ true) where
  -- what the changed level holds is on no other
  elsewhere : (a k : ℕ) → mem a xs ≡ true → i ≢ k → mem a (tasks k) ≡ false
  elsewhere a k m ne = elim (Bool-cases (a == t)) [
    | inl same ↦ rw (==-true a t same) (others k ne)
    | inr other ↦ l.apart a i k (from a m (==-false a t other)) ne
  ]

  elsewhere_back : (a j : ℕ) → mem a (tasks j) ≡ true → i ≢ j → mem a xs ≡ false
  elsewhere_back a j m ne = elim (Bool-cases (mem a xs)) [
    | inl inside ↦ absurd (ground (arith, m, elsewhere a j inside ne))
    | inr out ↦ out
  ]

  apart_still :
      (a j k : ℕ) → mem a (update tasks i xs j) ≡ true → j ≢ k → mem a (update tasks i xs k) ≡ false
  apart_still a j k m ne = elim (Bool-cases (j == i)) [
    | inl here ↦
        let other : i ≢ k = λ e. ne (==-true j i here ∙ e) in
        rw (==-ne k i (λ e. other (sym e))) (elsewhere a k (rw here at m) other)
    | inr there ↦ elim (Bool-cases (k == i)) [
      | inl here ↦ rw here (elsewhere_back a j (rw there at m) λ e. ==-false j i there (sym e))
      | inr there' ↦ rw there' (l.apart a j k (rw there at m) ne)
    ]
  ]

  -- one level was changed, and nothing on another
  changed :
      {g : Heap Task}
      → SameOutside t (tasks i) h g
      → Queued g tq xs
      → Levels g (update sc i tq) (update tasks i xs)
  changed same new = record {
    queued = λ j. elim (Bool-cases (j == i)) [
      | inl here ↦ rw here new
      | inr there ↦
          let ne : i ≢ j = λ e. ==-false j i there (sym e) in
          rw there (
            Queued-frame (l.queued j) λ a m.
              same a (l.apart a j i m (==-false j i there))
                λ e. ground (arith, m, others j ne, ap (λ z. mem z (tasks j)) e))
    ];
    apart = apart_still;
  }

-- the level that is nearest to a priority
pub data Nearest : ℤ → ℕ → Type 0 where
  below : {n : ℕ} → Nearest (negsuc n) 0
  within : {n : ℕ} → n < num_prio → Nearest (pos n) n
  above : {n : ℕ} → num_prio ≤ n → Nearest (pos n) (num_prio - 1)

level-Nearest : (prio : ℤ) → Nearest prio (level prio)
unfolding level
level-Nearest (pos n) = elim (Bool-cases (leb num_prio n)) [
  | inl high ↦ rw high (above (ground (arith, high)))
  | inr low ↦ rw low (within (ground (arith, low)))
]
level-Nearest (negsuc n) = below

Nearest-inside : {prio : ℤ} {i : ℕ} → Nearest prio i → i < num_prio
Nearest-inside below = omega arith
Nearest-inside (within h) = h
Nearest-inside (above h) = omega arith

queue_at-ok : (sc : SchedCtx) (i : ℕ) → i < num_prio → queue_at sc i ≡ ok (sc i)
unfolding queue_at
queue_at-ok sc i inside = rw (ltb-true i num_prio inside) refl

-- the task is the last one of its level now
pub data Readied (tasks : ℕ → List Ptr) (t : Ptr) (prio : ℤ) : Heap Task × SchedCtx → Type 0 where
  readied :
      {g : Heap Task} {sc : SchedCtx} (i : ℕ)
      → Nearest prio i
      → Levels g sc (update tasks i (tasks i ++ t ∷ []))
      → Readied tasks t prio (g, sc)

-- A task in no queue that is made ready goes behind the others of the level nearest to its
-- priority, the lowest for a negative one and the highest for one that is too high, and all
-- levels stay well formed and share no task, if each level has fewer than 2^32 - 1 tasks; no
-- index is outside the levels.
pub make_ready-Readied :
    (h : Heap Task) (sc : SchedCtx) (tasks : ℕ → List Ptr) (t : Ptr) (n : Task) (prio : ℤ)
    → Levels h sc tasks
    → t ≢ null
    → h t ≡ some n
    → is_loose n ≡ true
    → ((i : ℕ) → mem t (tasks i) ≡ false)
    → ((i : ℕ) → i < num_prio → length (tasks i) + 1 < 2 ^ 32)
    → Yields (Readied tasks t prio) (make_ready h sc t prio)
unfolding make_ready
make_ready-Readied h sc tasks t n prio l ne e free out less =
    let i : ℕ = level prio in
    let near : Nearest prio i = level-Nearest prio in
    let inside : i < num_prio = Nearest-inside near in
    rw (queue_at-ok sc i inside) (
      Yields-bind
        (push-Queued h (sc i) (tasks i) t n (l.queued i) ne e free (out i) (less i inside))
        λ (g, tq) (q, same). yields (
          readied i near (
            changed i t tq (tasks i ++ t ∷ []) l (λ j k. out j)
              (λ a m other. ground (arith, m, mem-append a t (tasks i), ==-ne a t other)) same q)))

-- the first task of the highest level that is not empty
pub data Fetched (k : ℕ) (tasks : ℕ → List Ptr) : Option (Ptr × Heap Task × SchedCtx) → Type 0 where
  no_task : ((i : ℕ) → i < k → tasks i ≡ []) → Fetched k tasks none
  fetched :
      {t : Ptr} {g : Heap Task} {sc : SchedCtx} {n : Task} (i : ℕ) (rest : List Ptr)
      → i < k
      → tasks i ≡ t ∷ rest
      → ((j : ℕ) → i < j → j < k → tasks j ≡ [])
      → Levels g sc (update tasks i rest)
      → g t ≡ some n
      → is_loose n ≡ true
      → Fetched k tasks (some (t, g, sc))

length-zero : (xs : List Ptr) → length xs ≡ 0 → xs ≡ []
length-zero [] e = refl
length-zero (x ∷ xs) e = absurd (omega (arith, e))

one_higher :
    (k : ℕ) (tasks : ℕ → List Ptr) (r : Option (Ptr × Heap Task × SchedCtx))
    → tasks k ≡ []
    → Fetched k tasks r
    → Fetched (suc k) tasks r
one_higher k tasks none e (no_task f) = no_task λ i less. elim (Bool-cases (i == k)) [
  | inl here ↦ ap tasks (==-true i k here) ∙ e
  | inr there ↦ f i (omega (arith, less, ==-false i k there))
]
one_higher k tasks _ e (fetched i rest less eq empty l at free) =
    fetched i rest (omega (arith, less)) eq
      (λ j above below. elim (Bool-cases (j == k)) [
        | inl here ↦ ap tasks (==-true j k here) ∙ e
        | inr there ↦ empty j above (omega (arith, below, ==-false j k there))
      ])
      l at free

take_level :
    {h : Heap Task} {sc : SchedCtx} {tasks : ℕ → List Ptr} {xs : List Ptr}
    {r : Option (Ptr × Heap Task × Deque)} (i : ℕ)
    → Levels h sc tasks
    → tasks i ≡ xs
    → 0 < length xs
    → Dequeued h xs r
    → Fetched (suc i) tasks (popped sc i r)
take_level i l eq some_task nothing = absurd (omega (arith, some_task))
take_level {h} {tasks} i l eq some_task (took_first {t} {tasks = rest} {g} {tq'} q at free same) =
    fetched i rest (omega arith) eq (λ j a b. absurd (omega (arith, a, b)))
      (changed i t tq' rest l (λ j ne. l.apart t i j (rw (eq, ==-refl t) refl) ne)
        (λ a m ne. rw eq (ground (arith, m))) (rw eq λ a o ne. same a (ground (arith, o)) ne) q)
      at free

fetch_loop-Fetched :
    (k : ℕ) (h : Heap Task) (sc : SchedCtx) (tasks : ℕ → List Ptr)
    → k ≤ num_prio
    → Levels h sc tasks
    → ((i : ℕ) → length (tasks i) < 2 ^ 32)
    → Yields (Fetched k tasks) (fetch_loop k h sc)
unfolding fetch_loop
fetch_loop-Fetched zero h sc tasks inside l less =
    yields (no_task λ i lt. absurd (omega (arith, lt)))
fetch_loop-Fetched (suc k) h sc tasks inside l less =
    rw (queue_at-ok sc k (omega (arith, inside))) (elim (Bool-cases (ltb 0 (sc k).count)) [
      | inl full ↦ rw full (
          Yields-bind (pop-Dequeued h (sc k) (tasks k) (l.queued k) (less k))
            λ r d. yields (take_level k l refl (ground (arith, full, (l.queued k).counts)) d))
      | inr empty ↦ rw empty (
          Yields-map (fetch_loop-Fetched k h sc tasks (omega (arith, inside)) l less) (λ r.
            one_higher k tasks r
              (length-zero (tasks k) (ground (arith, empty, (l.queued k).counts)))))
    ])

-- From levels that are well formed and share no task, with fewer than 2^32 tasks on each, the
-- scheduler gives no task if all are empty, and otherwise takes the first task of the highest
-- level that is not empty, which is then in no queue.
pub fetch_ready-Fetched :
    (h : Heap Task) (sc : SchedCtx) (tasks : ℕ → List Ptr)
    → Levels h sc tasks
    → ((i : ℕ) → length (tasks i) < 2 ^ 32)
    → Yields (Fetched num_prio tasks) (fetch_ready h sc)
unfolding fetch_ready
fetch_ready-Fetched h sc tasks l less = fetch_loop-Fetched num_prio h sc tasks (omega arith) l less
