-- ===== src/PrioQueue/Tests.antt =====
-- Runs of the ready queue, and the theorems at them.
use my_lpel.Common.{
  nat_double, Ptr, ℕ, zero, suc, ◌/◌, ◌≤◌, ◌<◌, ◌≡◌, refl, arith, ◌==◌, if◌then◌else◌, Res, ok,
  fault, assertion, ◌>>=◌, Yields, occurs,
}
use my_lpel.PrioQueue.{
  store, up_heap, remove_head, down_heap, Taskqueue, init, push, pop, peek, update_priority,
}
use my_lpel.PrioQueue.Order.{IsValid}
use my_lpel.PrioQueue.Push.{Pushed, push-Pushed}
use my_lpel.PrioQueue.Pop.{Highest, Popped, pop-Popped, peek-Highest}
use my_lpel.PrioQueue.Update.{Updated, update_priority-Updated, update_priority-absent}

abbrev prior : ℕ → ℕ
prior t = if t == 7 then 70 else if t == 8 then 20 else if t == 9 then 50 else 10

abbrev mem : ℕ → Ptr
mem i = 99

-- three pushes and two pops
abbrev session : Res (Ptr × Ptr)
session = do
  a ← push prior (init mem) 8
  b ← push prior a 9
  c ← push prior b 7
  (t, d) ← pop prior c
  (u, e) ← pop prior d
  ok (t, u)

session_result : session ≡ ok (7, 9)
unfolding push pop init store up_heap remove_head down_heap
session_result = refl

abbrev queue : Taskqueue
queue = record {
  heap = λ i. if i == 1 then 7 else if i == 2 then 8 else if i == 3 then 9 else 99;
  count = 4;
  alloc = 50;
}

queue-ordered : (c : ℕ) → 1 < c → c < 4 → prior (queue.heap c) ≤ prior (queue.heap (c / 2))
queue-ordered zero p q = absurd (omega arith)
queue-ordered (suc zero) p q = absurd (omega arith)
queue-ordered (suc (suc zero)) p q = omega arith
queue-ordered (suc (suc (suc zero))) p q = omega arith
queue-ordered (suc (suc (suc (suc c)))) p q = absurd (omega arith)

queue-IsValid : IsValid prior queue
queue-IsValid = record {
  ordered = queue-ordered;
  started = omega arith;
  fits = omega arith;
  small = omega arith;
  mapped = omega arith;
}

push-Pushed_example : Yields (Pushed prior queue 5) (push prior queue 5)
push-Pushed_example = push-Pushed prior queue 5 queue-IsValid (omega arith)

pop-Popped_example : Yields (Popped prior queue) (pop prior queue)
pop-Popped_example = pop-Popped prior queue queue-IsValid (omega arith)

peek-Highest_example : Yields (Highest prior queue) (peek queue)
peek-Highest_example = peek-Highest prior queue queue-IsValid (omega arith)

update_priority-Updated_example :
    Yields (Updated prior queue 8 90) (update_priority prior queue 8 90)
unfolding occurs
update_priority-Updated_example = update_priority-Updated prior queue 8 90 queue-IsValid refl

update_priority-absent_example : update_priority prior queue 3 90 ≡ fault assertion
unfolding occurs
update_priority-absent_example = update_priority-absent prior queue 3 90 queue-IsValid refl
