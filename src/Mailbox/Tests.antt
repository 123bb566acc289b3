-- ===== src/Mailbox/Tests.antt =====
-- A mailbox with two messages and one free node.
use my_lpel.Common.{
  ℕ, ◌≡◌, ◌≢◌, refl, true, false, none, some, [], ◌∷◌, arith, ◌==◌, if◌then◌else◌, ok, Yields, Ptr,
  null,
}
use my_lpel.Memory.{Heap, write, load, modify}
use my_lpel.Memory.Seg.{Cells, has, Points, nil, cons}
use my_lpel.Mailbox.{
  Mailbox, Node, has_incoming, get_free, put_free, put_inbox, send, take_inbox, recycle, recv,
  destroy,
}
use my_lpel.Mailbox.Inbox.{handle, vacant, filled}
use my_lpel.Mailbox.Send.{Holds, Sent, send-Sent}
use my_lpel.Mailbox.Recv.{Received, recv-Received, destroy-Freed}
use my_lpel.Mailbox.Fifo.{start, sends, receives, Pending, trace-Pending}

abbrev memory : Heap (Node ℕ)
memory p =
    if p == 10
    then some (record { next = 20; msg = 7 })
    else if p == 20
    then some (record { next = 10; msg = 8 })
    else if p == 5
    then some (record { next = null; msg = 0 })
    else none

abbrev pool : Cells ℕ
pool = (5, 0) ∷ []

abbrev inbox : Cells ℕ
inbox = (10, 7) ∷ (20, 8) ∷ []

abbrev junk : Node ℕ
junk = record { next = 99; msg = 99 }

points :
    (p : Ptr) (n : Node ℕ)
    → p ≢ null
    → memory p ≡ some n
    → Points (λ n. n.next) (λ n. n.msg) memory p n.msg n.next
points p n ne e = record { node = n; ne_null = ne; holds = e; value = refl; leads = refl }

-- an address in the pool is not in the inbox
pool_apart : (a : Ptr) → has a pool ≡ true → has a inbox ≡ false
pool_apart a i = ground (arith, i)

memory-Holds : Holds memory (handle 5 20) pool inbox
memory-Holds = record {
  free = cons (points 5 (record { next = null; msg = 0 }) (omega arith) refl) refl nil;
  queue =
      filled (cons (points 10 (record { next = 20; msg = 7 }) (omega arith) refl) refl nil)
        (points 20 (record { next = 10; msg = 8 }) (omega arith) refl) refl refl;
  apart = pool_apart;
}

send-Sent_example : Yields (Sent memory 30 9 pool inbox) (send 30 junk 9 memory (handle 5 20))
send-Sent_example = send-Sent 30 junk 9 memory-Holds (omega arith) refl

recv-Received_example : Yields (Received memory pool inbox) (recv memory (handle 5 20))
recv-Received_example = recv-Received memory-Holds

-- the inbox is empty
abbrev drained : Heap (Node ℕ)
drained p = if p == 5 then some (record { next = null; msg = 0 }) else none

drained-Holds : Holds drained (handle 5 null) pool []
drained-Holds = record {
  free =
      cons
        (record {
          node = record { next = null; msg = 0 };
          ne_null = omega arith;
          holds = refl;
          value = refl;
          leads = refl;
        })
        refl nil;
  queue = vacant;
  apart = λ a i. refl;
}

abbrev boxes : Heap Mailbox
boxes p = if p == 60 then some (handle 5 null) else none

destroy-Freed_example :
    Yields
      (λ (g, rest).
        ((a : Ptr) → g a ≡ (if has a pool then none else drained a))
        × ((a : Ptr) → rest a ≡ (if a == 60 then none else boxes a)))
      (destroy 2 drained boxes 60)
destroy-Freed_example = destroy-Freed 2 boxes 60 (omega arith) refl drained-Holds (omega arith)

abbrev memory_sent : Heap (Node ℕ)
memory_sent =
    write
      (write (write memory 5 (some (record { next = null; msg = 9 }))) 5
        (some (record { next = 10; msg = 9 })))
      20 (some (record { next = 5; msg = 8 }))

abbrev memory_received : Heap (Node ℕ)
memory_received =
    write (write memory_sent 5 (some (record { next = 20; msg = 9 }))) 10
      (some (record { next = null; msg = 7 }))

sent : send 30 junk 9 memory (handle 5 20) ≡ ok (memory_sent, handle null 5)
unfolding send get_free put_inbox load modify
sent = refl

received : recv memory_sent (handle null 5) ≡ ok (some (7, memory_received, handle 10 5))
unfolding recv recycle take_inbox put_free load modify
received = refl

trace-Pending_example : Pending (7 ∷ 8 ∷ []) (9 ∷ []) (7 ∷ []) memory_received (handle 10 5)
trace-Pending_example =
    trace-Pending memory-Holds (receives 7 (sends 30 junk 9 start (omega arith) refl sent) received)

has_incoming_test : has_incoming (handle 5 20) ≡ true
unfolding has_incoming
has_incoming_test = refl
