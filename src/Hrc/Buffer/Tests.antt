-- ===== src/Hrc/Buffer/Tests.antt =====
-- A buffer with one item.
use my_lpel.Common.{◌≡◌, refl, none, some, [], ◌∷◌, arith, ◌==◌, if◌then◌else◌, ok, null}
use my_lpel.Memory.{Heap, write, free, load}
use my_lpel.Memory.Seg.{nil, cons}
use my_lpel.Hrc.Buffer.{Entry, Buffer, create_entry, cleanup}
use my_lpel.Hrc.Buffer.Contents.{Holds, none_proper, and_proper}

abbrev memory : Heap Entry
memory p =
    if p == 1
    then some (record { item = null; next = 2 })
    else if p == 2
    then some (record { item = 7; next = null })
    else none

abbrev buf : Buffer
buf = record { head = 1; tail = 2 }

memory-Holds : Holds memory buf (7 ∷ [])
memory-Holds = record {
  cells = (1, null) ∷ [];
  last = 7;
  chain =
      cons
        (record {
          node = record { item = null; next = 2 };
          ne_null = omega arith;
          holds = refl;
          value = refl;
          leads = refl;
        })
        refl nil;
  end = record {
    node = record { item = 7; next = null };
    ne_null = omega arith;
    holds = refl;
    value = refl;
    leads = refl;
  };
  apart = refl;
  spent = null;
  shows = refl;
  proper = and_proper (omega arith) none_proper;
}

cleanup_test :
    cleanup (create_entry 1 null λ p. none) (record { head = 1; tail = 1 })
    ≡ ok (write (create_entry 1 null λ p. none) 1 none)
unfolding cleanup create_entry free load
cleanup_test = refl
