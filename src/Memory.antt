-- ===== src/Memory.antt =====
-- Structs at addresses, for the components that link structs by pointers.
pub mod Seg
pub mod Unlink
use my_lpel.Common.{
  ℕ, zero, suc, ◌+◌, ◌-◌, ◌*◌, ◌/◌, ◌%◌, ◌^◌, ◌≤◌, ◌<◌, ◌≡◌, ◌≢◌, ◌↔◌, refl, sym, ap, ◌∙◌, inl, inr,
  ◌⊎◌, Bool, true, false, not, ◌&&◌, ◌||◌, Option, none, some, List, [], ◌∷◌, ◌++◌, map, arith, ltb,
  leb, ◌==◌, if◌then◌else◌, Bool-cases, ==-true, ==-false, ==-refl, ==-ne, ltb-true, ltb-false, Res,
  ok, fault, Fault, segv, assertion, overflow, fuel, ◌>>=◌, ◌>>◌, assert, Yields, yields,
  Yields-bind, Yields-map, Yields-open, Yields-of, hit, update, update_self, occurs, occurs-suc,
  occurs-at, occurs-twice, occurs-update, occurs-update_above, occurs-index, Double, Ptr, null,
}

-- what lies at each address, if anything
abbrev pub Heap : Type 0 → Type 0
Heap N = Ptr → Option N

module _ {N : Type 0} where
  abbrev pub write : Heap N → Ptr → Option N → Heap N
  write h p c = update h p c

  -- `*p`
  unfoldable pub load : Heap N → Ptr → Res N
  load h p = if p == null then fault segv else elim (h p) [ none ↦ fault segv | some n ↦ ok n ]

  -- `p->field = …`
  unfoldable pub modify : Heap N → Ptr → (N → N) → Res (Heap N)
  modify h p f = load h p >>= λ n. ok (write h p (some (f n)))

  -- `free(p)`
  unfoldable pub free : Heap N → Ptr → Res (Heap N)
  free h p = load h p >>= λ n. ok (write h p none)

  module _ (h : Heap N) (p : Ptr) (n : N) (ne : p ≢ null) (e : h p ≡ some n) where
    pub load-ok : load h p ≡ ok n
    unfolding load
    load-ok = rw (==-ne p null ne, e)

    pub modify-ok : (f : N → N) → modify h p f ≡ ok (write h p (some (f n)))
    unfolding modify
    modify-ok f = rw load-ok

    pub free-ok : free h p ≡ ok (write h p none)
    unfolding free
    free-ok = rw load-ok
