-- ===== src/Mailbox.antt =====
-- mailbox.c: a first-in first-out inbox, kept as a circular list whose handle points to the last
-- node, and a pool of free nodes. Messages are copied and never read, so their type is a parameter.
-- Each function holds its lock throughout, except where it calls another.
pub mod Inbox
pub mod Take
mod Tests
pub mod Fifo
pub mod Recv
pub mod Send
use my_lpel.Common.{
  ℕ, zero, suc, ◌+◌, ◌-◌, ◌*◌, ◌/◌, ◌%◌, ◌^◌, ◌≤◌, ◌<◌, ◌≡◌, ◌≢◌, ◌↔◌, refl, sym, ap, ◌∙◌, inl, inr,
  ◌⊎◌, Bool, true, false, not, ◌&&◌, ◌||◌, Option, none, some, List, [], ◌∷◌, ◌++◌, map, arith, ltb,
  leb, ◌==◌, if◌then◌else◌, Bool-cases, ==-true, ==-false, ==-refl, ==-ne, ltb-true, ltb-false, Res,
  ok, fault, Fault, segv, assertion, overflow, fuel, ◌>>=◌, ◌>>◌, assert, Yields, yields,
  Yields-bind, Yields-map, Yields-open, Yields-of, hit, update, update_self, occurs, occurs-suc,
  occurs-at, occurs-twice, occurs-update, occurs-update_above, occurs-index, Double, Ptr, null,
}
use my_lpel.Memory.{Heap, write, load, modify, free}

-- `mailbox_node_t`
pub record Node (A : Type 0) : Type 0 where
  pub next : Ptr
  pub msg : A

-- `mailbox_t`, without its locks and its condition variable
pub record Mailbox : Type 0 where
  pub list_free : Ptr
  pub list_inbox : Ptr

-- `LpelMailboxCreate`
pub create : Mailbox
create = record { list_free = null; list_inbox = null }

-- `LpelMailboxHasIncoming`
pub has_incoming : Mailbox → Bool
has_incoming mbox = not (mbox.list_inbox == null)

module _ {A : Type 0} where
  -- `GetFree`; `fresh` is what `malloc` returns if it is called, with the contents `junk`
  pub get_free : Ptr → Node A → Heap (Node A) → Mailbox → Res (Ptr × Heap (Node A) × Mailbox)
  get_free fresh junk h mbox =
      let pooled : Res (Ptr × Heap (Node A) × Mailbox) = do
        n ← load h mbox.list_free
        ok (mbox.list_free, h, record mbox { list_free = n.next })
      in if mbox.list_free == null then ok (fresh, write h fresh (some junk), mbox) else pooled

  -- `PutFree`
  pub put_free : Heap (Node A) → Mailbox → Ptr → Res (Heap (Node A) × Mailbox)
  put_free h mbox node = do
    g ←
        modify h node
          λ n. record n { next = if mbox.list_free == null then null else mbox.list_free }
    ok (g, record mbox { list_free = node })

  -- the locked part of `LpelMailboxSend`
  pub put_inbox : Heap (Node A) → Mailbox → Ptr → Res (Heap (Node A) × Mailbox)
  put_inbox h mbox node =
      let first : Res (Heap (Node A) × Mailbox) = do
        g ← modify h node λ n. record n { next = node }
        ok (g, record mbox { list_inbox = node })
      in let behind : Res (Heap (Node A) × Mailbox) = do
        last ← load h mbox.list_inbox
        g ← modify h node λ n. record n { next = last.next }
        k ← modify g mbox.list_inbox λ n. record n { next = node }
        ok (k, record mbox { list_inbox = node })
        in if mbox.list_inbox == null then first else behind

  -- `LpelMailboxSend`
  pub send : Ptr → Node A → A → Heap (Node A) → Mailbox → Res (Heap (Node A) × Mailbox)
  send fresh junk msg h mbox = do
    (node, g, mbox') ← get_free fresh junk h mbox
    k ← modify g node λ n. record n { msg = msg }
    put_inbox k mbox' node

  -- the locked part of `LpelMailboxRecv`; `none` where it waits for a message
  pub take_inbox : Heap (Node A) → Mailbox → Res (Option (Ptr × Heap (Node A) × Mailbox))
  take_inbox h mbox =
      let take : Res (Option (Ptr × Heap (Node A) × Mailbox)) = do
        last ← load h mbox.list_inbox
        let node = last.next
        let unlink : Res (Option (Ptr × Heap (Node A) × Mailbox)) = do
          n ← load h node
          g ← modify h mbox.list_inbox λ l. record l { next = n.next }
          ok (some (node, g, mbox))
        if node == mbox.list_inbox
            then ok (some (node, h, record mbox { list_inbox = null }))
            else unlink
      in if mbox.list_inbox == null then ok none else take

  -- what `LpelMailboxRecv` does with the node
  pub recycle : Option (Ptr × Heap (Node A) × Mailbox) → Res (Option (A × Heap (Node A) × Mailbox))
  recycle none = ok none
  recycle (some (node, h, mbox)) = do
    n ← load h node
    (g, mbox') ← put_free h mbox node
    ok (some (n.msg, g, mbox'))

  -- `LpelMailboxRecv`; `none` where it waits for a message
  pub recv : Heap (Node A) → Mailbox → Res (Option (A × Heap (Node A) × Mailbox))
  recv h mbox = take_inbox h mbox >>= recycle

  -- the loop of `LpelMailboxDestroy`, which frees the pool
  destroy_loop : ℕ → Heap (Node A) → Ptr → Res (Heap (Node A))
  destroy_loop zero h p = fault fuel
  destroy_loop (suc k) h p =
      let go : Res (Heap (Node A)) = do n ← load h p; g ← free h p; destroy_loop k g n.next
      in if p == null then ok h else go

  -- `LpelMailboxDestroy` of the mailbox at an address, for a pool of fewer than `k` nodes
  pub destroy : ℕ → Heap (Node A) → Heap Mailbox → Ptr → Res (Heap (Node A) × Heap Mailbox)
  unfolding destroy_loop
  destroy k h boxes p = do
    mbox ← load boxes p
    assert (mbox.list_inbox == null)
    g ← destroy_loop k h mbox.list_free
    rest ← free boxes p
    ok (g, rest)
