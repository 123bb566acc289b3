-- ===== src/ItemBuffer.antt =====
-- What a stream relies on in the buffer that holds its items.
use my_lpel.Common.{◌≡◌, ◌≢◌, Bool, true, false, List, [], ◌∷◌, ◌++◌, Res, ok, Yields, Ptr, null}

-- `Holds b items`: the buffer is in order and holds these items, none of them NULL, the oldest first.
pub record ItemBuffer : Type 1 where
  pub Buf : Type 0
  pub Holds : Buf → List Ptr → Type 0
  pub top : Buf → Res Ptr
  pub pop : Buf → Res Buf
  pub put : Buf → Ptr → Res Buf
  pub is_space : Buf → Bool
  pub is_empty : Buf → Res Bool
  pub top_none : (b : Buf) → Holds b [] → top b ≡ ok null
  pub top_some : (b : Buf) (x : Ptr) (items : List Ptr) → Holds b (x ∷ items) → top b ≡ ok x
  pub proper : (b : Buf) (x : Ptr) (items : List Ptr) → Holds b (x ∷ items) → x ≢ null
  pub pop_some :
      (b : Buf) (x : Ptr) (items : List Ptr)
      → Holds b (x ∷ items)
      → Yields (λ c. Holds c items) (pop b)
  pub put_last :
      (b : Buf) (x : Ptr) (items : List Ptr)
      → Holds b items
      → x ≢ null
      → Yields (λ c. Holds c (items ++ x ∷ [])) (put b x)
  pub space : (b : Buf) → is_space b ≡ true
  pub empty_none : (b : Buf) → Holds b [] → is_empty b ≡ ok true
  pub empty_some :
      (b : Buf) (x : Ptr) (items : List Ptr) → Holds b (x ∷ items) → is_empty b ≡ ok false
