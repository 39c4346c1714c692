-- ===== src/Env/Fifo.antt =====
-- What the queue package documents of a queue that is never disposed of: it is unbounded and first
-- in, first out; `Get(n)` waits while it is empty and otherwise returns up to `n` items.
use friendlyrabbit.Base.{ℕ, ◌≡◌, ◌↔◌, true, none, some, List, [], ◌∷◌, ◌++◌, length}
use friendlyrabbit.Env.{Env, Item, items, blocks}

pub record IsFifo (e : Env) : Type 0 where
  pub contents : e.Queue → List Item
  pub contents-new : (n : ℕ) (q : e.Queue) → e.new_queue n ≡ some q → contents q ≡ []
  pub put_fits : (i : Item) (q : e.Queue) → (e.put i q).0 ≡ none
  pub contents-put : (i : Item) (q : e.Queue) → contents (e.put i q).1 ≡ contents q ++ (i ∷ [])
  pub get_waits : (n : ℕ) (q : e.Queue) → contents q ≡ [] → e.get n q ≡ blocks
  pub get_one :
      (q : e.Queue) (i : Item) (rest : List Item)
      → contents q ≡ i ∷ rest
      → (q' : e.Queue) × (e.get 1 q ≡ items (i ∷ []) q') × (contents q' ≡ rest)
  pub get_all :
      (q : e.Queue) (i : Item) (rest : List Item)
      → contents q ≡ i ∷ rest
      → (q' : e.Queue) × (e.get (e.len q) q ≡ items (i ∷ rest) q') × (contents q' ≡ [])
  pub len_length : (q : e.Queue) → e.len q ≡ length (contents q)
  pub is_empty_iff : (q : e.Queue) → (e.is_empty q ≡ true) ↔ (contents q ≡ [])
