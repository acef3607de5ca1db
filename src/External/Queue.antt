-- ===== src/External/Queue.antt =====
-- The bounded queue of the `concurrent-queue` crate, as `src/reactor.rs` uses it for `timer_ops`:
-- `bounded`, `push`, `try_iter().next()` and `capacity`, with the documented first-in first-out order.
use async_io.Base.{ℕ, ◌≤◌, ◌<◌, ◌≡◌, List, [], ◌∷◌, ◌++◌, Option, none, some, length}

pub record BoundedQueue (A : Type 0) : Type 1 where
  pub Queue : Type 0
  pub bounded : ℕ → Queue
  -- `none` is the error `PushError::Full`.
  pub push : Queue → A → Option Queue
  pub pop : Queue → Option (A × Queue)
  pub capacity : Queue → ℕ
  -- What is queued, oldest first.
  pub contents : Queue → List A
  pub contents-bounded : (n : ℕ) → contents (bounded n) ≡ []
  pub capacity-bounded : (n : ℕ) → capacity (bounded n) ≡ n
  pub length-contents-le : (q : Queue) → length (contents q) ≤ capacity q
  pub push_full : (q : Queue) (a : A) → capacity q ≤ length (contents q) → push q a ≡ none
  pub push_room :
      (q : Queue) (a : A)
      → length (contents q) < capacity q
      → (q' : Queue) × (push q a ≡ some q')
        × (contents q' ≡ contents q ++ a ∷ [])
        × (capacity q' ≡ capacity q)
  pub pop_nil : (q : Queue) → contents q ≡ [] → pop q ≡ none
  pub pop_cons :
      (q : Queue) (a : A) (rest : List A)
      → contents q ≡ a ∷ rest
      → (q' : Queue) × (pop q ≡ some (a, q')) × (contents q' ≡ rest) × (capacity q' ≡ capacity q)
