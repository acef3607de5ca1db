-- ===== src/Reactor/Directions.antt =====
-- `src/reactor.rs`: `Direction::is_empty` and `Direction::drain_into`.
pub mod Laws
use async_io.Base.{ℕ, Bool, true, false, ◌&&◌, List, [], ◌∷◌, ◌++◌, Option, none, some}
use async_io.Timers.{Waker}
use async_io.Reactor.{Platform, Direction}

unfoldable pub is_none : Option Waker → Bool
is_none none = true
is_none (some w) = false

-- `iter().all(|(_, opt)| opt.is_none())`.
unfoldable pub all_none : List (ℕ × Option Waker) → Bool
unfolding is_none
all_none [] = true
all_none ((i, opt) ∷ slots) = is_none opt && all_none slots

-- `if let Some(w) = opt.take() { dst.push(w); }`, for the pushed wakers.
unfoldable pub push_taken : Option Waker → List Waker → List Waker
push_taken none dst = dst
push_taken (some w) dst = dst ++ w ∷ []

module _ (X : Platform) where
  unfoldable pub is_empty : Direction X → Bool
  unfolding is_none all_none
  is_empty d = is_none d.waker && all_none (X.slab.iter d.wakers)

  -- The loop over `iter_mut`.
  unfoldable pub drain_slots :
      List (ℕ × Option Waker)
      → X.slab.Slab (Option Waker)
      → List Waker
      → X.slab.Slab (Option Waker) × List Waker
  unfolding push_taken
  drain_slots [] s dst = (s, dst)
  drain_slots ((i, opt) ∷ slots) s dst =
      drain_slots slots (X.slab.set s i none) (push_taken opt dst)

  unfoldable pub drain_into : Direction X → List Waker → Direction X × List Waker
  unfolding drain_slots push_taken
  drain_into d dst =
      let (s, dst') = drain_slots (X.slab.iter d.wakers) d.wakers (push_taken d.waker dst) in
      (record d { waker = none; wakers = s }, dst')
