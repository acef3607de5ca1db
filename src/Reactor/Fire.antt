-- ===== src/Reactor/Fire.antt =====
-- `src/reactor.rs`: `Reactor::process_timers`, with the value of `Instant::now()` as an argument.
pub mod Laws
pub mod Calls
use async_io.Base.{ℕ, ◌+◌, ◌-◌, List, [], ◌∷◌, ◌++◌, map, Option, none, some}
use async_io.Timers.{Waker, Entry, below, split_off}
use async_io.Reactor.{Platform, Reactor}
use async_io.Reactor.TimerQueue.{process_timer_ops}

-- The duration until the next event, from the ready and the pending timers.
unfoldable pub next_event : ℕ → List Entry → List Entry → Option ℕ
next_event now (y ∷ ready) pending = some 0
next_event now [] [] = none
next_event now [] (x ∷ pending) = some (x.when - now)

module _ (X : Platform) where
  -- The duration, the wakers with those of the ready timers behind them, and the new state.
  unfoldable pub process_timers : Reactor X → List Waker → ℕ → Option ℕ × List Waker × Reactor X
  process_timers r wakers now =
      let r' = process_timer_ops X r in
      let pending = split_off (now + 1) 0 r'.timers in
      let ready = below (now + 1) 0 r'.timers in
      (
        next_event now ready pending,
        wakers ++ map (λ (x : Entry). x.waker) ready,
        record r' { timers = pending },
      )
