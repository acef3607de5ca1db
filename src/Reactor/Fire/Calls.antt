-- ===== src/Reactor/Fire/Calls.antt =====
-- `src/reactor.rs`: sequences of calls of `insert_timer`, `remove_timer` and `process_timers`, with
-- the queue of timer operations and without it.
use async_io.Base.{ℕ, ◌+◌, ◌%◌, List, [], ◌∷◌, ◌++◌, map, ltb, if◌then◌else◌}
use async_io.Timers.{Waker, Entry, insert, remove}
use async_io.Reactor.{Platform, Reactor, usize_mod}
use async_io.Reactor.TimerQueue.{insert_timer, remove_timer}
use async_io.Reactor.Fire.{process_timers}
use async_io.Reactor.Fire.Laws.{due}

pub data TimerCall : Type 0 where
  inserts : ℕ → Waker → TimerCall
  removes : ℕ → ℕ → TimerCall
  processes : ℕ → TimerCall

-- The timers that are not due at `now`.
unfoldable later : ℕ → List Entry → List Entry
later now [] = []
later now (x ∷ m) = let rest = later now m in if ltb now x.when then x ∷ rest else rest

-- The calls on a map alone, in which each takes effect at once: the wakers of the timers that fire,
-- the next ID and the map.
unfoldable pub direct : List TimerCall → ℕ → List Entry → List Waker × ℕ × List Entry
unfolding later due
direct [] id m = ([], id, m)
direct (inserts when k ∷ calls) id m = direct calls ((id + 1) % usize_mod) (insert when id k m)
direct (removes when own ∷ calls) id m = direct calls id (remove when own m)
direct (processes now ∷ calls) id m =
    let (wakers, id', m') = direct calls id (later now m) in
    (map (λ (x : Entry). x.waker) (due now m) ++ wakers, id', m')

module _ (X : Platform) where
  -- The calls on the reactor: the wakers of the timers that fire, and the state.
  unfoldable pub run_calls : List TimerCall → Reactor X → List Waker × Reactor X
  run_calls [] r = ([], r)
  run_calls (inserts when k ∷ calls) r = run_calls calls (insert_timer X r when k).1
  run_calls (removes when own ∷ calls) r = run_calls calls (remove_timer X r when own)
  run_calls (processes now ∷ calls) r =
      let (_, fired, r') = process_timers X r [] now in
      let (wakers, r'') = run_calls calls r' in (fired ++ wakers, r'')
