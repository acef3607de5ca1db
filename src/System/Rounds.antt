-- ===== src/System/Rounds.antt =====
-- What holds in every interleaving.
use async_io.Base.{ℕ, ◌+◌, ◌≤◌, subst, In, some, none, ◌≡◌, refl, false, List, Option}
use async_io.Timers.{Waker, Entry}
use async_io.Reactor.{Platform}
use async_io.Reactor.TimerQueue.Schedule.{scheduled}
use async_io.System.{Phase, waiting, System, initial, Reach, here, next}
use async_io.System.Sources.{SourcesInv, Step-SourcesInv, start-SourcesInv}
use async_io.System.Timers.{InTime, TimersInv, Step-TimersInv, start-TimersInv}

module _ (X : Platform) where
  pub Reach-Inv :
      (p : X.poller.Poller) {s : System X}
      → Reach X (initial X p) s
      → SourcesInv X s × TimersInv X s
  Reach-Inv p here = (start-SourcesInv X p, start-TimersInv X p)
  Reach-Inv p (next path step) =
      let (v, w) = Reach-Inv p path in (Step-SourcesInv X w.room step v, Step-TimersInv X step w)

  -- In every interleaving of the steps of rounds, one round at a time, with polls, drops,
  -- insertions and removals by other threads, from a new reactor on, whether polls and
  -- re-registrations succeed or fail: every source in the table stands under its own key, the
  -- poller knows its object under that key, and the registered interest has every direction that
  -- somebody waits for and that the object can have, unless an event for the source has been
  -- delivered and is still to be dispatched, or since the source was inserted a poll of it has
  -- returned an error, or a round that failed has not got past an event for it.
  pub Reach-SourcesInv :
      (p : X.poller.Poller) (s : System X) → Reach X (initial X p) s → SourcesInv X s
  Reach-SourcesInv p s path = (Reach-Inv p path).0

  -- In every interleaving of the steps of rounds, one round at a time, with polls, drops,
  -- insertions and removals by other threads, from a new reactor on, whether polls and
  -- re-registrations succeed or fail: while a round waits in the poller and no timer has been
  -- inserted, with its notification, since the round began, a scheduled timer means that the wait
  -- has a timeout, and the timer is not due before the wait ends.
  pub Reach-timeout :
      (p : X.poller.Poller) (s : System X) (now : ℕ) (timeout : Option ℕ) (tick : ℕ)
      (wakers : List Waker) (x : Entry)
      → Reach X (initial X p) s
      → s.phase ≡ waiting now timeout tick wakers
      → s.notified ≡ false
      → In x (scheduled X s.reactor)
      → (d : ℕ) × (timeout ≡ some d) × (now + d ≤ x.when)
  Reach-timeout p s now timeout tick wakers x path at quiet m =
      let holds = (Reach-Inv p path).1.in_time in
      has_timeout timeout
        (subst (λ (ph : Phase). InTime ph s.notified (scheduled X s.reactor)) at holds)
    where
      has_timeout :
          (t : Option ℕ)
          → InTime (waiting now t tick wakers) s.notified (scheduled X s.reactor)
          → (d : ℕ) × (t ≡ some d) × (now + d ≤ x.when)
      has_timeout none v = absurd (v quiet x m)
      has_timeout (some d) v = (d, refl, v quiet x m)
