-- ===== src/System.antt =====
-- The reactor that all threads share, in any interleaving of their calls: `src/reactor.rs`. One
-- thread at a time runs a round, step by step; the others poll and drop, insert and remove sources
-- and timers between its steps.
pub mod Sources
pub mod Timers
pub mod Rounds
pub mod React
pub mod Wakes
pub mod TimerCalls
use async_io.Base.{
  ℕ, suc, ◌==◌, if◌then◌else◌, map, pending, ready, ◌≡◌, Bool, true, false, List, [], ◌∷◌, ◌++◌,
  Option, none, some, ErrorKind, IoResult, ok, err, Poll, ◌⊎◌, inl, inr, refl, zero,
}
use async_io.Timers.{Waker}
use async_io.External.Poller.{Event}
use async_io.Reactor.{Platform, Dir, Source, Reactor, new_reactor, notify}
use async_io.Reactor.TimerQueue.{insert_timer, remove_timer}
use async_io.Reactor.Fire.{process_timers}
use async_io.Reactor.Sources.{Ready}
use async_io.Reactor.Io.{insert_io, remove_io, poll_source, poll_ready_future, drop_ready_future}
use async_io.Reactor.React.{begin_react, dispatch}
use async_io.Reactor.React.Ahead.{keys}

-- Where the round is. `waiting`: in `Poller::wait`, since `now`, with the timeout, the tick and the
-- wakers collected. `firing`: no event, and the timers are still to be processed again.
-- `dispatching`: these events are still ahead.
pub data Phase : Type 0 where
  idle : Phase
  waiting : ℕ → Option ℕ → ℕ → List Waker → Phase
  firing : ℕ → List Waker → Phase
  dispatching : List Event → ℕ → List Waker → Phase

-- What is ahead when `wait` has returned these events: without an event the timers are processed
-- again if the timeout was not 0.
unfoldable pub after_wait : List Event → Option ℕ → ℕ → List Waker → Phase
after_wait [] none tick wakers = firing tick wakers
after_wait [] (some zero) tick wakers = dispatching [] tick wakers
after_wait [] (some (suc d)) tick wakers = firing tick wakers
after_wait (ev ∷ evs) timeout tick wakers = dispatching (ev ∷ evs) tick wakers

pub after_wait-no_events :
    (timeout : Option ℕ) (tick : ℕ) (wakers : List Waker)
    → (after_wait [] timeout tick wakers ≡ firing tick wakers)
      ⊎ (after_wait [] timeout tick wakers ≡ dispatching [] tick wakers)
unfolding after_wait
after_wait-no_events none tick wakers = inl refl
after_wait-no_events (some zero) tick wakers = inr refl
after_wait-no_events (some (suc d)) tick wakers = inl refl

-- The keys that are lost after a poll with this result.
abbrev pub lost_by : Poll (IoResult (Unit {0})) → ℕ → List ℕ → List ℕ
lost_by (ready (err e)) key lost = key ∷ lost
lost_by (ready (ok a)) key lost = lost
lost_by pending key lost = lost

abbrev pub without : ℕ → List ℕ → List ℕ
without key [] = []
without key (j ∷ lost) = let rest = without key lost in if key == j then rest else j ∷ rest

module _ (X : Platform) where
  -- `woken` is all that the rounds have woken, and `notified` whether a timer has been inserted, and
  -- the poller notified, since the last round began. `lost` has the keys of the sources whose
  -- registration failed in a poll or in a round, or whose events a failing round left undispatched,
  -- and `failures` is how many rounds have failed so.
  pub record System : Type 0 where
    pub reactor : Reactor X
    pub phase : Phase
    pub woken : List Waker
    pub notified : Bool
    pub lost : List ℕ
    pub failures : ℕ

  abbrev pub initial : X.poller.Poller → System
  initial p = record {
    reactor = new_reactor X p;
    phase = idle;
    woken = [];
    notified = false;
    lost = [];
    failures = 0;
  }

  abbrev pub with_poller : Reactor X → X.poller.Poller → Reactor X
  with_poller r p = record r { poller = p }

  -- A round has begun.
  abbrev pub began : System → Option ℕ → ℕ → System
  began s timeout now =
      let b = begin_react X s.reactor timeout now in
      record s { reactor = b.0; phase = waiting now b.2 b.3 b.1; notified = false }

  -- One step.
  pub data Step (s : System) : System → Type 0 where
    polls :
        (key : ℕ) (dir : Dir) (k : Waker) (src : Source X)
        (out : Poll (IoResult (Unit {0})) × Reactor X × List Waker)
        → X.slab.get s.reactor.sources key ≡ some src
        → poll_source X s.reactor key dir k ≡ some out
        → Step s (record s {
          reactor = out.1;
          woken = s.woken ++ out.2;
          lost = lost_by out.0 key s.lost;
        })
    polls_future :
        (key : ℕ) (f : Ready) (k : Waker) (src : Source X)
        (out : Poll (IoResult (Unit {0})) × Ready × Reactor X)
        → X.slab.get s.reactor.sources key ≡ some src
        → poll_ready_future X s.reactor key f k ≡ some out
        → Step s (record s { reactor = out.2; lost = lost_by out.0 key s.lost })
    drops_future :
        (key : ℕ) (f : Ready) (src : Source X) (r : Reactor X)
        → X.slab.get s.reactor.sources key ≡ some src
        → drop_ready_future X s.reactor key f ≡ some r
        → Step s (record s { reactor = r })
    inserts_io :
        (raw : X.poller.Registration)
        → Step s (record s { reactor = (insert_io X s.reactor raw).1 })
    removes_io :
        (src : Source X)
        → X.slab.get s.reactor.sources src.key ≡ some src
        → Step s
            (record s { reactor = (remove_io X s.reactor src).1; lost = without src.key s.lost })
    inserts_timer :
        (when : ℕ) (k : Waker)
        → Step s (record s { reactor = (insert_timer X s.reactor when k).1; notified = true })
    removes_timer : (when id : ℕ) → Step s (record s { reactor = remove_timer X s.reactor when id })
    -- A waker of `block_on` notifies the poller.
    notifies : Step s (record s { reactor = notify X s.reactor })
    begins : (timeout : Option ℕ) (now : ℕ) → s.phase ≡ idle → Step s (began s timeout now)
    returns :
        (now : ℕ) (timeout : Option ℕ) (tick : ℕ) (wakers : List Waker) (evs : List Event)
        → s.phase ≡ waiting now timeout tick wakers
        → (X.poller.wait s.reactor.poller timeout).1 ≡ ok evs
        → Step s (record s {
          reactor = with_poller s.reactor (X.poller.wait s.reactor.poller timeout).0;
          phase = after_wait evs timeout tick wakers;
        })
    fails :
        (now : ℕ) (timeout : Option ℕ) (tick : ℕ) (wakers : List Waker) (e : ErrorKind)
        → s.phase ≡ waiting now timeout tick wakers
        → (X.poller.wait s.reactor.poller timeout).1 ≡ err e
        → Step s (record s {
          reactor = with_poller s.reactor (X.poller.wait s.reactor.poller timeout).0;
          phase = idle;
          woken = s.woken ++ wakers;
        })
    dispatches :
        (ev : Event) (evs : List Event) (tick : ℕ) (wakers : List Waker)
        → s.phase ≡ dispatching (ev ∷ evs) tick wakers
        → (dispatch X (ev ∷ []) tick s.reactor wakers).2 ≡ ok tt
        → Step s (record s {
          reactor = (dispatch X (ev ∷ []) tick s.reactor wakers).0;
          phase = dispatching evs tick (dispatch X (ev ∷ []) tick s.reactor wakers).1;
        })
    -- A re-registration fails, and with it the round.
    breaks :
        (ev : Event) (evs : List Event) (tick : ℕ) (wakers : List Waker) (e : ErrorKind)
        → s.phase ≡ dispatching (ev ∷ evs) tick wakers
        → (dispatch X (ev ∷ []) tick s.reactor wakers).2 ≡ err e
        → Step s (record s {
          reactor = (dispatch X (ev ∷ []) tick s.reactor wakers).0;
          phase = idle;
          woken = s.woken ++ (dispatch X (ev ∷ []) tick s.reactor wakers).1;
          lost = keys (ev ∷ evs) ++ s.lost;
          failures = suc s.failures;
        })
    -- The timers are processed again.
    fires :
        (later tick : ℕ) (wakers : List Waker)
        → s.phase ≡ firing tick wakers
        → Step s (record s {
          reactor = (process_timers X s.reactor wakers later).2;
          phase = dispatching [] tick (process_timers X s.reactor wakers later).1;
        })
    ends :
        (tick : ℕ) (wakers : List Waker)
        → s.phase ≡ dispatching [] tick wakers
        → Step s (record s { phase = idle; woken = s.woken ++ wakers })

  pub data Reach (s : System) : System → Type 0 where
    here : Reach s s
    next : {t u : System} → Reach s t → Step t u → Reach s u
