-- ===== src/Reactor/React.antt =====
-- `src/reactor.rs`: `ReactorLock::react`. The arguments `now` and `later` are the values of
-- `Instant::now()` in the two calls of `process_timers`. What happens before the poller waits and
-- what happens after it are functions of their own, since other threads run in between.
pub mod Events
pub mod Ahead
pub mod Covered
pub mod Delivery
pub mod Wakes
pub mod Errors
pub mod Timeout
pub mod Ticks
pub mod Fresh
use async_io.Base.{
  ℕ, zero, suc, ◌+◌, ◌%◌, Bool, true, false, not, ◌&&◌, ◌||◌, List, [], ◌∷◌, Option, none, some,
  min, ◌==◌, if◌then◌else◌, IoResult, ok, err, ErrorKind, interrupted, would_block, other, Poll,
}
use async_io.Timers.{Waker}
use async_io.External.Poller.{Event}
use async_io.Reactor.{Platform, Dir, read, write, Direction, Source, Reactor, usize_mod}
use async_io.Reactor.Fire.{process_timers}
use async_io.Reactor.Directions.{is_empty, drain_into}
use async_io.Reactor.Sources.{direction, set_direction, interest_event}

-- The timeout for blocking on I/O events.
unfoldable pub combine_timeouts : Option ℕ → Option ℕ → Option ℕ
combine_timeouts none none = none
combine_timeouts (some t) none = some t
combine_timeouts none (some t) = some t
combine_timeouts (some a) (some b) = some (min a b)

-- `timeout != Some(Duration::from_secs(0))`.
unfoldable pub is_nonzero : Option ℕ → Bool
is_nonzero none = true
is_nonzero (some t) = not (t == 0)

module _ (X : Platform) where
  -- An emitted event in one direction: the tick is recorded and the wakers are collected.
  unfoldable pub emit : Bool → Dir → ℕ → Source X → List Waker → Source X × List Waker
  emit false dir tick s wakers = (s, wakers)
  emit true dir tick s wakers =
      let (d, wakers') = drain_into X (record (direction X dir s) { tick = tick }) wakers in
      (set_direction X dir d s, wakers')

  -- Re-registration if somebody still waits for the source.
  unfoldable pub reregister_source :
      Source X → X.poller.Poller → X.poller.Poller × IoResult (Unit {0})
  unfolding interest_event
  reregister_source s p =
      if not (is_empty X s.reads) || not (is_empty X s.writes)
      then X.poller.modify s.registration p (interest_event X s)
      else (p, ok tt)

  -- One event for a source: the directions in the order `WRITE`, `READ`.
  unfoldable pub deliver :
      Event
      → ℕ
      → Source X
      → X.poller.Poller
      → List Waker
      → Source X × X.poller.Poller × List Waker × IoResult (Unit {0})
  unfolding emit reregister_source
  deliver ev tick s p wakers =
      let (s1, wakers1) = emit ev.writable write tick s wakers in
      let (s2, wakers2) = emit ev.readable read tick s1 wakers1 in
      let (p', res) = reregister_source s2 p in (s2, p', wakers2, res)

  -- The loop over the events. An error of `modify` returns from `react` at once, so that of the
  -- wakers collected by then none is woken.
  unfoldable pub dispatch :
      List Event → ℕ → Reactor X → List Waker → Reactor X × List Waker × IoResult (Unit {0})
  unfolding deliver
  dispatch [] tick r wakers = (r, wakers, ok tt)
  dispatch (ev ∷ evs) tick r wakers = elim (X.slab.get r.sources ev.key) [
    | none ↦ dispatch evs tick r wakers
    | some s ↦
        let (s', p, wakers', res) = deliver ev tick s r.poller wakers in
        let r' : Reactor X = record r { poller = p; sources = X.slab.set r.sources ev.key s' } in
        elim res [ ok _ ↦ dispatch evs tick r' wakers' | err e ↦ (r', [], err e) ]
  ]

  -- Until the poller waits: the state, the wakers of the ready timers, the timeout and the tick.
  unfoldable pub begin_react : Reactor X → Option ℕ → ℕ → Reactor X × List Waker × Option ℕ × ℕ
  unfolding combine_timeouts
  begin_react r timeout now =
      let (next_timer, wakers, r') = process_timers X r [] now in
      let tick = (r'.ticker + 1) % usize_mod in
      (record r' { ticker = tick }, wakers, combine_timeouts next_timer timeout, tick)

  -- After the poller has returned: the state, the wakers that are woken and the result.
  unfoldable pub finish_react :
      IoResult (List Event)
      → Option ℕ
      → ℕ
      → ℕ
      → Reactor X
      → List Waker
      → Reactor X × List Waker × IoResult (Unit {0})
  unfolding is_nonzero dispatch
  finish_react (ok []) timeout tick later r wakers =
      if is_nonzero timeout
      then (let (_, wakers', r') = process_timers X r wakers later in (r', wakers', ok tt))
      else (r, wakers, ok tt)
  finish_react (ok (ev ∷ evs)) timeout tick later r wakers = dispatch (ev ∷ evs) tick r wakers
  finish_react (err interrupted) timeout tick later r wakers = (r, wakers, ok tt)
  finish_react (err would_block) timeout tick later r wakers = (r, wakers, err would_block)
  finish_react (err other) timeout tick later r wakers = (r, wakers, err other)

  -- `ReactorLock::react` with no other thread in between. The wakers are woken in the order of
  -- the list, each once; what a waker does is no part of the reactor.
  unfoldable pub react : Reactor X → Option ℕ → ℕ → ℕ → Reactor X × List Waker × IoResult (Unit {0})
  unfolding begin_react finish_react
  react r timeout now later =
      let (r', wakers, timeout', tick) = begin_react r timeout now in
      let (p, res) = X.poller.wait r'.poller timeout' in
      finish_react res timeout' tick later (record r' { poller = p }) wakers
