-- ===== src/Driver.antt =====
-- `src/driver.rs`: the thread that runs `block_on`, and the wakers that it hands out; the loop of
-- the "async-io" thread is `Driver/MainLoop`.
pub mod Handshake
pub mod MainLoop
pub mod Nesting
pub mod Init
pub mod Threads
use async_io.Base.{ℕ, zero, suc, ◌+◌, ◌-◌, Bool, true, false, not, ◌&&◌, if◌then◌else◌}
use async_io.External.Parker.{ParkerCrate}

-- Where the thread is. `polling`: it polls the future. `first_check`: the check for a notification
-- after that. `reacting`: it takes the lock if it can and handles the events at hand.
-- `try_lock`: it tries the lock to wait on I/O. `enter`: the head of the inner loop.
-- `flagged`: the check after the flags are set. `waiting`: in `Poller::wait`. `waking`: `react` has
-- returned from `wait` and wakes tasks. `returned`: the check after `react`. `hogging`: in `park`
-- after it dropped the lock. `sleeping`: in `park`, without the lock. `done`: it has returned.
pub data Pc : Type 0 where
  polling first_check reacting try_lock enter flagged waiting waking returned hogging sleeping
        done :
      Pc

-- What the thread sees of the rest of the world in one step.
pub record Seen : Type 0 where
  pub future_ready : Bool
  pub lock_free : Bool
  pub long_elapsed : Bool

module _ (K : ParkerCrate) where
  -- `io_polling` is the thread's `IO_POLLING`. `poll_notified`: the poller has a notification that
  -- no `wait` has taken. `checking`: how many other threads have unparked the parker and are to
  -- check `io_blocked` next.
  pub record BlockOn : Type 0 where
    pub pc : Pc
    pub parker : K.Parker
    pub io_polling : Bool
    pub io_blocked : Bool
    pub poll_notified : Bool
    pub checking : ℕ

  unfoldable pub start : BlockOn
  start = record {
    pc = polling;
    parker = K.pair;
    io_polling = false;
    io_blocked = false;
    poll_notified = false;
    checking = 0;
  }

  -- The guard of the inner loop, dropped.
  unfoldable pub drop_guard : BlockOn → Pc → BlockOn
  drop_guard s pc = record s { pc = pc; io_polling = false; io_blocked = false }

  unfoldable pub go_to : BlockOn → Pc → BlockOn
  go_to s pc = record s { pc = pc }

  -- `park_timeout(0)`: the state and whether a notification was received.
  unfoldable pub take_token : BlockOn → BlockOn × Bool
  take_token s = let (p, was) = K.park_now s.parker in (record s { parker = p }, was)

  -- One step of the thread from each place.
  unfoldable pub advance_from : Pc → BlockOn → Seen → BlockOn
  unfolding drop_guard go_to take_token
  advance_from polling s seen =
      if seen.future_ready then go_to (take_token s).0 done else go_to s first_check
  advance_from first_check s seen =
      let (s', was) = take_token s in
      if was then record s' { pc = reacting; io_polling = seen.lock_free } else go_to s' try_lock
  -- If the thread got the lock, its `react` has taken the poller's notification.
  advance_from reacting s seen = record s {
    pc = polling;
    io_polling = false;
    poll_notified = (if s.io_polling then false else s.poll_notified);
  }
  advance_from try_lock s seen = if seen.lock_free then go_to s enter else go_to s sleeping
  advance_from enter s seen = record s { pc = flagged; io_polling = true; io_blocked = true }
  advance_from flagged s seen =
      let (s', was) = take_token s in if was then drop_guard s' polling else go_to s' waiting
  advance_from waiting s seen = record s { pc = waking; poll_notified = false }
  advance_from waking s seen = go_to s returned
  advance_from returned s seen =
      let (s', was) = take_token s in
      if was
      then drop_guard s' polling
      else (if seen.long_elapsed then go_to s' hogging else drop_guard s' enter)
  advance_from hogging s seen = drop_guard (take_token s).0 polling
  advance_from sleeping s seen = go_to (take_token s).0 polling
  advance_from done s seen = go_to s done

  unfoldable pub advance : BlockOn → Seen → BlockOn
  unfolding advance_from
  advance s seen = advance_from s.pc s seen

  -- `BlockOnWaker::wake_by_ref` on the thread itself, whose `IO_POLLING` it reads.
  unfoldable pub wake_self : BlockOn → BlockOn
  wake_self s =
      let (p, first) = K.unpark s.parker in
      let s' : BlockOn = record s { parker = p } in
      if first && (not s.io_polling && s.io_blocked) then record s' { poll_notified = true } else s'

  -- `wake_by_ref` on another thread, in its two parts: `unpark`, and the check of `io_blocked` if
  -- that returned `true`. Such a thread does not process I/O itself, so its `IO_POLLING` is off.
  unfoldable pub wake_unpark : BlockOn → BlockOn
  wake_unpark s =
      let (p, first) = K.unpark s.parker in
      record s { parker = p; checking = (if first then s.checking + 1 else s.checking) }

  unfoldable pub wake_check : BlockOn → BlockOn
  wake_check s =
      let s' : BlockOn = record s { checking = s.checking - 1 } in
      if s.io_blocked then record s' { poll_notified = true } else s'
