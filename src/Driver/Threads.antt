-- ===== src/Driver/Threads.antt =====
-- `src/driver.rs` and the lock of `src/reactor.rs`: any number of threads that run `block_on`, and
-- the "async-io" thread, over the one reactor lock and the one poller, in any interleaving. The
-- wakers of each thread are called by the others.
pub mod Exclusion
pub mod Waiting
pub mod Wakeups
use async_io.Base.{
  ℕ, ◌<◌, ◌≡◌, Bool, true, false, not, ◌&&◌, if◌then◌else◌, Option, none, some, update,
}
use async_io.External.Parker.{ParkerCrate}
use async_io.Driver.{
  Pc, polling, first_check, reacting, try_lock, flagged, returned, done, Seen, BlockOn, start,
  go_to, advance, wake_unpark, wake_check,
}
use async_io.Driver.Handshake.{CanMove, Runs}

-- Who holds the guard of the lock.
pub data Owner : Type 0 where
  block_on : ℕ → Owner
  main_loop : Owner

-- `Reactor::try_lock`, and whether it gives a guard.
unfoldable pub try_lock_reactor : Option Owner → Owner → Option Owner × Bool
try_lock_reactor none o = (some o, true)
try_lock_reactor (some p) o = (some p, false)

-- What a step of a thread does to the lock: it tries it, or drops its guard.
pub data LockUse : Type 0 where
  keeps tries drops : LockUse

module _ (K : ParkerCrate) where
  unfoldable pub lock_use_from : Pc → BlockOn K → Seen → LockUse
  lock_use_from first_check s seen = if (K.park_now s.parker).1 then tries else keeps
  lock_use_from reacting s seen = if s.io_polling then drops else keeps
  lock_use_from try_lock s seen = tries
  lock_use_from flagged s seen = if (K.park_now s.parker).1 then drops else keeps
  lock_use_from returned s seen =
      if (K.park_now s.parker).1 then drops else (if seen.long_elapsed then drops else keeps)
  lock_use_from _ s seen = keeps

  unfoldable pub use_lock : LockUse → Option Owner → Owner → Option Owner × Bool
  unfolding try_lock_reactor
  use_lock keeps l o = (l, false)
  use_lock tries l o = try_lock_reactor l o
  use_lock drops l o = (none, false)

  -- `pending` is the thread whose parker this thread has unparked, and whose `io_blocked` it is to
  -- check next. `poll_notified` is the poller's, which all threads share.
  pub record Threads : Type 0 where
    pub local : ℕ → BlockOn K
    pub pending : ℕ → Option ℕ
    pub lock : Option Owner
    pub poll_notified : Bool

  -- No call of `block_on` is active.
  unfoldable pub no_threads : Threads
  unfolding start go_to
  no_threads = record {
    local = λ _. go_to K (start K) done;
    pending = λ _. none;
    lock = none;
    poll_notified = false;
  }

  -- A thread with the poller that it shares.
  abbrev pub view : Threads → ℕ → BlockOn K
  view s i = record (s.local i) { poll_notified = s.poll_notified }

  abbrev pub put : Threads → ℕ → BlockOn K → Threads
  put s i b = record s { local = update s.local i b; poll_notified = b.poll_notified }

  -- A step of the thread `i`, which finds the lock as it is.
  unfoldable pub thread_step : Threads → ℕ → Seen → Threads
  unfolding use_lock lock_use_from
  thread_step s i seen =
      let b = view s i in
      let (lock, got) = use_lock (lock_use_from b.pc b seen) s.lock (block_on i) in
      record (put s i (advance K b (record seen { lock_free = got }))) { lock = lock }

  -- `BlockOnWaker::wake_by_ref` of the waker of `i`, called on the thread `a`, in its two parts:
  -- `unpark`, and the check of `a`'s `IO_POLLING` and of `io_blocked` if that returned `true`.
  unfoldable pub thread_unparks : Threads → ℕ → ℕ → Threads
  thread_unparks s a i =
      let (p, first) = K.unpark (s.local i).parker in
      record s {
        local = update s.local i (record (s.local i) { parker = p });
        pending = update s.pending a (if first then some i else none);
      }

  unfoldable pub thread_checks : Threads → ℕ → ℕ → Threads
  thread_checks s a i = record s {
    pending = update s.pending a none;
    poll_notified =
        if not (s.local a).io_polling && (s.local i).io_blocked then true else s.poll_notified;
  }

  -- Threads that run no `block_on` call wakers as well, and so does the "async-io" thread; neither
  -- sets its `IO_POLLING`.
  pub data Step (s : Threads) : Threads → Type 0 where
    calls : (i : ℕ) → (s.local i).pc ≡ done → Step s (put s i (go_to K (view s i) polling))
    moves :
        (i : ℕ) (seen : Seen)
        → s.pending i ≡ none
        → CanMove K (s.local i).pc (K.notified (s.local i).parker)
        → Step s (thread_step s i seen)
    unparks : (a i : ℕ) → s.pending a ≡ none → Runs K (s.local a).pc → Step s (thread_unparks s a i)
    checks : (a i : ℕ) → s.pending a ≡ some i → Step s (thread_checks s a i)
    others_unpark : (i : ℕ) → Step s (put s i (wake_unpark K (view s i)))
    others_check : (i : ℕ) → 0 < (s.local i).checking → Step s (put s i (wake_check K (view s i)))
    -- The "async-io" thread locks the reactor, its `wait` returns, and it drops its guard.
    main_locks :
        (try_lock_reactor s.lock main_loop).1 ≡ true
        → Step s (record s { lock = (try_lock_reactor s.lock main_loop).0 })
    main_waits : s.lock ≡ some main_loop → Step s (record s { poll_notified = false })
    main_unlocks : s.lock ≡ some main_loop → Step s (record s { lock = none })

  pub data Reach : Threads → Type 0 where
    here : Reach no_threads
    next : {s t : Threads} → Reach s → Step s t → Reach t
