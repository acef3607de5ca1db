-- ===== src/Program.antt =====
-- The whole at run time: the threads of `src/driver.rs` over the reactor of `src/reactor.rs`. A
-- thread that locks the reactor runs the rounds of the shared reactor; a waker of `block_on`
-- notifies its poller; every thread polls sources and timers meanwhile.
pub mod Rounds
pub mod Parts
pub mod Sleeps
use async_io.Base.{ℕ, ◌<◌, ◌≡◌, Bool, true, false, not, ◌&&◌, if◌then◌else◌, Option, none, some}
use async_io.External.Parker.{ParkerCrate}
use async_io.Reactor.{Platform, notify}
use async_io.Driver.{
  Pc, polling, first_check, reacting, flagged, waiting, waking, done, Seen, BlockOn, go_to,
  wake_unpark, wake_check,
}
use async_io.Driver.Handshake.{CanMove, Runs}
use async_io.Driver.Threads
use async_io.Driver.Threads.{
  main_loop, try_lock_reactor, lock_use_from, use_lock, block_on, Threads, view, put, thread_step,
  thread_unparks, thread_checks, no_threads,
}
use async_io.Driver.Threads.Exclusion.{owns}
use async_io.System
use async_io.System.{
  System, Phase, idle, polls, polls_future, drops_future, inserts_io, removes_io, inserts_timer,
  removes_timer, notifies, begins, returns, fails, dispatches, breaks, fires, ends, began, initial,
}

-- What a step of the reactor is for the thread that takes it: a call that any thread may make, the
-- first part of `react`, the return of `wait`, or what comes after that.
pub data Kind : Type 0 where
  call starts awakes handles : Kind

-- What a step of a thread has to do with `react`: nothing, it calls it with a timeout, its `wait`
-- returns, or it has returned from it.
pub data Part : Type 0 where
  stays : Part
  enters : Option ℕ → Part
  awaits leaves : Part

module _ (K : ParkerCrate) where
  -- The calls `react(Some(Duration::from_secs(0)))` and `react(None)` of `block_on`.
  unfoldable pub part_from : Pc → BlockOn K → Bool → Part
  part_from first_check b got = if (K.park_now b.parker).1 && got then enters (some 0) else stays
  part_from flagged b got = if (K.park_now b.parker).1 then stays else enters none
  part_from waiting b got = awaits
  part_from reacting b got = if b.io_polling then leaves else stays
  part_from waking b got = leaves
  part_from _ b got = stays

module _ (K : ParkerCrate) (X : Platform) where
  abbrev pub kind : {s t : System X} → System.Step X s t → Kind
  kind (begins timeout now e) = starts
  kind (returns now timeout tick wakers evs e f) = awakes
  kind (fails now timeout tick wakers x e f) = awakes
  kind (dispatches ev evs tick wakers e f) = handles
  kind (breaks ev evs tick wakers x e f) = handles
  kind (fires later tick wakers e) = handles
  kind (ends tick wakers e) = handles
  kind _ = call

  -- What it does to the reactor.
  abbrev pub Turn : Part → System X → System X → Type 0
  Turn stays s t = t ≡ s
  Turn (enters timeout) s t = (now : ℕ) × (t ≡ began X s timeout now)
  Turn awaits s t = (step : System.Step X s t) × (kind step ≡ awakes)
  Turn leaves s t = (s.phase ≡ idle) × (t ≡ s)

  pub record Program : Type 0 where
    pub threads : Threads K
    pub system : System X

  -- Whether the thread `i` gets the lock if it tries it in its next step.
  abbrev pub gets_lock : Threads K → ℕ → Seen → Bool
  gets_lock s i seen =
      (use_lock K (lock_use_from K (view K s i).pc (view K s i) seen) s.lock (block_on i)).1

  -- `BlockOnWaker` calls `Reactor::notify` or does not.
  abbrev pub notified_if : Bool → System X → System X
  notified_if b s = if b then record s { reactor = notify X s.reactor } else s

  pub data Step (s : Program) : Program → Type 0 where
    calls :
        (i : ℕ)
        → (s.threads.local i).pc ≡ done
        → Step s (record s { threads = put K s.threads i (go_to K (view K s.threads i) polling) })
    moves :
        (i : ℕ) (seen : Seen) (t : System X)
        → s.threads.pending i ≡ none
        → CanMove K (s.threads.local i).pc (K.notified (s.threads.local i).parker)
        → Turn
            (part_from K (s.threads.local i).pc (view K s.threads i) (gets_lock s.threads i seen))
            s.system
            t
        → Step s (record { threads = thread_step K s.threads i seen; system = t })
    unparks :
        (a i : ℕ)
        → s.threads.pending a ≡ none
        → Runs K (s.threads.local a).pc
        → Step s (record s { threads = thread_unparks K s.threads a i })
    checks :
        (a i : ℕ)
        → s.threads.pending a ≡ some i
        → Step s (record {
          threads = thread_checks K s.threads a i;
          system =
              notified_if
                (not (s.threads.local a).io_polling && (s.threads.local i).io_blocked)
                s.system;
        })
    others_unpark :
        (i : ℕ)
        → Step s (record s { threads = put K s.threads i (wake_unpark K (view K s.threads i)) })
    others_check :
        (i : ℕ)
        → 0 < (s.threads.local i).checking
        → Step s (record {
          threads = put K s.threads i (wake_check K (view K s.threads i));
          system = notified_if (s.threads.local i).io_blocked s.system;
        })
    -- Any thread polls, inserts and removes sources and timers.
    uses :
        (t : System X) (step : System.Step X s.system t)
        → kind step ≡ call
        → Step s (record s { system = t })
    -- A thread inside `react`: the `wait` of `react(Some(0))` returns, or it handles events.
    awakens :
        (i : ℕ) (t : System X) (step : System.Step X s.system t)
        → (s.threads.local i).pc ≡ reacting
        → (s.threads.local i).io_polling ≡ true
        → kind step ≡ awakes
        → Step s (record s { system = t })
    reacts :
        (i : ℕ) (t : System X) (step : System.Step X s.system t)
        → (s.threads.local i).pc ≡ reacting
        → (s.threads.local i).io_polling ≡ true
        → kind step ≡ handles
        → Step s (record s { system = t })
    wakes :
        (i : ℕ) (t : System X) (step : System.Step X s.system t)
        → (s.threads.local i).pc ≡ waking
        → kind step ≡ handles
        → Step s (record s { system = t })
    -- The "async-io" thread calls `react(None)`.
    main_locks :
        (now : ℕ)
        → (try_lock_reactor s.threads.lock main_loop).1 ≡ true
        → Step s (record {
          threads = record s.threads { lock = (try_lock_reactor s.threads.lock main_loop).0 };
          system = began X s.system none now;
        })
    main_waits :
        (t : System X) (step : System.Step X s.system t)
        → s.threads.lock ≡ some main_loop
        → kind step ≡ awakes
        → Step s (record { threads = record s.threads { poll_notified = false }; system = t })
    main_reacts :
        (t : System X) (step : System.Step X s.system t)
        → s.threads.lock ≡ some main_loop
        → kind step ≡ handles
        → Step s (record s { system = t })
    main_unlocks :
        s.threads.lock ≡ some main_loop
        → s.system.phase ≡ idle
        → Step s (record s { threads = record s.threads { lock = none } })

  pub data Reach (p : X.poller.Poller) : Program → Type 0 where
    here : Reach p (record { threads = no_threads K; system = initial X p })
    next : {s t : Program} → Reach p s → Step s t → Reach p t
