-- ===== src/Tests/Programs.antt =====
-- Threads of `block_on` over the reactor of the small world, and the first calls of `Reactor::get`.
use native.Mathlib.Decide.{ℕ_discrete}
use async_io.Base.{
  ℕ, ◌+◌, ◌≤◌, ◌<◌, ◌≡◌, ◌≢◌, refl, ◌⊎◌, inl, true, false, List, none, some, update,
}
use async_io.Timers.{Waker}
use async_io.Driver.{polling, Seen, start, go_to, take_token, advance_from, advance, wake_check}
use async_io.Driver.Threads
use async_io.Driver.Threads.{
  Threads, block_on, no_threads, view, put, lock_use_from, use_lock, try_lock_reactor, thread_step,
  thread_unparks, thread_checks,
}
use async_io.Driver.Threads.Exclusion.{holds, Reach-IsExclusive}
use async_io.Driver.Threads.Wakeups.{Reach-woken}
use async_io.System
use async_io.System.{initial, inserts_timer, began, System}
use async_io.Reactor.TimerQueue.{insert_timer}
use async_io.Program
use async_io.Program.{Program, part_from}
use async_io.Program.Parts.{Split, Reach-Split}
use async_io.Program.Sleeps.{Reach-sleeps}
use async_io.Driver.Init
use async_io.Driver.Init.{
  Statics, outside, at_reactor, full, get_or_init, after_unparker, init_step, no_statics, InitReach,
}
use async_io.Driver.Init.Once.{InitReach-once}
use async_io.Driver.Init.Progress.{steps_ahead, InitReach-goes_on}
use async_io.Tests.Crates.{flag_parker}
use async_io.Tests.Systems.{silent}
use async_io.Tests.World.{toy, program}

-- The future is not ready, and little time has passed.
abbrev calm : Seen
calm = record { future_ready = false; lock_free = false; long_elapsed = false }

-- Two threads call `block_on`, and the thread 0 goes on.
abbrev called : Threads flag_parker
called = put flag_parker no_two 1 (go_to flag_parker (view flag_parker no_two 1) polling)
  where
    no_two : Threads flag_parker
    no_two =
        put flag_parker (no_threads flag_parker) 0
          (go_to flag_parker (view flag_parker (no_threads flag_parker) 0) polling)

abbrev went : Threads flag_parker → Threads flag_parker
went s = thread_step flag_parker s 0 calm

called-Reach : Threads.Reach flag_parker called
unfolding no_threads start go_to ℕ_discrete
called-Reach =
    Threads.next (Threads.next Threads.here (Threads.calls 0 refl)) (Threads.calls 1 refl)

-- The thread 0 has locked the reactor.
locked-Reach : Threads.Reach flag_parker (went (went (went called)))
unfolding no_threads start go_to thread_step advance advance_from take_token use_lock lock_use_from
    try_lock_reactor ℕ_discrete
locked-Reach =
    Threads.next
      (Threads.next (Threads.next called-Reach (Threads.moves 0 calm refl tt))
        (Threads.moves 0 calm refl tt))
      (Threads.moves 0 calm refl tt)

abbrev locked : Threads flag_parker
locked = went (went (went called))

Reach-IsExclusive_example :
    (locked.lock ≡ some (block_on 0))
    × (holds (locked.local 1).pc (locked.local 1).io_polling ≡ true → ◌≡◌ {A = ℕ} 1 0)
unfolding no_threads start go_to thread_step advance advance_from take_token use_lock lock_use_from
    try_lock_reactor ℕ_discrete
Reach-IsExclusive_example = Reach-IsExclusive flag_parker locked 0 1 locked-Reach refl

-- The thread 0 waits, and the thread 1, which polls its future, wakes it.
abbrev waits : Threads flag_parker
waits = went (went locked)

abbrev woken : Threads flag_parker
woken = thread_unparks flag_parker waits 1 0

woken-Reach : Threads.Reach flag_parker woken
unfolding no_threads start go_to thread_step advance advance_from take_token use_lock lock_use_from
    try_lock_reactor thread_unparks ℕ_discrete
woken-Reach =
    Threads.next
      (Threads.next (Threads.next locked-Reach (Threads.moves 0 calm refl tt))
        (Threads.moves 0 calm refl tt))
      (Threads.unparks 1 0 refl tt)

Reach-woken_example :
    (woken.poll_notified ≡ true)
    ⊎ (((0 < (woken.local 0).checking)
          × ((wake_check flag_parker (view flag_parker woken 0)).poll_notified ≡ true))
        ⊎ ((a : ℕ) × (woken.pending a ≡ some 0)
            × ((thread_checks flag_parker woken a 0).poll_notified ≡ true)))
unfolding no_threads start go_to thread_step advance advance_from take_token use_lock lock_use_from
    try_lock_reactor thread_unparks ℕ_discrete
Reach-woken_example = Reach-woken flag_parker woken 0 woken-Reach refl refl

-- A timer is inserted, and the thread 0 waits in the poller.
abbrev program_state : Threads flag_parker → System toy → Program flag_parker toy
program_state threads system = record { threads = threads; system = system }

abbrev timer_set : System toy
timer_set = record (initial toy silent) {
  reactor = (insert_timer toy (initial toy silent).reactor 100 5).1;
  notified = true;
}

abbrev sleeping_program : Program flag_parker toy
sleeping_program = program_state waits (began toy timer_set none 40)

sleeping_program-Reach : Program.Reach flag_parker toy silent sleeping_program
unfolding no_threads start go_to thread_step advance advance_from take_token use_lock lock_use_from
    try_lock_reactor part_from ℕ_discrete
sleeping_program-Reach =
    let begun =
      Program.next
        (Program.next
          (Program.next Program.here (Program.uses timer_set (inserts_timer 100 5) refl))
          (Program.calls 0 refl))
        (Program.calls 1 refl) in
    let tried =
      Program.next
        (Program.next (Program.next begun (Program.moves 0 calm timer_set refl tt refl))
          (Program.moves 0 calm timer_set refl tt refl))
        (Program.moves 0 calm timer_set refl tt refl) in
    Program.next (Program.next tried (Program.moves 0 calm timer_set refl tt refl))
      (Program.moves 0 calm (began toy timer_set none 40) refl tt (40, refl))

Reach-Split_example : Split flag_parker toy silent sleeping_program
Reach-Split_example = Reach-Split flag_parker toy silent sleeping_program sleeping_program-Reach

Reach-sleeps_example :
    (now d tick : ℕ) × (wakers : List Waker) × (sleeping_program.system.phase
      ≡ System.waiting now (some d) tick wakers)
    × (now + d ≤ 100)
unfolding no_threads start go_to thread_step advance advance_from take_token use_lock lock_use_from
    try_lock_reactor program ℕ_discrete
Reach-sleeps_example =
    Reach-sleeps flag_parker toy silent sleeping_program 0
      (record { when = 100; id = 1; waker = 5 }) sleeping_program-Reach refl refl (inl refl)

-- The thread 0 calls `Reactor::get`, and is in the closure of `unparker`; the thread 1 waits for it.
abbrev one_called : Statics
one_called = record no_statics { place = update (λ _. outside) 0 at_reactor }

abbrev both_called : Statics
both_called = record one_called { place = update one_called.place 1 at_reactor }

abbrev goes : Statics → Statics
goes s = init_step (s.place 0) s 0

abbrev starting : Statics
starting = goes (goes (goes both_called))

starting-InitReach : InitReach starting
unfolding init_step get_or_init ℕ_discrete
starting-InitReach =
    let called = Init.next (Init.next Init.here (Init.gets 0 refl)) (Init.gets 1 refl) in
    Init.next (Init.next (Init.next called (Init.goes_on 0)) (Init.goes_on 0)) (Init.goes_on 0)

abbrev started : Statics
started = goes (goes starting)

started-InitReach : InitReach started
unfolding init_step get_or_init after_unparker ℕ_discrete
started-InitReach = Init.next (Init.next starting-InitReach (Init.goes_on 0)) (Init.goes_on 0)

started_full : (started.reactor ≡ full) × (started.threads ≡ 1)
unfolding init_step get_or_init after_unparker ℕ_discrete
started_full = (refl, refl)

InitReach-once_example :
    (started.threads ≤ 1)
    × (started.reactors ≤ 1)
    × (started.reactor ≡ full → (started.threads ≡ 1) × (started.reactors ≡ 1))
InitReach-once_example = InitReach-once started started-InitReach

InitReach-goes_on_example :
    (j : ℕ) × (starting.place j ≢ outside)
    × (steps_ahead ((init_step (starting.place j) starting j).place j)
        < steps_ahead (starting.place j))
unfolding init_step get_or_init ℕ_discrete
InitReach-goes_on_example = InitReach-goes_on starting 1 starting-InitReach (λ e. cc)
