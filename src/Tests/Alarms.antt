-- ===== src/Tests/Alarms.antt =====
-- Timers over the small world.
use async_io.Base.{
  ℕ, ◌<◌, ◌≤◌, ◌≡◌, refl, ◌≢◌, List, [], ◌∷◌, none, some, inl, arith, In, pending, ready,
}
use async_io.Timers.{Waker}
use async_io.Reactor.{Reactor}
use async_io.Reactor.TimerQueue.Schedule.{scheduled}
use async_io.Reactor.Fire.{process_timers}
use async_io.Timer.{Timer, checked_add, set_at, poll_next}
use async_io.Timer.Registered.{IsRegistered, IsValid, IsValidOrFired, KeepsOthers}
use async_io.Timer.Polling.{Holds, poll_next_early, poll_next_due, poll_next_wakes}
use async_io.Timer.Fired.{process_timers-IsValidOrFired}
use async_io.Timer.Intervals.{poll_all, poll_all_interval, set_at_repeats}
use async_io.Timer.Operations.{set_at_wakes}
use async_io.Tests.World.{program, toy, world}

-- The timer behind the entry with the ID 1.
abbrev alarm : Timer
alarm = record { id_and_waker = some (1, 9); when = some 100; period = 30 }

alarm-IsValid : IsValid toy alarm world
unfolding program
alarm-IsValid = record {
  room = omega arith;
  issued = (omega arith, (omega arith, (omega arith, tt)));
  registered = (omega arith, refl, λ w ne. ground arith);
}

poll_next_early_example :
    ((poll_next toy alarm 40 6 world).0 ≡ pending)
    × IsValid toy (poll_next toy alarm 40 6 world).1 (poll_next toy alarm 40 6 world).2
    × ((poll_next toy alarm 40 6 world).1.when ≡ some 100)
    × ((poll_next toy alarm 40 6 world).1.period ≡ 30)
    × Holds toy (poll_next toy alarm 40 6 world).1 6
    × KeepsOthers toy (some (1, 9)) world (poll_next toy alarm 40 6 world).2
poll_next_early_example =
    poll_next_early toy alarm 100 40 6 world refl (omega arith) alarm-IsValid (omega arith)

-- The round at 120 has fired the timer.
abbrev fired_world : Reactor toy
fired_world = (process_timers toy world [] 120).2

alarm-IsValidOrFired : IsValidOrFired toy alarm world
alarm-IsValidOrFired = record {
  room = alarm-IsValid.room;
  issued = alarm-IsValid.issued;
  registered = inl alarm-IsValid.registered;
}

alarm-IsFired : IsValidOrFired toy alarm fired_world
alarm-IsFired = (process_timers-IsValidOrFired toy alarm world [] 120 alarm-IsValidOrFired).0

process_timers-IsValidOrFired_example :
    IsValidOrFired toy alarm fired_world
    × ((when : ℕ)
        → alarm.when ≡ some when
        → when ≤ 120
        → IsRegistered none alarm.id_and_waker 4 (scheduled toy fired_world))
    × (IsValid toy alarm world
        → ((when : ℕ) → alarm.when ≡ some when → 120 < when)
        → IsValid toy alarm fired_world)
process_timers-IsValidOrFired_example =
    process_timers-IsValidOrFired toy alarm world [] 120 alarm-IsValidOrFired

poll_next_due_example :
    ((poll_next toy alarm 140 6 fired_world).0 ≡ ready (some 100))
    × IsValid toy
        (poll_next toy alarm 140 6 fired_world).1
        (poll_next toy alarm 140 6 fired_world).2
    × ((poll_next toy alarm 140 6 fired_world).1.when ≡ checked_add toy 100 30)
    × ((poll_next toy alarm 140 6 fired_world).1.period ≡ 30)
    × (checked_add toy 100 30 ≢ none → Holds toy (poll_next toy alarm 140 6 fired_world).1 6)
    × KeepsOthers toy (some (1, 9)) fired_world (poll_next toy alarm 140 6 fired_world).2
unfolding program
poll_next_due_example =
    poll_next_due toy alarm 100 140 6 fired_world refl (omega arith) alarm-IsFired (omega arith)

poll_next_wakes_example : In 6 (process_timers toy (poll_next toy alarm 40 6 world).2 [] 120).1
poll_next_wakes_example =
    poll_next_wakes toy alarm 100 40 120 6 world [] refl (omega arith) (omega arith) alarm-IsValid
      (omega arith)

-- Three polls, each later than its deadline by more than the last.
abbrev late_polls : List (ℕ × Waker)
late_polls = (101, 6) ∷ (140, 6) ∷ (190, 6) ∷ []

poll_all_interval_example :
    poll_all toy alarm world late_polls
    ≡ ready (some 100) ∷ ready (some 130) ∷ ready (some 160) ∷ []
poll_all_interval_example =
    poll_all_interval toy alarm 100 30 world late_polls refl refl
      ((omega arith, omega arith, ((omega arith, omega arith, ((omega arith, omega arith, tt))))))

set_at_wakes_example : In 9 (process_timers toy (set_at toy alarm 120 world).1 [] 120).1
set_at_wakes_example =
    set_at_wakes toy alarm 120 120 world 1 9 [] alarm-IsValid (omega arith) refl (omega arith)

set_at_repeats_example :
    ((poll_next toy (set_at toy alarm 120 world).0 125 6 (set_at toy alarm 120 world).1).0
      ≡ ready (some 120))
    × ((poll_next toy (set_at toy alarm 120 world).0 125 6 (set_at toy alarm 120 world).1).1.when
        ≡ some 150)
set_at_repeats_example =
    set_at_repeats toy alarm 120 125 6 world alarm-IsValid (omega arith) (omega arith) (omega arith)
