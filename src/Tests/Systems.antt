-- ===== src/Tests/Systems.antt =====
-- Threads that share the reactor of the small world.
use async_io.Base.{
  List, ok, In, arith, ℕ, ◌+◌, ◌≤◌, inl, ◌≡◌, refl, [], ◌∷◌, Option, none, some, true, false,
}
use async_io.Reactor.React.{react}
use async_io.System.Wakes.{Reach_wakes_timer, Reach_wakes_io, dispatched}
use async_io.Reactor.{read}
use async_io.System.{
  after_wait, dispatching, returns, ends, System, Step, idle, initial, began, inserts_io,
  inserts_timer, begins, Reach, here, next,
}
use async_io.System.Sources.{SourcesInv}
use async_io.System.Rounds.{Reach-SourcesInv, Reach-timeout}
use async_io.System.React.{Goes, react-Reach}
use async_io.Reactor.Io.{insert_io}
use async_io.Reactor.TimerQueue.{insert_timer}
use async_io.Timer
use async_io.Timer.{Timer}
use async_io.Tests.Polls.{Scripted}
use async_io.Tests.World.{reader, readable_event, toy, world, program, fd}

abbrev pub silent : Scripted
silent = record { interest = λ _. none; script = [] }

-- A source and a timer are inserted, and a round begins.
abbrev opened : System toy
opened = record (initial toy silent) {
  reactor = (insert_io toy (initial toy silent).reactor (fd 7)).1;
}

abbrev timed : System toy
timed = record opened { reactor = (insert_timer toy opened.reactor 100 5).1; notified = true }

abbrev asleep : System toy
asleep = began toy timed none 40

path : Reach toy (initial toy silent) asleep
path = next (next (next here (inserts_io (fd 7))) (inserts_timer 100 5)) (begins none 40 refl)

Reach-SourcesInv_example : SourcesInv toy asleep
Reach-SourcesInv_example = Reach-SourcesInv toy silent asleep path

Reach-timeout_example : (d : ℕ) × (◌≡◌ {A = Option ℕ} (some 60) (some d)) × (40 + d ≤ 100)
unfolding program
Reach-timeout_example =
    Reach-timeout toy silent asleep 40 (some 60) 1 [] (record { when = 100; id = 1; waker = 5 })
      path refl refl (inl refl)

abbrev resting : System toy
resting = record (initial toy silent) { reactor = world; notified = true }

react-Reach_example :
    Step toy resting (began toy resting none 120)
    × (lost : List ℕ) × (failures : ℕ) × Goes toy (began toy resting none 120) (record resting {
      reactor = (react toy world none 120 130).0;
      phase = idle;
      woken = (react toy world none 120 130).1;
      notified = false;
      lost = lost;
      failures = failures;
    })
    × ((react toy world none 120 130).2 ≡ ok tt
        → (lost ≡ resting.lost) × (failures ≡ resting.failures))
react-Reach_example = react-Reach toy resting none 120 130 refl

-- The round begins after the deadline, finds no event, and ends.
abbrev late : System toy
late = began toy timed none 120

abbrev answered : System toy
answered = record late { phase = dispatching [] 1 (5 ∷ []) }

abbrev finished_round : System toy
finished_round = record late { phase = idle; woken = 5 ∷ [] }

late_path : Reach toy late finished_round
unfolding program after_wait
late_path = next (next here (returns 120 (some 0) 1 (5 ∷ []) [] refl refl)) (ends 1 (5 ∷ []) refl)

Reach_wakes_timer_example : In 5 finished_round.woken
unfolding program
Reach_wakes_timer_example =
    Reach_wakes_timer toy timed finished_round none 120 100 1 5 refl (omega arith) late_path refl
      refl

-- An event for the reader is dispatched, and the round ends.
abbrev delivering : System toy
delivering = record resting { phase = dispatching (readable_event ∷ []) 1 [] }

abbrev delivered_world : System toy
delivered_world = dispatched toy delivering readable_event [] 1 []

delivered_path : Reach toy delivered_world (record delivered_world { phase = idle; woken = 5 ∷ [] })
unfolding program
delivered_path = next here (ends 1 (5 ∷ []) refl)

Reach_wakes_io_example : In 5 (record delivered_world { phase = idle; woken = 5 ∷ [] }).woken
unfolding program
Reach_wakes_io_example =
    Reach_wakes_io toy delivering (record delivered_world { phase = idle; woken = 5 ∷ [] })
      readable_event [] 1 [] read 5 refl (reader, refl, inl refl) refl delivered_path refl refl

-- The timer behind the entry with the ID 1.
abbrev alarm : Timer
alarm = record { id_and_waker = some (1, 9); when = some 100; period = 50 }
