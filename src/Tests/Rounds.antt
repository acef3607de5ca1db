-- ===== src/Tests/Rounds.antt =====
-- The rounds of the reactor in the small world.
use async_io.Base.{
  ℕ, pending, ready, ok, false, ◌≢◌, ◌+◌, ◌%◌, ◌<◌, ◌≤◌, ◌≡◌, refl, List, [], ◌∷◌, ◌++◌, map,
  Option, none, some, true, inl, arith, In, All, IoResult, other, Poll,
}
use async_io.Timers.{Waker, Entry, lookup, insert}
use async_io.Timers.Order.{IsSorted}
use async_io.Reactor.{read, write, Source, Reactor, usize_mod}
use async_io.Reactor.TimerQueue.{insert_timer}
use async_io.Reactor.TimerQueue.Schedule.{scheduled, HasRoom, Keeps}
use async_io.Reactor.TimerQueue.Laws.{IdsBelow, insert_timer_lem, insert_timer-IdsFresh}
use async_io.Reactor.Fire.{process_timers}
use async_io.Reactor.Fire.Calls.{TimerCall, inserts, removes, processes}
use async_io.Reactor.Fire.Laws.{due, process_timers-schedule}
use async_io.Reactor.Sources.{poll_ready}
use async_io.Reactor.Sources.Errors.{poll_ready_forgets}
use async_io.Reactor.React.Fresh.{
  Watch, no_watch, polled, with_poller, begins, delivers, polls, stays, goes, poll_ready_fresh,
}
use async_io.Reactor.Sources.Cover.{NotErr}
use async_io.Reactor.Io.{poll_source}
use async_io.Reactor.Io.Covered.{AllCovered, poll_source-AllCovered}
use async_io.Reactor.React.{react, begin_react, deliver}
use async_io.Reactor.React.Covered.{react-AllCovered}
use async_io.Reactor.React.Wakes.{react_wakes_io, react_wakes_timer}
use async_io.Reactor.React.Errors.{react_error_forgets}
use async_io.Reactor.React.Timeout.{begin_react-timeout}
use async_io.Tests.World.{
  fd, program, toy, world, world-AllCovered, reader, readable_event, idle_direction,
}

react-AllCovered_example :
    AllCovered toy (react toy world none 120 130).0.sources (react toy world none 120 130).0.poller
unfolding program
react-AllCovered_example = react-AllCovered toy world none 120 130 world-AllCovered refl

react_wakes_io_example : In 5 (react toy world none 120 130).1
unfolding program
react_wakes_io_example =
    react_wakes_io toy world none 120 130 (readable_event ∷ []) 0 read 5 refl (inl (refl, refl))
      (reader, refl, inl refl) refl

react_wakes_timer_example : In 9 (react toy world none 120 130).1
unfolding program
react_wakes_timer_example = react_wakes_timer toy world none 120 130 100 1 9 refl (omega arith) refl

world-IsSorted : IsSorted (scheduled toy world)
unfolding program
world-IsSorted = ((refl, (refl, tt)), ((refl, tt), (tt, tt)))

abbrev no_limit : Option ℕ
no_limit = none

begin_react-timeout_example :
    ((begin_react toy world no_limit 120).2 ≡ none → (scheduled toy world ≡ []) × (no_limit ≡ none))
    × ((d : ℕ)
        → (begin_react toy world no_limit 120).2 ≡ some d
        → ((x : Entry)
            → In x (scheduled toy (begin_react toy world no_limit 120).0)
            → 120 + d ≤ x.when)
          × ((t : ℕ) → no_limit ≡ some t → d ≤ t))
begin_react-timeout_example = begin_react-timeout toy world no_limit 120 world-IsSorted

-- A descriptor that the poller does not know, so that its re-registration fails: the task 5 waits
-- to read and the task 4 to write.
abbrev unknown : Source toy
unknown = record reader {
  registration = fd 8;
  writes = record idle_direction { waker = some 4; ticks = some (0, 0) };
}

abbrev broken_world : Reactor toy
broken_world = record world { sources = some unknown ∷ [] }

react_error_forgets_example :
    ((react toy broken_world none 120 130).1 ≡ [])
    × (lookup 100 1 (scheduled toy (react toy broken_world none 120 130).0) ≡ none)
unfolding program
react_error_forgets_example =
    react_error_forgets toy broken_world none 120 130 100 1 9 (readable_event ∷ []) other refl
      (omega arith) refl refl

-- The task 5 polls, a round begins and delivers an event.
abbrev unwatched : Watch toy
unwatched = no_watch toy world.poller (fd 7) 0

abbrev remembered : Watch toy
remembered = record unwatched {
  source = (polled toy unwatched read 5).1;
  reactor = with_poller toy unwatched.reactor (polled toy unwatched read 5).2;
}

abbrev begun : Watch toy
begun = record remembered {
  reactor = (begin_react toy remembered.reactor none 40).0;
  in_flight = some (begin_react toy remembered.reactor none 40).3;
  rounds = 1;
  began_since = true;
}

abbrev fresh : Watch toy
fresh = record begun {
  source = (deliver toy readable_event 1 begun.source begun.reactor.poller []).0;
  reactor =
      with_poller toy begun.reactor
        (deliver toy readable_event 1 begun.source begun.reactor.poller []).1;
  delivered_since = true;
}

poll_ready_fresh_example :
    (true ≡ true → (polled toy fresh read 5).0 ≡ ready (ok tt))
    × (true ≡ false → (polled toy fresh read 5).0 ≢ ready (ok tt))
unfolding program
poll_ready_fresh_example =
    poll_ready_fresh toy read world.poller (fd 7) 0 fresh 5
      (goes (goes (goes stays (polls 5 (λ e. cc))) (begins none 40 refl))
        (delivers readable_event 1 [] refl))
      (omega arith) (λ e. cc)

poll_source-AllCovered_example :
    (out : Poll (IoResult (Unit {0})) × Reactor toy × List Waker) × (poll_source toy world 0 write 4
      ≡ some out)
    × (NotErr out.0 → AllCovered toy out.1.sources out.1.poller)
unfolding program
poll_source-AllCovered_example =
    poll_source-AllCovered toy world 0 write 4 reader refl world-AllCovered

process_timers-schedule_example :
    (scheduled toy world
      ≡ due 120 (scheduled toy world) ++ scheduled toy (process_timers toy world [] 120).2)
    × ((process_timers toy world [] 120).1
        ≡ map (λ (x : Entry). x.waker) (due 120 (scheduled toy world)))
    × All (λ (x : Entry). 120 < x.when) (scheduled toy (process_timers toy world [] 120).2)
    × Keeps toy world (process_timers toy world [] 120).2
process_timers-schedule_example = process_timers-schedule toy world [] 120 world-IsSorted

insert_timer_lem_example :
    ((insert_timer toy world 300 7).0 ≡ 4)
    × (scheduled toy (insert_timer toy world 300 7).1 ≡ insert 300 4 7 (scheduled toy world))
    × (HasRoom toy (insert_timer toy world 300 7).1)
    × ((insert_timer toy world 300 7).1.id_generator ≡ (4 + 1) % usize_mod)
    × ((insert_timer toy world 300 7).1.sources ≡ world.sources)
    × ((insert_timer toy world 300 7).1.ticker ≡ 0)
    × ((insert_timer toy world 300 7).1.poller ≡ toy.poller.notify world.poller)
insert_timer_lem_example = insert_timer_lem toy world 300 7 (omega arith)

-- The task 7 sets a timer, the one with the ID 2 is removed, and two rounds fire what is due.
abbrev calls : List TimerCall
calls = inserts 300 7 ∷ removes 200 2 ∷ processes 120 ∷ processes 320 ∷ []

insert_timer-IdsFresh_example :
    ((w : ℕ) → lookup w (insert_timer toy world 300 7).0 (scheduled toy world) ≡ none)
    × ((insert_timer toy world 300 7).1.id_generator ≡ 5)
    × IdsBelow 5 (scheduled toy (insert_timer toy world 300 7).1)
unfolding program
insert_timer-IdsFresh_example =
    insert_timer-IdsFresh toy world 300 7 (omega arith)
      (record { no_wrap = omega arith; issued = (omega arith, (omega arith, (omega arith, tt))) })

-- Nobody waits yet for the descriptor that the poller does not know.
abbrev unknown_idle : Source toy
unknown_idle = record unknown { reads = idle_direction; writes = idle_direction }

poll_ready_forgets_example :
    ((poll_ready toy (poll_ready toy unknown_idle read 5 1 world.poller).1 read 5 3 world.poller).0
      ≡ pending)
    × ((poll_ready toy
          (poll_ready toy unknown_idle read 5 1 world.poller).1
          read
          5
          3
          world.poller).2
        ≡ world.poller)
unfolding program
poll_ready_forgets_example =
    poll_ready_forgets toy unknown_idle read 5 1 3 world.poller world.poller other refl
