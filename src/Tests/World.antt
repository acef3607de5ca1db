-- ===== src/Tests/World.antt =====
-- A small reactor: one source with a waiting reader, two timers in the map and a third one in the
-- full queue of operations.
use async_io.Base.{
  ℕ, ◌≡◌, refl, [], ◌∷◌, none, some, true, false, inl, inr, arith, ok, Bool-cases, ◌==◌,
  if◌then◌else◌, sym, subst,
}
use async_io.External.Poller.{Event}
use async_io.Timers.{insert_op, lookup, insert, remove, below, split_off, apply_op, apply_ops}
use async_io.Reactor.{
  Platform, Direction, Source, Reactor, default_direction, new_reactor, get_ticker, notify,
}
use async_io.Registration.Unix
use async_io.Reactor.TimerQueue.{
  drain_ops, process_timer_ops, push_loop, insert_timer, remove_timer,
}
use async_io.Reactor.TimerQueue.Schedule.{scheduled}
use async_io.Reactor.Fire.{next_event, process_timers}
use async_io.Reactor.Fire.Laws.{due}
use async_io.Reactor.Directions.{is_none, all_none, push_taken, is_empty, drain_slots, drain_into}
use async_io.Reactor.Directions.Laws.{waiting, slot_wakers}
use async_io.Reactor.Sources.{
  delivered, settled, interest_event, update_interest, store_waker, enroll, poll_ready, claim_slot,
  poll_future, drop_slot, drop_future,
}
use async_io.Reactor.Sources.Cover.{Covered}
use async_io.Reactor.Io.{insert_io, remove_io, poll_source, poll_ready_future, drop_ready_future}
use async_io.Reactor.Io.Covered.{AllCovered}
use async_io.Reactor.React.{
  combine_timeouts, is_nonzero, emit, reregister_source, deliver, dispatch, begin_react,
  finish_react, react,
}
use async_io.Timer.{
  never, interval_at, at, will_fire, first_item, checked_add, after, interval, deregister, clear,
  reregister, set_at, set_interval_at, set_after, set_interval, drop, register, fire, wait_more,
  poll_at, poll_next, poll,
}
use async_io.Tests.Crates.{list_queue}
use async_io.Tests.Slabs.{slot_slab}
use async_io.Tests.Polls.{Scripted, scripted_poller}

unfoldable pub program : Unit {0}
unfolding Unix.add Unix.modify Unix.delete lookup insert remove below split_off apply_op apply_ops
    default_direction new_reactor get_ticker notify drain_ops process_timer_ops push_loop
    insert_timer remove_timer scheduled next_event process_timers due waiting slot_wakers is_none
    all_none push_taken is_empty drain_slots drain_into delivered settled interest_event
    update_interest store_waker enroll poll_ready claim_slot poll_future drop_slot drop_future
    insert_io remove_io poll_source poll_ready_future drop_ready_future combine_timeouts is_nonzero
    emit reregister_source deliver dispatch begin_react finish_react react never interval_at at
    will_fire first_item checked_add after interval deregister clear reregister set_at
    set_interval_at set_after set_interval drop register fire wait_more poll_at poll_next poll
program = tt

abbrev pub toy : Platform
toy = record {
  queue = list_queue;
  slab = slot_slab;
  poller = Unix.registrar scripted_poller;
  instant_max = 1_000_000;
}

abbrev pub fd : ℕ → Unix.Registration
fd raw = record { raw = raw }

abbrev pub readable_event : Event
readable_event = record { key = 0; readable = true; writable = false }

abbrev pub idle_direction : Direction toy
idle_direction = record { tick = 0; ticks = none; waker = none; wakers = [] }

-- The task 5 waits to read.
abbrev pub reader : Source toy
reader = record {
  registration = fd 7;
  key = 0;
  reads = record { tick = 0; ticks = some (0, 0); waker = some 5; wakers = [] };
  writes = idle_direction;
}

-- A poller that knows the reader's descriptor and will report that it is readable.
abbrev pub poller : Scripted
poller = record {
  interest = λ fd. if 7 == fd then some readable_event else none;
  script = ok (readable_event ∷ []) ∷ [];
}

abbrev pub world : Reactor toy
world = record {
  poller = poller;
  ticker = 0;
  sources = some reader ∷ [];
  timers = record { when = 100; id = 1; waker = 9 } ∷ record { when = 200; id = 2; waker = 8 } ∷ [];
  timer_ops = (0, insert_op 150 3 6 ∷ []);
  id_generator = 4;
}

reader-Covered : Covered toy reader poller
unfolding program
reader-Covered = record {
  event = readable_event;
  registered = refl;
  same_key = refl;
  covers_reads = λ e. refl;
  covers_writes = λ _ e. sym e;
}

pub world-AllCovered : AllCovered toy world.sources world.poller
world-AllCovered key s e = elim (Bool-cases (key == 0)) [
  | inl z ↦
      let k : 0 ≡ key = ground arith in
      let same : reader ≡ s = ground arith in
      subst (λ (t : Source toy). (t.key ≡ key) × Covered toy t poller) same (k, reader-Covered)
  | inr z ↦ absurd (ground arith)
]
