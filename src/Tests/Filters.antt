-- ===== src/Tests/Filters.antt =====
-- A scripted poller with filters, and a signal over it.
use async_io.Base.{
  ℕ, ◌+◌, ◌*◌, ◌≡◌, ◌≢◌, refl, ap, none, some, true, false, [], ErrorKind, err, arith,
}
use async_io.External.Poller.{Event}
use async_io.External.Kqueue.{poll_signal, poll_exit, Kevent, of_fd, of_filter, KqueueCrate}
use async_io.Registration.Kqueue
use async_io.Reactor.{Reactor, default_direction}
use async_io.Reactor.Io.{insert_io}
use async_io.Reactor.Io.Covered.{AllCovered}
use async_io.Async.Unwrap.{Unwraps}
use async_io.Os.Kqueue.{
  Signal, signal_queueable, kqueue, Filter, made_filter, new_filter, unwrap_filter,
}
use async_io.Os.Kqueue.Laws.{unwrap_filter_lem, PollWatches, poll_filter-watched}
use async_io.Tests.Crates.{list_queue}
use async_io.Tests.Slabs.{slot_slab}
use async_io.Tests.Polls.{
  Scripted, add, add_ok, add_ne, modify, modify_ok, modify_err, modify_ne, delete, delete_ne,
  wait_from, wait_from_ok, wait_from_err,
}

-- Objects as numbers.
abbrev code : Kevent → ℕ
code (of_fd n) = 3 * n
code (of_filter (poll_signal n)) = 3 * n + 1
code (of_filter (poll_exit n)) = 3 * n + 2

code_injective : (x y : Kevent) → code x ≡ code y → x ≡ y
code_injective (of_fd a) (of_fd b) e = let z : a ≡ b = omega arith in ap of_fd z
code_injective (of_fd a) (of_filter (poll_signal b)) e = absurd (omega arith)
code_injective (of_fd a) (of_filter (poll_exit b)) e = absurd (omega arith)
code_injective (of_filter (poll_signal a)) (of_fd b) e = absurd (omega arith)
code_injective (of_filter (poll_signal a)) (of_filter (poll_signal b)) e =
    let z : a ≡ b = omega arith in ap (λ n. of_filter (poll_signal n)) z
code_injective (of_filter (poll_signal a)) (of_filter (poll_exit b)) e = absurd (omega arith)
code_injective (of_filter (poll_exit a)) (of_fd b) e = absurd (omega arith)
code_injective (of_filter (poll_exit a)) (of_filter (poll_signal b)) e = absurd (omega arith)
code_injective (of_filter (poll_exit a)) (of_filter (poll_exit b)) e =
    let z : a ≡ b = omega arith in ap (λ n. of_filter (poll_exit n)) z

apart : (x y : Kevent) → x ≢ y → code x ≢ code y
apart x y ne e = ne (code_injective x y e)

abbrev filter_event : ℕ → Event
filter_event key = record { key = key; readable = true; writable = false }

add_fails :
    (p : Scripted) (raw : ℕ) (ev : Event) (e : ErrorKind) (i : ℕ)
    → (add p raw ev).1 ≡ err e
    → (add p raw ev).0.interest i ≡ p.interest i
add_fails p raw ev e i h = ground arith

abbrev scripted_kqueue : KqueueCrate
scripted_kqueue = record {
  Poller = Scripted;
  add = λ p n ev. add p (code (of_fd n)) ev;
  modify = λ p n ev. modify p (code (of_fd n)) ev;
  delete = λ p n. delete p (code (of_fd n));
  add_filter = λ p x key. add p (code (of_filter x)) (filter_event key);
  modify_filter = λ p x key. modify p (code (of_filter x)) (filter_event key);
  delete_filter = λ p x. delete p (code (of_filter x));
  notify = λ p. p;
  wait = λ p timeout. wait_from p.script p;
  interest = λ p x. p.interest (code x);
  add_ok = λ p n ev. add_ok p (code (of_fd n)) ev;
  add_err = λ p n ev e other. add_fails p (code (of_fd n)) ev e (code other);
  add_ne = λ p n ev other ne. add_ne p (code (of_fd n)) ev (code other) (apart (of_fd n) other ne);
  modify_ok = λ p n ev. modify_ok p (code (of_fd n)) ev;
  modify_err = λ p n ev. modify_err p (code (of_fd n)) ev;
  modify_ne =
      λ p n ev other ne. modify_ne p (code (of_fd n)) ev (code other) (apart (of_fd n) other ne);
  delete_ne = λ p n other ne. delete_ne p (code (of_fd n)) (code other) (apart (of_fd n) other ne);
  add_filter_ok = λ p x key h.
      let (unused, added) = add_ok p (code (of_filter x)) (filter_event key) h in
      (unused, (filter_event key, added, refl));
  add_filter_err =
      λ p x key e other. add_fails p (code (of_filter x)) (filter_event key) e (code other);
  add_filter_ne = λ p x key other ne.
      add_ne p (code (of_filter x)) (filter_event key) (code other) (apart (of_filter x) other ne);
  modify_filter_ok = λ p x key h.
      (filter_event key, modify_ok p (code (of_filter x)) (filter_event key) h, refl, refl);
  modify_filter_err = λ p x key. modify_err p (code (of_filter x)) (filter_event key);
  modify_filter_ne = λ p x key other ne.
      modify_ne p (code (of_filter x)) (filter_event key) (code other)
        (apart (of_filter x) other ne);
  delete_filter_ne =
      λ p x other ne. delete_ne p (code (of_filter x)) (code other) (apart (of_filter x) other ne);
  interest-notify = λ p x. refl;
  wait_ok = λ p timeout evs x h. wait_from_ok p.script p evs (code x) h;
  wait_err = λ p timeout e x h. wait_from_err p.script p e (code x) h;
}

abbrev empty_world : Reactor (kqueue list_queue slot_slab scripted_kqueue 1_000)
empty_world = record {
  poller = record { interest = λ _. none; script = [] };
  ticker = 0;
  sources = [];
  timers = [];
  timer_ops = (0, []);
  id_generator = 1;
}

empty_world-AllCovered :
    AllCovered
      (kqueue list_queue slot_slab scripted_kqueue 1_000)
      empty_world.sources
      empty_world.poller
empty_world-AllCovered key s e = absurd (ground arith)

-- SIGINT.
abbrev interrupt : Signal
interrupt = record { number = 2 }

abbrev interrupt_filter : Filter list_queue slot_slab scripted_kqueue 1_000 Signal
interrupt_filter = record { inner = record { source = 0; io = some interrupt } }

unwrap_filter_lem_example :
    Unwraps
      (kqueue list_queue slot_slab scripted_kqueue 1_000)
      Signal
      interrupt
      empty_world
      (signal_queueable.registration interrupt)
      (new_filter list_queue slot_slab scripted_kqueue 1_000 ⦃q = signal_queueable⦄ interrupt
        empty_world).1.poller
      (unwrap_filter list_queue slot_slab scripted_kqueue 1_000 interrupt_filter
        (new_filter list_queue slot_slab scripted_kqueue 1_000 ⦃q = signal_queueable⦄ interrupt
          empty_world).1)
unfolding new_filter made_filter insert_io Kqueue.add default_direction
unwrap_filter_lem_example =
    unwrap_filter_lem list_queue slot_slab scripted_kqueue 1_000 signal_queueable interrupt
      empty_world interrupt_filter refl

poll_filter-watched_example :
    PollWatches list_queue slot_slab scripted_kqueue 1_000 signal_queueable interrupt
      interrupt_filter
      (new_filter list_queue slot_slab scripted_kqueue 1_000 ⦃q = signal_queueable⦄ interrupt
        empty_world).1
      5
unfolding new_filter made_filter insert_io Kqueue.add default_direction
poll_filter-watched_example =
    poll_filter-watched list_queue slot_slab scripted_kqueue 1_000 signal_queueable interrupt
      empty_world interrupt_filter 5 refl empty_world-AllCovered
