-- ===== src/External/Kqueue.antt =====
-- The `polling` crate on a `kqueue` platform, as `src/reactor/kqueue.rs` uses it: descriptors, and
-- the filters of `PollerKqueueExt` in the one-shot mode.
use async_io.Base.{
  ℕ, ◌≡◌, ◌≢◌, ◌⊎◌, true, List, Option, none, some, ErrorKind, IoResult, ok, err, In, map,
}
use async_io.External.Poller.{Event, no_event}

-- `polling::os::kqueue::Signal`, and `Process` with `ProcessOps::Exit`. Numbers of type `i32` stand
-- by their bit patterns.
pub data PollFilter : Type 0 where
  poll_signal poll_exit : ℕ → PollFilter

-- What the kernel's queue tells objects apart by.
pub data Kevent : Type 0 where
  of_fd : ℕ → Kevent
  of_filter : PollFilter → Kevent

pub record KqueueCrate : Type 1 where
  pub Poller : Type 0
  pub add : Poller → ℕ → Event → Poller × IoResult (Unit {0})
  pub modify : Poller → ℕ → Event → Poller × IoResult (Unit {0})
  pub delete : Poller → ℕ → Poller × IoResult (Unit {0})
  -- `add_filter`, `modify_filter` and `delete_filter`, with the key of the events.
  pub add_filter : Poller → PollFilter → ℕ → Poller × IoResult (Unit {0})
  pub modify_filter : Poller → PollFilter → ℕ → Poller × IoResult (Unit {0})
  pub delete_filter : Poller → PollFilter → Poller × IoResult (Unit {0})
  pub notify : Poller → Poller
  pub wait : Poller → Option ℕ → Poller × IoResult (List Event)
  pub interest : Poller → Kevent → Option Event
  -- An object is added once, and a failing `add` changes no registration.
  pub add_ok :
      (p : Poller) (x : ℕ) (ev : Event)
      → (add p x ev).1 ≡ ok tt
      → (interest p (of_fd x) ≡ none) × (interest (add p x ev).0 (of_fd x) ≡ some ev)
  pub add_err :
      (p : Poller) (x : ℕ) (ev : Event) (e : ErrorKind) (other : Kevent)
      → (add p x ev).1 ≡ err e
      → interest (add p x ev).0 other ≡ interest p other
  pub add_ne :
      (p : Poller) (x : ℕ) (ev : Event) (other : Kevent)
      → of_fd x ≢ other
      → interest (add p x ev).0 other ≡ interest p other
  pub modify_ok :
      (p : Poller) (x : ℕ) (ev : Event)
      → (modify p x ev).1 ≡ ok tt
      → interest (modify p x ev).0 (of_fd x) ≡ some ev
  -- An object that is registered stays registered when its modification fails, under its old key
  -- or the new one.
  pub modify_err :
      (p : Poller) (x : ℕ) (ev : Event) (e : ErrorKind) (old : Event)
      → interest p (of_fd x) ≡ some old
      → (modify p x ev).1 ≡ err e
      → (now : Event) × (interest (modify p x ev).0 (of_fd x) ≡ some now)
        × ((now.key ≡ old.key) ⊎ (now.key ≡ ev.key))
  pub modify_ne :
      (p : Poller) (x : ℕ) (ev : Event) (other : Kevent)
      → of_fd x ≢ other
      → interest (modify p x ev).0 other ≡ interest p other
  pub delete_ne :
      (p : Poller) (x : ℕ) (other : Kevent)
      → of_fd x ≢ other
      → interest (delete p x).0 other ≡ interest p other
  -- So is a filter. It is active with any key, and a filter's event is a readable one.
  pub add_filter_ok :
      (p : Poller) (x : PollFilter) (key : ℕ)
      → (add_filter p x key).1 ≡ ok tt
      → (interest p (of_filter x) ≡ none)
        × ((ev : Event) × (interest (add_filter p x key).0 (of_filter x) ≡ some ev)
            × (ev.key ≡ key))
  pub add_filter_err :
      (p : Poller) (x : PollFilter) (key : ℕ) (e : ErrorKind) (other : Kevent)
      → (add_filter p x key).1 ≡ err e
      → interest (add_filter p x key).0 other ≡ interest p other
  pub add_filter_ne :
      (p : Poller) (x : PollFilter) (key : ℕ) (other : Kevent)
      → of_filter x ≢ other
      → interest (add_filter p x key).0 other ≡ interest p other
  pub modify_filter_ok :
      (p : Poller) (x : PollFilter) (key : ℕ)
      → (modify_filter p x key).1 ≡ ok tt
      → (ev : Event) × (interest (modify_filter p x key).0 (of_filter x) ≡ some ev)
        × (ev.key ≡ key)
        × (ev.readable ≡ true)
  pub modify_filter_err :
      (p : Poller) (x : PollFilter) (key : ℕ) (e : ErrorKind) (old : Event)
      → interest p (of_filter x) ≡ some old
      → (modify_filter p x key).1 ≡ err e
      → (now : Event) × (interest (modify_filter p x key).0 (of_filter x) ≡ some now)
        × ((now.key ≡ old.key) ⊎ (now.key ≡ key))
  pub modify_filter_ne :
      (p : Poller) (x : PollFilter) (key : ℕ) (other : Kevent)
      → of_filter x ≢ other
      → interest (modify_filter p x key).0 other ≡ interest p other
  pub delete_filter_ne :
      (p : Poller) (x : PollFilter) (other : Kevent)
      → of_filter x ≢ other
      → interest (delete_filter p x).0 other ≡ interest p other
  pub interest-notify : (p : Poller) (x : Kevent) → interest (notify p) x ≡ interest p x
  -- A delivered event ends the interest of its object, and other interests stay.
  pub wait_ok :
      (p : Poller) (timeout : Option ℕ) (evs : List Event) (x : Kevent)
      → (wait p timeout).1 ≡ ok evs
      → (interest (wait p timeout).0 x ≡ interest p x)
        ⊎ ((e : Event) × (interest p x ≡ some e)
            × In e.key (map (λ ev. ev.key) evs)
            × (interest (wait p timeout).0 x ≡ some (no_event e.key)))
  pub wait_err :
      (p : Poller) (timeout : Option ℕ) (e : ErrorKind) (x : Kevent)
      → (wait p timeout).1 ≡ err e
      → interest (wait p timeout).0 x ≡ interest p x
