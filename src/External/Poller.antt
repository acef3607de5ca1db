-- ===== src/External/Poller.antt =====
-- The `polling` crate in its default one-shot mode, as `src/reactor.rs` uses it. The state of the
-- poller includes all that decides what the operating system reports.
use async_io.Base.{
  ℕ, ◌≡◌, ◌≢◌, ◌⊎◌, Bool, false, List, Option, none, some, ErrorKind, IoResult, ok, err, In, map,
}

-- `polling::Event`.
pub record Event : Type 0 where
  pub key : ℕ
  pub readable : Bool
  pub writable : Bool

-- `Event::none(key)`.
abbrev pub no_event : ℕ → Event
no_event key = record { key = key; readable = false; writable = false }

pub record PollerCrate : Type 1 where
  pub Poller : Type 0
  pub add : Poller → ℕ → Event → Poller × IoResult (Unit {0})
  pub modify : Poller → ℕ → Event → Poller × IoResult (Unit {0})
  pub delete : Poller → ℕ → Poller × IoResult (Unit {0})
  pub notify : Poller → Poller
  -- The timeout is in nanoseconds, and `none` waits for as long as it takes.
  pub wait : Poller → Option ℕ → Poller × IoResult (List Event)
  -- The interest that a registered descriptor has now.
  pub interest : Poller → ℕ → Option Event
  -- A descriptor is added once, and a failing `add` changes no registration.
  pub add_ok :
      (p : Poller) (raw : ℕ) (ev : Event)
      → (add p raw ev).1 ≡ ok tt
      → (interest p raw ≡ none) × (interest (add p raw ev).0 raw ≡ some ev)
  pub add_err :
      (p : Poller) (raw : ℕ) (ev : Event) (e : ErrorKind)
      → (add p raw ev).1 ≡ err e
      → interest (add p raw ev).0 raw ≡ interest p raw
  pub add_ne :
      (p : Poller) (raw : ℕ) (ev : Event) (fd : ℕ)
      → raw ≢ fd
      → interest (add p raw ev).0 fd ≡ interest p fd
  pub modify_ok :
      (p : Poller) (raw : ℕ) (ev : Event)
      → (modify p raw ev).1 ≡ ok tt
      → interest (modify p raw ev).0 raw ≡ some ev
  -- A descriptor that is registered stays registered when its modification fails, under its old key
  -- or the new one.
  pub modify_err :
      (p : Poller) (raw : ℕ) (ev : Event) (e : ErrorKind) (old : Event)
      → interest p raw ≡ some old
      → (modify p raw ev).1 ≡ err e
      → (now : Event) × (interest (modify p raw ev).0 raw ≡ some now)
        × ((now.key ≡ old.key) ⊎ (now.key ≡ ev.key))
  pub modify_ne :
      (p : Poller) (raw : ℕ) (ev : Event) (fd : ℕ)
      → raw ≢ fd
      → interest (modify p raw ev).0 fd ≡ interest p fd
  pub delete_ne :
      (p : Poller) (raw fd : ℕ) → raw ≢ fd → interest (delete p raw).0 fd ≡ interest p fd
  pub interest-notify : (p : Poller) (fd : ℕ) → interest (notify p) fd ≡ interest p fd
  -- A delivered event ends the interest of its descriptor, and other interests stay.
  pub wait_ok :
      (p : Poller) (timeout : Option ℕ) (evs : List Event) (fd : ℕ)
      → (wait p timeout).1 ≡ ok evs
      → (interest (wait p timeout).0 fd ≡ interest p fd)
        ⊎ ((e : Event) × (interest p fd ≡ some e)
            × In e.key (map (λ ev. ev.key) evs)
            × (interest (wait p timeout).0 fd ≡ some (no_event e.key)))
  pub wait_err :
      (p : Poller) (timeout : Option ℕ) (e : ErrorKind) (fd : ℕ)
      → (wait p timeout).1 ≡ err e
      → interest (wait p timeout).0 fd ≡ interest p fd
