-- ===== src/Registration.antt =====
-- `src/reactor.rs` uses the `Registration` of one platform: `src/reactor/unix.rs`,
-- `src/reactor/kqueue.rs` or `src/reactor/windows.rs`. What it relies on is an interface, and each
-- platform's registration fills it, over its part of the `polling` crate.
pub mod Unix
pub mod Kqueue
pub mod Windows
use async_io.Base.{
  ℕ, ◌≡◌, ◌≢◌, ◌⊎◌, Bool, true, List, Option, none, some, ErrorKind, IoResult, ok, err, In, map,
}
use async_io.External.Poller.{Event, no_event}

pub record Registrar : Type 1 where
  pub Poller : Type 0
  pub Registration : Type 0
  -- `Registration::add`, `modify` and `delete`.
  pub add : Registration → Poller → ℕ → Poller × IoResult (Unit {0})
  pub modify : Registration → Poller → Event → Poller × IoResult (Unit {0})
  pub delete : Registration → Poller → Poller × IoResult (Unit {0})
  -- `Poller::notify` and `Poller::wait`.
  pub notify : Poller → Poller
  pub wait : Poller → Option ℕ → Poller × IoResult (List Event)
  -- The interest that a registered object has now.
  pub interest : Poller → Registration → Option Event
  -- Whether the object can become writable at all.
  pub can_write : Registration → Bool
  pub add_ok :
      (reg : Registration) (p : Poller) (token : ℕ)
      → (add reg p token).1 ≡ ok tt
      → (interest p reg ≡ none)
        × ((ev : Event) × (interest (add reg p token).0 reg ≡ some ev) × (ev.key ≡ token))
  pub add_err :
      (reg : Registration) (p : Poller) (token : ℕ) (e : ErrorKind) (other : Registration)
      → (add reg p token).1 ≡ err e
      → interest (add reg p token).0 other ≡ interest p other
  pub add_ne :
      (reg : Registration) (p : Poller) (token : ℕ) (other : Registration)
      → reg ≢ other
      → interest (add reg p token).0 other ≡ interest p other
  -- The new interest has the key and at least the directions asked for, so far as the object has
  -- them.
  pub modify_ok :
      (reg : Registration) (p : Poller) (ev : Event)
      → (modify reg p ev).1 ≡ ok tt
      → (now : Event) × (interest (modify reg p ev).0 reg ≡ some now)
        × (now.key ≡ ev.key)
        × (ev.readable ≡ true → now.readable ≡ true)
        × (can_write reg ≡ true → ev.writable ≡ true → now.writable ≡ true)
  -- An object that is registered stays registered when its modification fails, under its old key
  -- or the new one.
  pub modify_err :
      (reg : Registration) (p : Poller) (ev : Event) (e : ErrorKind) (old : Event)
      → interest p reg ≡ some old
      → (modify reg p ev).1 ≡ err e
      → (now : Event) × (interest (modify reg p ev).0 reg ≡ some now)
        × ((now.key ≡ old.key) ⊎ (now.key ≡ ev.key))
  pub modify_ne :
      (reg : Registration) (p : Poller) (ev : Event) (other : Registration)
      → reg ≢ other
      → interest (modify reg p ev).0 other ≡ interest p other
  pub delete_ne :
      (reg : Registration) (p : Poller) (other : Registration)
      → reg ≢ other
      → interest (delete reg p).0 other ≡ interest p other
  pub interest-notify : (p : Poller) (reg : Registration) → interest (notify p) reg ≡ interest p reg
  -- A delivered event ends the interest of its object, and other interests stay.
  pub wait_ok :
      (p : Poller) (timeout : Option ℕ) (evs : List Event) (reg : Registration)
      → (wait p timeout).1 ≡ ok evs
      → (interest (wait p timeout).0 reg ≡ interest p reg)
        ⊎ ((e : Event) × (interest p reg ≡ some e)
            × In e.key (map (λ ev. ev.key) evs)
            × (interest (wait p timeout).0 reg ≡ some (no_event e.key)))
  pub wait_err :
      (p : Poller) (timeout : Option ℕ) (e : ErrorKind) (reg : Registration)
      → (wait p timeout).1 ≡ err e
      → interest (wait p timeout).0 reg ≡ interest p reg
