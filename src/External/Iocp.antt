-- ===== src/External/Iocp.antt =====
-- The `polling` crate on Windows, as `src/reactor/windows.rs` uses it: sockets, and the waitable
-- handles of `PollerIocpExt` in the one-shot mode.
use async_io.Base.{
  ℕ, ◌≡◌, ◌≢◌, ◌⊎◌, List, Option, none, some, ErrorKind, IoResult, ok, err, In, map,
}
use async_io.External.Poller.{Event, no_event}

-- What the completion port tells objects apart by.
pub data PortObject : Type 0 where
  of_socket of_handle : ℕ → PortObject

pub record IocpCrate : Type 1 where
  pub Poller : Type 0
  pub add : Poller → ℕ → Event → Poller × IoResult (Unit {0})
  pub modify : Poller → ℕ → Event → Poller × IoResult (Unit {0})
  pub delete : Poller → ℕ → Poller × IoResult (Unit {0})
  -- `add_waitable`, `modify_waitable` and `remove_waitable`.
  pub add_waitable : Poller → ℕ → Event → Poller × IoResult (Unit {0})
  pub modify_waitable : Poller → ℕ → Event → Poller × IoResult (Unit {0})
  pub remove_waitable : Poller → ℕ → Poller × IoResult (Unit {0})
  pub notify : Poller → Poller
  pub wait : Poller → Option ℕ → Poller × IoResult (List Event)
  pub interest : Poller → PortObject → Option Event
  -- An object is added once, and a failing `add` changes no registration.
  pub add_ok :
      (p : Poller) (x : ℕ) (ev : Event)
      → (add p x ev).1 ≡ ok tt
      → (interest p (of_socket x) ≡ none) × (interest (add p x ev).0 (of_socket x) ≡ some ev)
  pub add_err :
      (p : Poller) (x : ℕ) (ev : Event) (e : ErrorKind) (other : PortObject)
      → (add p x ev).1 ≡ err e
      → interest (add p x ev).0 other ≡ interest p other
  pub add_ne :
      (p : Poller) (x : ℕ) (ev : Event) (other : PortObject)
      → of_socket x ≢ other
      → interest (add p x ev).0 other ≡ interest p other
  pub modify_ok :
      (p : Poller) (x : ℕ) (ev : Event)
      → (modify p x ev).1 ≡ ok tt
      → interest (modify p x ev).0 (of_socket x) ≡ some ev
  -- An object that is registered stays registered when its modification fails, under its old key
  -- or the new one.
  pub modify_err :
      (p : Poller) (x : ℕ) (ev : Event) (e : ErrorKind) (old : Event)
      → interest p (of_socket x) ≡ some old
      → (modify p x ev).1 ≡ err e
      → (now : Event) × (interest (modify p x ev).0 (of_socket x) ≡ some now)
        × ((now.key ≡ old.key) ⊎ (now.key ≡ ev.key))
  pub modify_ne :
      (p : Poller) (x : ℕ) (ev : Event) (other : PortObject)
      → of_socket x ≢ other
      → interest (modify p x ev).0 other ≡ interest p other
  pub delete_ne :
      (p : Poller) (x : ℕ) (other : PortObject)
      → of_socket x ≢ other
      → interest (delete p x).0 other ≡ interest p other
  -- An object is added once, and a failing `add_waitable` changes no registration.
  pub add_waitable_ok :
      (p : Poller) (x : ℕ) (ev : Event)
      → (add_waitable p x ev).1 ≡ ok tt
      → (interest p (of_handle x) ≡ none)
        × (interest (add_waitable p x ev).0 (of_handle x) ≡ some ev)
  pub add_waitable_err :
      (p : Poller) (x : ℕ) (ev : Event) (e : ErrorKind) (other : PortObject)
      → (add_waitable p x ev).1 ≡ err e
      → interest (add_waitable p x ev).0 other ≡ interest p other
  pub add_waitable_ne :
      (p : Poller) (x : ℕ) (ev : Event) (other : PortObject)
      → of_handle x ≢ other
      → interest (add_waitable p x ev).0 other ≡ interest p other
  pub modify_waitable_ok :
      (p : Poller) (x : ℕ) (ev : Event)
      → (modify_waitable p x ev).1 ≡ ok tt
      → interest (modify_waitable p x ev).0 (of_handle x) ≡ some ev
  pub modify_waitable_err :
      (p : Poller) (x : ℕ) (ev : Event) (e : ErrorKind) (old : Event)
      → interest p (of_handle x) ≡ some old
      → (modify_waitable p x ev).1 ≡ err e
      → (now : Event) × (interest (modify_waitable p x ev).0 (of_handle x) ≡ some now)
        × ((now.key ≡ old.key) ⊎ (now.key ≡ ev.key))
  pub modify_waitable_ne :
      (p : Poller) (x : ℕ) (ev : Event) (other : PortObject)
      → of_handle x ≢ other
      → interest (modify_waitable p x ev).0 other ≡ interest p other
  pub remove_waitable_ne :
      (p : Poller) (x : ℕ) (other : PortObject)
      → of_handle x ≢ other
      → interest (remove_waitable p x).0 other ≡ interest p other
  pub interest-notify : (p : Poller) (x : PortObject) → interest (notify p) x ≡ interest p x
  -- A delivered event ends the interest of its object, and other interests stay.
  pub wait_ok :
      (p : Poller) (timeout : Option ℕ) (evs : List Event) (x : PortObject)
      → (wait p timeout).1 ≡ ok evs
      → (interest (wait p timeout).0 x ≡ interest p x)
        ⊎ ((e : Event) × (interest p x ≡ some e)
            × In e.key (map (λ ev. ev.key) evs)
            × (interest (wait p timeout).0 x ≡ some (no_event e.key)))
  pub wait_err :
      (p : Poller) (timeout : Option ℕ) (e : ErrorKind) (x : PortObject)
      → (wait p timeout).1 ≡ err e
      → interest (wait p timeout).0 x ≡ interest p x
