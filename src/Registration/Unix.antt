-- ===== src/Registration/Unix.antt =====
-- `src/reactor/unix.rs`: the registration of a raw file descriptor.
use native.Mathlib.Decide.{ℕ_discrete}
use async_io.Base.{◌⊎◌, ℕ, ◌≡◌, ◌≢◌, refl, ap, true, none, some, ErrorKind, IoResult, ok, err}
use async_io.External.Poller.{Event, no_event, PollerCrate}
use async_io.Registration.{Registrar}

pub record Registration : Type 0 where
  pub raw : ℕ

module _ (P : PollerCrate) where
  unfoldable pub add : Registration → P.Poller → ℕ → P.Poller × IoResult (Unit {0})
  add reg p token = P.add p reg.raw (no_event token)

  unfoldable pub modify : Registration → P.Poller → Event → P.Poller × IoResult (Unit {0})
  modify reg p interest = P.modify p reg.raw interest

  unfoldable pub delete : Registration → P.Poller → P.Poller × IoResult (Unit {0})
  delete reg p = P.delete p reg.raw

  apart : (reg other : Registration) → reg ≢ other → reg.raw ≢ other.raw
  apart reg other ne e = ne (ap (λ raw. record { raw = raw }) e)

  pub add_ok :
      (reg : Registration) (p : P.Poller) (token : ℕ)
      → (add reg p token).1 ≡ ok tt
      → (P.interest p reg.raw ≡ none)
        × ((ev : Event) × (P.interest (add reg p token).0 reg.raw ≡ some ev) × (ev.key ≡ token))
  unfolding add
  add_ok reg p token e =
      let (unused, added) = P.add_ok p reg.raw (no_event token) e in
      (unused, (no_event token, added, refl))

  pub add_err :
      (reg : Registration) (p : P.Poller) (token : ℕ) (e : ErrorKind) (other : Registration)
      → (add reg p token).1 ≡ err e
      → P.interest (add reg p token).0 other.raw ≡ P.interest p other.raw
  unfolding add
  add_err reg p token e other failed = elim (ℕ_discrete reg.raw other.raw) [
    | yes z ↦ rw (← z) (P.add_err p reg.raw (no_event token) e failed)
    | no ne ↦ P.add_ne p reg.raw (no_event token) other.raw ne
  ]

  pub add_ne :
      (reg : Registration) (p : P.Poller) (token : ℕ) (other : Registration)
      → reg ≢ other
      → P.interest (add reg p token).0 other.raw ≡ P.interest p other.raw
  unfolding add
  add_ne reg p token other ne = P.add_ne p reg.raw (no_event token) other.raw (apart reg other ne)

  pub modify_ok :
      (reg : Registration) (p : P.Poller) (ev : Event)
      → (modify reg p ev).1 ≡ ok tt
      → (now : Event) × (P.interest (modify reg p ev).0 reg.raw ≡ some now)
        × (now.key ≡ ev.key)
        × (ev.readable ≡ true → now.readable ≡ true)
        × (true ≡ true → ev.writable ≡ true → now.writable ≡ true)
  unfolding modify
  modify_ok reg p ev e = (ev, P.modify_ok p reg.raw ev e, refl, λ h. h, λ _ h. h)

  pub modify_err :
      (reg : Registration) (p : P.Poller) (ev : Event) (e : ErrorKind) (old : Event)
      → P.interest p reg.raw ≡ some old
      → (modify reg p ev).1 ≡ err e
      → (now : Event) × (P.interest (modify reg p ev).0 reg.raw ≡ some now)
        × ((now.key ≡ old.key) ⊎ (now.key ≡ ev.key))
  unfolding modify
  modify_err reg p ev e old was failed = P.modify_err p reg.raw ev e old was failed

  pub modify_ne :
      (reg : Registration) (p : P.Poller) (ev : Event) (other : Registration)
      → reg ≢ other
      → P.interest (modify reg p ev).0 other.raw ≡ P.interest p other.raw
  unfolding modify
  modify_ne reg p ev other ne = P.modify_ne p reg.raw ev other.raw (apart reg other ne)

  pub delete_ne :
      (reg : Registration) (p : P.Poller) (other : Registration)
      → reg ≢ other
      → P.interest (delete reg p).0 other.raw ≡ P.interest p other.raw
  unfolding delete
  delete_ne reg p other ne = P.delete_ne p reg.raw other.raw (apart reg other ne)

  abbrev pub registrar : Registrar
  registrar = record {
    Poller = P.Poller;
    Registration = Registration;
    add = add;
    modify = modify;
    delete = delete;
    notify = P.notify;
    wait = P.wait;
    interest = λ p reg. P.interest p reg.raw;
    can_write = λ reg. true;
    add_ok = add_ok;
    add_err = add_err;
    add_ne = add_ne;
    modify_ok = modify_ok;
    modify_err = modify_err;
    modify_ne = modify_ne;
    delete_ne = delete_ne;
    interest-notify = λ p reg. P.interest-notify p reg.raw;
    wait_ok = λ p timeout evs reg e. P.wait_ok p timeout evs reg.raw e;
    wait_err = λ p timeout e reg h. P.wait_err p timeout e reg.raw h;
  }
