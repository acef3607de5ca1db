-- ===== src/Registration/Windows.antt =====
-- `src/reactor/windows.rs`: the registration of a socket or a waitable handle, in the one-shot mode.
use async_io.Base.{
  ◌⊎◌, ℕ, ◌≡◌, ◌≢◌, ◌∙◌, refl, ap, sym, Bool, true, none, some, ErrorKind, IoResult, ok, err,
}
use async_io.External.Poller.{Event, no_event}
use async_io.External.Iocp.{PortObject, of_socket, of_handle, IocpCrate}
use async_io.Registration.{Registrar}

pub data Registration : Type 0 where
  socket handle : ℕ → Registration

-- The object in the poller.
abbrev pub object : Registration → PortObject
object (socket raw) = of_socket raw
object (handle h) = of_handle h

abbrev back : PortObject → Registration
back (of_socket raw) = socket raw
back (of_handle h) = handle h

back-object : (reg : Registration) → back (object reg) ≡ reg
back-object (socket raw) = refl
back-object (handle h) = refl

apart : (reg other : Registration) → reg ≢ other → object reg ≢ object other
apart reg other ne e = ne (sym (back-object reg) ∙ ap back e ∙ back-object other)

abbrev pub can_write : Registration → Bool
can_write (socket raw) = true
can_write (handle h) = true

module _ (P : IocpCrate) where
  unfoldable pub add : Registration → P.Poller → ℕ → P.Poller × IoResult (Unit {0})
  add (socket raw) p token = P.add p raw (no_event token)
  add (handle h) p token = P.add_waitable p h (no_event token)

  unfoldable pub modify : Registration → P.Poller → Event → P.Poller × IoResult (Unit {0})
  modify (socket raw) p interest = P.modify p raw interest
  modify (handle h) p interest = P.modify_waitable p h interest

  unfoldable pub delete : Registration → P.Poller → P.Poller × IoResult (Unit {0})
  delete (socket raw) p = P.delete p raw
  delete (handle h) p = P.remove_waitable p h

  pub add_ok :
      (reg : Registration) (p : P.Poller) (token : ℕ)
      → (add reg p token).1 ≡ ok tt
      → (P.interest p (object reg) ≡ none)
        × ((ev : Event) × (P.interest (add reg p token).0 (object reg) ≡ some ev)
            × (ev.key ≡ token))
  unfolding add
  add_ok (socket raw) p token e =
      let (unused, added) = P.add_ok p raw (no_event token) e in
      (unused, (no_event token, added, refl))
  add_ok (handle h) p token e =
      let (unused, added) = P.add_waitable_ok p h (no_event token) e in
      (unused, (no_event token, added, refl))

  pub add_err :
      (reg : Registration) (p : P.Poller) (token : ℕ) (e : ErrorKind) (other : Registration)
      → (add reg p token).1 ≡ err e
      → P.interest (add reg p token).0 (object other) ≡ P.interest p (object other)
  unfolding add
  add_err (socket raw) p token e other failed =
      P.add_err p raw (no_event token) e (object other) failed
  add_err (handle h) p token e other failed =
      P.add_waitable_err p h (no_event token) e (object other) failed

  pub add_ne :
      (reg : Registration) (p : P.Poller) (token : ℕ) (other : Registration)
      → reg ≢ other
      → P.interest (add reg p token).0 (object other) ≡ P.interest p (object other)
  unfolding add
  add_ne (socket raw) p token other ne =
      P.add_ne p raw (no_event token) (object other) (apart (socket raw) other ne)
  add_ne (handle h) p token other ne =
      P.add_waitable_ne p h (no_event token) (object other) (apart (handle h) other ne)

  pub modify_ok :
      (reg : Registration) (p : P.Poller) (ev : Event)
      → (modify reg p ev).1 ≡ ok tt
      → (now : Event) × (P.interest (modify reg p ev).0 (object reg) ≡ some now)
        × (now.key ≡ ev.key)
        × (ev.readable ≡ true → now.readable ≡ true)
        × (can_write reg ≡ true → ev.writable ≡ true → now.writable ≡ true)
  unfolding modify
  modify_ok (socket raw) p ev e = (ev, P.modify_ok p raw ev e, refl, λ h. h, λ _ h. h)
  modify_ok (handle h) p ev e = (ev, P.modify_waitable_ok p h ev e, refl, λ h. h, λ _ h. h)

  pub modify_err :
      (reg : Registration) (p : P.Poller) (ev : Event) (e : ErrorKind) (old : Event)
      → P.interest p (object reg) ≡ some old
      → (modify reg p ev).1 ≡ err e
      → (now : Event) × (P.interest (modify reg p ev).0 (object reg) ≡ some now)
        × ((now.key ≡ old.key) ⊎ (now.key ≡ ev.key))
  unfolding modify
  modify_err (socket raw) p ev e old was failed = P.modify_err p raw ev e old was failed
  modify_err (handle h) p ev e old was failed = P.modify_waitable_err p h ev e old was failed

  pub modify_ne :
      (reg : Registration) (p : P.Poller) (ev : Event) (other : Registration)
      → reg ≢ other
      → P.interest (modify reg p ev).0 (object other) ≡ P.interest p (object other)
  unfolding modify
  modify_ne (socket raw) p ev other ne =
      P.modify_ne p raw ev (object other) (apart (socket raw) other ne)
  modify_ne (handle h) p ev other ne =
      P.modify_waitable_ne p h ev (object other) (apart (handle h) other ne)

  pub delete_ne :
      (reg : Registration) (p : P.Poller) (other : Registration)
      → reg ≢ other
      → P.interest (delete reg p).0 (object other) ≡ P.interest p (object other)
  unfolding delete
  delete_ne (socket raw) p other ne = P.delete_ne p raw (object other) (apart (socket raw) other ne)
  delete_ne (handle h) p other ne =
      P.remove_waitable_ne p h (object other) (apart (handle h) other ne)

  abbrev pub registrar : Registrar
  registrar = record {
    Poller = P.Poller;
    Registration = Registration;
    add = add;
    modify = modify;
    delete = delete;
    notify = P.notify;
    wait = P.wait;
    interest = λ p reg. P.interest p (object reg);
    can_write = can_write;
    add_ok = add_ok;
    add_err = add_err;
    add_ne = add_ne;
    modify_ok = modify_ok;
    modify_err = modify_err;
    modify_ne = modify_ne;
    delete_ne = delete_ne;
    interest-notify = λ p reg. P.interest-notify p (object reg);
    wait_ok = λ p timeout evs reg e. P.wait_ok p timeout evs (object reg) e;
    wait_err = λ p timeout e reg h. P.wait_err p timeout e (object reg) h;
  }
