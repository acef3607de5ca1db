-- ===== src/Registration/Kqueue.antt =====
-- `src/reactor/kqueue.rs`: the registration of a descriptor, a signal or a process, in the one-shot
-- mode.
use async_io.Base.{
  ◌⊎◌, ℕ, ◌≡◌, ◌≢◌, ◌∙◌, refl, ap, sym, Bool, true, false, none, some, ErrorKind, IoResult, ok, err,
}
use async_io.External.Poller.{Event, no_event}
use async_io.External.Kqueue.{poll_signal, poll_exit, Kevent, of_fd, of_filter, KqueueCrate}
use async_io.Registration.{Registrar}

-- A raw descriptor, a signal's number, or the ID of a process that is to end.
pub data Registration : Type 0 where
  fd signal process : ℕ → Registration

-- The object in the poller.
abbrev pub object : Registration → Kevent
object (fd raw) = of_fd raw
object (signal n) = of_filter (poll_signal n)
object (process pid) = of_filter (poll_exit pid)

abbrev back : Kevent → Registration
back (of_fd raw) = fd raw
back (of_filter (poll_signal n)) = signal n
back (of_filter (poll_exit pid)) = process pid

back-object : (reg : Registration) → back (object reg) ≡ reg
back-object (fd raw) = refl
back-object (signal n) = refl
back-object (process pid) = refl

apart : (reg other : Registration) → reg ≢ other → object reg ≢ object other
apart reg other ne e = ne (sym (back-object reg) ∙ ap back e ∙ back-object other)

abbrev pub can_write : Registration → Bool
can_write (fd raw) = true
can_write (signal n) = false
can_write (process pid) = false

module _ (P : KqueueCrate) where
  unfoldable pub add : Registration → P.Poller → ℕ → P.Poller × IoResult (Unit {0})
  add (fd raw) p token = P.add p raw (no_event token)
  add (signal n) p token = P.add_filter p (poll_signal n) token
  add (process pid) p token = P.add_filter p (poll_exit pid) token

  unfoldable pub modify : Registration → P.Poller → Event → P.Poller × IoResult (Unit {0})
  modify (fd raw) p interest = P.modify p raw interest
  modify (signal n) p interest = P.modify_filter p (poll_signal n) interest.key
  modify (process pid) p interest = P.modify_filter p (poll_exit pid) interest.key

  unfoldable pub delete : Registration → P.Poller → P.Poller × IoResult (Unit {0})
  delete (fd raw) p = P.delete p raw
  delete (signal n) p = P.delete_filter p (poll_signal n)
  delete (process pid) p = P.delete_filter p (poll_exit pid)

  pub add_ok :
      (reg : Registration) (p : P.Poller) (token : ℕ)
      → (add reg p token).1 ≡ ok tt
      → (P.interest p (object reg) ≡ none)
        × ((ev : Event) × (P.interest (add reg p token).0 (object reg) ≡ some ev)
            × (ev.key ≡ token))
  unfolding add
  add_ok (fd raw) p token e =
      let (unused, added) = P.add_ok p raw (no_event token) e in
      (unused, (no_event token, added, refl))
  add_ok (signal n) p token e = P.add_filter_ok p (poll_signal n) token e
  add_ok (process pid) p token e = P.add_filter_ok p (poll_exit pid) token e

  pub add_err :
      (reg : Registration) (p : P.Poller) (token : ℕ) (e : ErrorKind) (other : Registration)
      → (add reg p token).1 ≡ err e
      → P.interest (add reg p token).0 (object other) ≡ P.interest p (object other)
  unfolding add
  add_err (fd raw) p token e other failed = P.add_err p raw (no_event token) e (object other) failed
  add_err (signal n) p token e other failed =
      P.add_filter_err p (poll_signal n) token e (object other) failed
  add_err (process pid) p token e other failed =
      P.add_filter_err p (poll_exit pid) token e (object other) failed

  pub add_ne :
      (reg : Registration) (p : P.Poller) (token : ℕ) (other : Registration)
      → reg ≢ other
      → P.interest (add reg p token).0 (object other) ≡ P.interest p (object other)
  unfolding add
  add_ne (fd raw) p token other ne =
      P.add_ne p raw (no_event token) (object other) (apart (fd raw) other ne)
  add_ne (signal n) p token other ne =
      P.add_filter_ne p (poll_signal n) token (object other) (apart (signal n) other ne)
  add_ne (process pid) p token other ne =
      P.add_filter_ne p (poll_exit pid) token (object other) (apart (process pid) other ne)

  pub modify_ok :
      (reg : Registration) (p : P.Poller) (ev : Event)
      → (modify reg p ev).1 ≡ ok tt
      → (now : Event) × (P.interest (modify reg p ev).0 (object reg) ≡ some now)
        × (now.key ≡ ev.key)
        × (ev.readable ≡ true → now.readable ≡ true)
        × (can_write reg ≡ true → ev.writable ≡ true → now.writable ≡ true)
  unfolding modify
  modify_ok (fd raw) p ev e = (ev, P.modify_ok p raw ev e, refl, λ h. h, λ _ h. h)
  modify_ok (signal n) p ev e =
      let (now, at, key, read) = P.modify_filter_ok p (poll_signal n) ev.key e in
      (now, at, key, λ _. read, λ no. cc)
  modify_ok (process pid) p ev e =
      let (now, at, key, read) = P.modify_filter_ok p (poll_exit pid) ev.key e in
      (now, at, key, λ _. read, λ no. cc)

  pub modify_err :
      (reg : Registration) (p : P.Poller) (ev : Event) (e : ErrorKind) (old : Event)
      → P.interest p (object reg) ≡ some old
      → (modify reg p ev).1 ≡ err e
      → (now : Event) × (P.interest (modify reg p ev).0 (object reg) ≡ some now)
        × ((now.key ≡ old.key) ⊎ (now.key ≡ ev.key))
  unfolding modify
  modify_err (fd raw) p ev e old was failed = P.modify_err p raw ev e old was failed
  modify_err (signal n) p ev e old was failed =
      P.modify_filter_err p (poll_signal n) ev.key e old was failed
  modify_err (process pid) p ev e old was failed =
      P.modify_filter_err p (poll_exit pid) ev.key e old was failed

  pub modify_ne :
      (reg : Registration) (p : P.Poller) (ev : Event) (other : Registration)
      → reg ≢ other
      → P.interest (modify reg p ev).0 (object other) ≡ P.interest p (object other)
  unfolding modify
  modify_ne (fd raw) p ev other ne = P.modify_ne p raw ev (object other) (apart (fd raw) other ne)
  modify_ne (signal n) p ev other ne =
      P.modify_filter_ne p (poll_signal n) ev.key (object other) (apart (signal n) other ne)
  modify_ne (process pid) p ev other ne =
      P.modify_filter_ne p (poll_exit pid) ev.key (object other) (apart (process pid) other ne)

  pub delete_ne :
      (reg : Registration) (p : P.Poller) (other : Registration)
      → reg ≢ other
      → P.interest (delete reg p).0 (object other) ≡ P.interest p (object other)
  unfolding delete
  delete_ne (fd raw) p other ne = P.delete_ne p raw (object other) (apart (fd raw) other ne)
  delete_ne (signal n) p other ne =
      P.delete_filter_ne p (poll_signal n) (object other) (apart (signal n) other ne)
  delete_ne (process pid) p other ne =
      P.delete_filter_ne p (poll_exit pid) (object other) (apart (process pid) other ne)

  abbrev pub registrar : Registrar
  registrar = record {
    Poller = P.Poller;
    Registration = Registration;
    add = add;
    modify = modify;
    delete = delete;
    notify = P.notify;
    wait = P.wait;
    interest = λ p reg. P.interest p (object reg);
    can_write = can_write;
    add_ok = add_ok;
    add_err = add_err;
    add_ne = add_ne;
    modify_ok = modify_ok;
    modify_err = modify_err;
    modify_ne = modify_ne;
    delete_ne = delete_ne;
    interest-notify = λ p reg. P.interest-notify p (object reg);
    wait_ok = λ p timeout evs reg e. P.wait_ok p timeout evs (object reg) e;
    wait_err = λ p timeout e reg h. P.wait_err p timeout e (object reg) h;
  }
