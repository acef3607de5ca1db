-- ===== src/Tests/Nets.antt =====
-- A small operating system whose sockets are numbered in turn, and the adapters over it.
use async_io.Base.{
  ℕ, suc, ◌≡◌, refl, ap, Bool, true, false, not, ◌↔◌, none, some, inl, inr, arith, ErrorKind,
  IoResult, ok, err, other, Bool-cases, if◌then◌else◌, ◌==◌,
}
use async_io.External.Sockets.{Sockets, inprogress}
use async_io.Net.Connect.{Connects, poll_connect_lem}
use async_io.Net.Connecting.{poll_connect, starting}
use async_io.Net.Create.{check_tcp, start_tcp, v4}
use async_io.Net.Opens.{check_tcp-SameOpen, start_tcp-Created}
use async_io.Net.Pair.{Pairs, pair_lem}
use async_io.Net.Streams.{pair}
use async_io.Tests.World.{toy, world, fd}

pub record Toy : Type 0 where
  pub next : ℕ
  pub opened : ℕ → Bool
  pub nonblocking : ℕ → Bool
  pub started : Bool

abbrev free_two : Toy → Bool
free_two o = if o.opened o.next then false else (if o.opened (suc o.next) then false else true)

abbrev open_next : Toy → Toy
open_next o = record o { next = suc o.next; opened = λ i. if o.next == i then true else o.opened i }

abbrev toy_socket : Toy → Toy × IoResult ℕ
toy_socket o = if o.opened o.next then (o, err other) else (open_next o, ok o.next)

abbrev open_two : Toy → Toy
open_two o = record o {
  next = suc (suc o.next);
  opened = λ i. if o.next == i then true else (if suc o.next == i then true else o.opened i);
}

abbrev toy_pair : Toy → Toy × IoResult (ℕ × ℕ)
toy_pair o =
    if o.opened o.next
    then (o, err other)
    else (if o.opened (suc o.next) then (o, err other) else (open_two o, ok (o.next, suc o.next)))

toy_socket_ok :
    (o : Toy) (s : ℕ)
    → (toy_socket o).1 ≡ ok s
    → (o.opened s ≡ false)
      × ((i : ℕ) → (toy_socket o).0.opened i ≡ (if s == i then true else o.opened i))
toy_socket_ok o s = elim (Bool-cases (o.opened o.next)) [
  | inl e ↦ rw e (λ z. absurd (cc))
  | inr e ↦ rw e (λ z. let same : o.next ≡ s = cc in rw (← same) (e, λ i. refl))
]

toy_socket_err :
    (o : Toy) (e : ErrorKind)
    → (toy_socket o).1 ≡ err e
    → (i : ℕ) → (toy_socket o).0.opened i ≡ o.opened i
toy_socket_err o e = elim (Bool-cases (o.opened o.next)) [
  | inl f ↦ rw f (λ z i. refl)
  | inr f ↦ rw f (λ z. absurd (cc))
]

toy_pair_ok :
    (o : Toy) (s t : ℕ)
    → (toy_pair o).1 ≡ ok (s, t)
    → ((s == t) ≡ false)
      × (o.opened s ≡ false)
      × (o.opened t ≡ false)
      × ((i : ℕ)
          → (toy_pair o).0.opened i
            ≡ (if s == i then true else (if t == i then true else o.opened i)))
toy_pair_ok o s t = elim (Bool-cases (o.opened o.next)) [
  | inl e ↦ rw e (λ z. absurd (cc))
  | inr e ↦ elim (Bool-cases (o.opened (suc o.next))) [
    | inl f ↦ rw (e, f) (λ z. absurd (cc))
    | inr f ↦
        rw (e, f)
          (λ z.
            let s_is : o.next ≡ s = cc in
            let t_is : suc o.next ≡ t = cc in rw (← s_is, ← t_is) (ground arith, e, f, λ i. refl))
  ]
]

toy_pair_err :
    (o : Toy) (e : ErrorKind)
    → (toy_pair o).1 ≡ err e
    → (i : ℕ) → (toy_pair o).0.opened i ≡ o.opened i
toy_pair_err o e = elim (Bool-cases (o.opened o.next)) [
  | inl g ↦ rw g (λ z i. refl)
  | inr g ↦ elim (Bool-cases (o.opened (suc o.next))) [
    | inl f ↦ rw (g, f) (λ z i. refl)
    | inr f ↦ rw (g, f) (λ z. absurd (cc))
  ]
]

abbrev same : Bool → Bool → Bool
same true b = b
same false b = not b

same_iff : (f g : Bool) → (same f g ≡ true) ↔ (f ≡ g)
same_iff true true = (λ _. refl, λ _. refl)
same_iff true false = (λ e. absurd (cc), λ e. absurd (cc))
same_iff false true = (λ e. absurd (cc), λ e. absurd (cc))
same_iff false false = (λ _. refl, λ _. refl)

self : (s : ℕ) (f b : Bool) → (if s == s then f else b) ≡ f
self s f b = ground arith

-- Addresses are numbers, and flags are whether `NONBLOCK` is set.
abbrev toy_sockets : Sockets
toy_sockets = record {
  Os = Toy;
  Address = ℕ;
  Family = ℕ;
  Protocol = ℕ;
  Flags = Bool;
  FdFlags = Bool;
  fcntl_getfd = λ o s. ok false;
  fcntl_setfd = λ o s f. (o, ok tt);
  with_cloexec = λ _. true;
  is_open-fcntl_setfd = λ o s f i. refl;
  sets_cloexec = true;
  has_abstract = false;
  inet = 2;
  inet6 = 10;
  unix = 1;
  tcp = 6;
  is_windows = false;
  wsa_startup = λ o. (record o { started = true }, ok tt);
  wsa_called = λ o. o.started;
  has_fionbio = false;
  creates_nonblocking = false;
  socket_with = λ o _ _ _. toy_socket o;
  configure = λ o _. (o, ok tt);
  connect = λ o _ _. (o, some inprogress);
  ioctl_fionbio = λ o _. (o, err other);
  fcntl_getfl = λ o s. ok (o.nonblocking s);
  fcntl_setfl =
      λ o s f. (record o { nonblocking = λ i. if s == i then f else o.nonblocking i }, ok tt);
  take_error = λ o _. (o, ok none);
  peer_addr = λ o s. ok s;
  pair = toy_pair;
  close = λ o s. record o { opened = λ i. if s == i then false else o.opened i };
  unix_path = λ _. ok 0;
  unix_abstract = λ _. ok 1;
  with_nonblock = λ _. true;
  same_flags = same;
  same_flags_iff = same_iff;
  setfl_ok = λ o s f _. ap ok (self s f (o.nonblocking s));
  is_open = λ o. o.opened;
  socket_ok = λ o _ _ _ s. toy_socket_ok o s;
  socket_err = λ o _ _ _ e. toy_socket_err o e;
  pair_ok = toy_pair_ok;
  pair_err = toy_pair_err;
  is_open-close = λ o s i. refl;
  is_open-wsa_startup = λ o i. refl;
  wsa_called-wsa_startup = λ o. refl;
  is_open-configure = λ o s i. refl;
  is_open-connect = λ o s a i. refl;
  is_open-ioctl_fionbio = λ o s i. refl;
  is_open-fcntl_setfl = λ o s f i. refl;
  is_open-take_error = λ o s i. refl;
}

abbrev fresh_os : Toy
fresh_os = record { next = 30; opened = λ _. false; nonblocking = λ _. false; started = false }

poll_connect_lem_example : Connects toy toy_sockets fd fresh_os world (
    poll_connect toy toy_sockets fd
      (start_tcp toy_sockets (v4 99))
      (check_tcp toy_sockets)
      starting
      fresh_os
      world
      5)
poll_connect_lem_example =
    poll_connect_lem toy toy_sockets fd (check_tcp toy_sockets) (check_tcp-SameOpen toy_sockets)
      (start_tcp toy_sockets (v4 99)) (start_tcp-Created toy_sockets (v4 99)) fresh_os world
      starting fresh_os world 5 (refl, refl)

pair_lem_example : Pairs toy toy_sockets fd fresh_os world (pair toy toy_sockets fd fresh_os world)
pair_lem_example = pair_lem toy toy_sockets fd fresh_os world
