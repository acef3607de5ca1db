-- ===== src/Net/Streams.antt =====
-- `src/lib.rs`: a socket in the reactor: `Async::new`, the drop, `bind`, and `pair`.
use async_io.Base.{ℕ, Option, none, some, ErrorKind, IoResult, ok, err}
use async_io.External.Sockets.{Sockets}
use async_io.Reactor.{Platform, Reactor}
use async_io.Async
use async_io.Async.{new_nonblocking}
use async_io.Net.Create.{set_nonblocking}

-- `register` makes the registration of a socket.
module _ (X : Platform) (S : Sockets) (register : ℕ → X.poller.Registration) where
  abbrev pub Stream : Type 0
  Stream = Async.Async X ℕ

  abbrev pub Made : Type 0
  Made = IoResult Stream × S.Os × Reactor X

  -- A socket that could not be registered is closed.
  unfoldable pub adopted : S.Os → ℕ → IoResult Stream × Reactor X → Made
  adopted o s (ok a, r) = (ok a, o, r)
  adopted o s (err e, r) = (err e, S.close o s, r)

  -- `Async::new_nonblocking`, which owns the socket.
  unfoldable pub adopt : S.Os → Reactor X → ℕ → Made
  unfolding adopted
  adopt o r s = adopted o s (new_nonblocking X ℕ register s r)

  unfoldable pub adopt_nonblocking : Reactor X → ℕ → S.Os × IoResult (Unit {0}) → Made
  unfolding adopt
  adopt_nonblocking r s (o, ok _) = adopt o r s
  adopt_nonblocking r s (o, err e) = (err e, S.close o s, r)

  -- `Async::new`, which does too.
  unfoldable pub new_stream : S.Os → Reactor X → ℕ → Made
  unfolding set_nonblocking adopt_nonblocking
  new_stream o r s = adopt_nonblocking r s (set_nonblocking S o s)

  -- `TryFrom` of a socket of the standard library.
  unfoldable pub try_from_socket : S.Os → Reactor X → ℕ → Made
  unfolding new_stream
  try_from_socket o r s = new_stream o r s

  -- `bind` and `unbound`, from what the system's call gives.
  unfoldable pub bind : Reactor X → S.Os × IoResult ℕ → Made
  unfolding new_stream
  bind r (o, err e) = (err e, o, r)
  bind r (o, ok s) = new_stream o r s

  abbrev pub close_io : Option ℕ → S.Os → S.Os
  close_io none o = o
  close_io (some s) o = S.close o s

  -- The drop of a stream; `none` if its source is not in the table, which a live handle excludes.
  unfoldable pub drop_stream : Stream → S.Os → Reactor X → Option (S.Os × Reactor X)
  unfolding Async.drop
  drop_stream a o r = elim (Async.drop X ℕ a r) [
    | none ↦ none
    | some r' ↦ some (close_io a.io o, r')
  ]

  abbrev pub Paired : Type 0
  Paired = Option (IoResult (Stream × Stream) × S.Os × Reactor X)

  unfoldable pub pair_dropped : ErrorKind → Option (S.Os × Reactor X) → Paired
  pair_dropped e none = none
  pair_dropped e (some (o, r)) = some (err e, o, r)

  -- The second stream; an error drops the first one.
  unfoldable pub pair_second : Stream → Made → Paired
  unfolding drop_stream pair_dropped
  pair_second a (ok b, o, r) = some (ok (a, b), o, r)
  pair_second a (err e, o, r) = pair_dropped e (drop_stream a o r)

  -- The first stream; an error drops the second socket.
  unfoldable pub pair_first : ℕ → Made → Paired
  unfolding new_stream pair_second
  pair_first t (err e, o, r) = some (err e, S.close o t, r)
  pair_first t (ok a, o, r) = pair_second a (new_stream o r t)

  unfoldable pub pair_created : Reactor X → S.Os × IoResult (ℕ × ℕ) → Paired
  unfolding new_stream pair_first
  pair_created r (o, err e) = some (err e, o, r)
  pair_created r (o, ok (s, t)) = pair_first t (new_stream o r s)

  -- `Async::<UnixStream>::pair` and `Async::<UnixDatagram>::pair`.
  unfoldable pub pair : S.Os → Reactor X → Paired
  unfolding pair_created
  pair o r = pair_created r (S.pair o)
