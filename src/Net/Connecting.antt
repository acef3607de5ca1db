-- ===== src/Net/Connecting.antt =====
-- `src/lib.rs`: the `async` functions `Async::<TcpStream>::connect` and `Async::<UnixStream>::connect`.
use async_io.Base.{ℕ, Option, none, some, ErrorKind, IoResult, ok, err, Poll, pending, ready}
use async_io.External.Sockets.{Sockets}
use async_io.Timers.{Waker}
use async_io.Reactor.{Platform, write, Reactor}
use async_io.Reactor.Sources.{Ready, new_ready}
use async_io.Reactor.Io.{poll_ready_future, drop_ready_future}
use async_io.Net.Streams.{Stream, Made, adopt, drop_stream}

-- Where an `async fn connect` is: not yet polled, in `stream.writable().await`, or returned.
pub data Connecting (H : Type 0) : Type 0 where
  starting : Connecting H
  awaiting_writable : H → Ready → Connecting H
  connected : Connecting H

module _ (X : Platform) (S : Sockets) (register : ℕ → X.poller.Registration) where
  abbrev pub PollConnect : Type 0
  PollConnect =
      Poll (IoResult (Stream X S register)) × Connecting (Stream X S register) × S.Os × Reactor X

  -- `?` with the stream in scope.
  unfoldable pub fail_connect :
      ErrorKind → Stream X S register → S.Os → Reactor X → Option PollConnect
  unfolding drop_stream
  fail_connect e a o r = elim (drop_stream X S register a o r) [
    | none ↦ none
    | some (o', r') ↦ some (ready (err e), connected, o', r')
  ]

  unfoldable pub checked_connect :
      Stream X S register → Reactor X → S.Os × IoResult (Unit {0}) → Option PollConnect
  unfolding fail_connect
  checked_connect a r (o, ok _) = some (ready (ok a), connected, o, r)
  checked_connect a r (o, err e) = fail_connect e a o r

  -- The `await` is over. `none` is the panic of `get_ref`.
  unfoldable pub finish_connect :
      (S.Os → ℕ → S.Os × IoResult (Unit {0}))
      → Stream X S register
      → IoResult (Unit {0})
      → S.Os
      → Reactor X
      → Option PollConnect
  unfolding checked_connect
  finish_connect check a (err e) o r = fail_connect e a o r
  finish_connect check a (ok _) o r = elim a.io [
    | none ↦ none
    | some s ↦ checked_connect a r (check o s)
  ]

  unfoldable pub await_writable :
      (S.Os → ℕ → S.Os × IoResult (Unit {0}))
      → Stream X S register
      → Ready
      → S.Os
      → Reactor X
      → Waker
      → Option PollConnect
  unfolding finish_connect
  await_writable check a f o r k = elim (poll_ready_future X r a.source f k) [
    | none ↦ none
    | some (pending, f', r') ↦ some (pending, awaiting_writable a f', o, r')
    | some (ready res, f', r') ↦ elim (drop_ready_future X r' a.source f') [
      | none ↦ none
      | some r'' ↦ finish_connect check a res o r''
    ]
  ]

  unfoldable pub await_adopted :
      (S.Os → ℕ → S.Os × IoResult (Unit {0})) → Waker → Made X S register → Option PollConnect
  unfolding await_writable
  await_adopted check k (err e, o, r) = some (ready (err e), connected, o, r)
  await_adopted check k (ok a, o, r) = await_writable check a (new_ready write) o r k

  unfoldable pub await_started :
      (S.Os → ℕ → S.Os × IoResult (Unit {0}))
      → Waker
      → Reactor X
      → S.Os × IoResult ℕ
      → Option PollConnect
  unfolding adopt await_adopted
  await_started check k r (o, err e) = some (ready (err e), connected, o, r)
  await_started check k r (o, ok s) = await_adopted check k (adopt X S register o r s)

  -- One poll of an `async fn connect` that begins with `start` and ends with `check`; `none` if it
  -- has returned, where a poll panics.
  unfoldable pub poll_connect :
      (S.Os → S.Os × IoResult ℕ)
      → (S.Os → ℕ → S.Os × IoResult (Unit {0}))
      → Connecting (Stream X S register)
      → S.Os
      → Reactor X
      → Waker
      → Option PollConnect
  unfolding await_started
  poll_connect start check connected o r k = none
  poll_connect start check (awaiting_writable a f) o r k = await_writable check a f o r k
  poll_connect start check starting o r k = await_started check k r (start o)
