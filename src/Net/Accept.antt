-- ===== src/Net/Accept.antt =====
-- `src/lib.rs`: `accept`, `incoming`, and the methods that send and receive.
use async_io.Base.{ℕ, Option, none, some, IoResult, ok, err, Poll, pending, ready}
use async_io.External.Sockets.{Sockets}
use async_io.Timers.{Waker}
use async_io.Reactor.{Platform, Dir, read, write, Reactor}
use async_io.Async.Loops.{Progress, trying, poll_with}
use async_io.Net.Streams.{Stream, Made, new_stream}

module _ (X : Platform) (S : Sockets) (register : ℕ → X.poller.Registration) where
  abbrev pub PollAccept : Type 0 → Type 0
  PollAccept A = Option (Poll (IoResult (Stream X S register × A)) × Progress × S.Os × Reactor X)

  unfoldable pub accepted : (A : Type 0) → A → Progress → Made X S register → PollAccept A
  accepted A addr at (ok a, o, r) = some (ready (ok (a, addr)), at, o, r)
  accepted A addr at (err e, o, r) = some (ready (err e), at, o, r)

  -- A poll of `accept`, over what the system's `accept` does: a connection and its address.
  unfoldable pub poll_accept :
      (A : Type 0)
      → ℕ
      → (S.Os → IoResult (ℕ × A) × S.Os)
      → S.Os
      → Reactor X
      → ℕ
      → Progress
      → Waker
      → PollAccept A
  unfolding poll_with new_stream accepted
  poll_accept A fuel op o r key at k = elim (poll_with X S.Os (ℕ × A) fuel read op o r key at k) [
    | none ↦ none
    | some (pending, at', o', r') ↦ some (pending, at', o', r')
    | some (ready (err e), at', o', r') ↦ some (ready (err e), at', o', r')
    | some (ready (ok (s, addr)), at', o', r') ↦
        accepted A addr at' (new_stream X S register o' r' s)
  ]

  abbrev pub PollIncoming : Type 0
  PollIncoming = Option (Poll (IoResult (Stream X S register)) × Progress × S.Os × Reactor X)

  -- An item of `incoming`: the connection without its address; the next poll accepts anew.
  unfoldable pub next_item : (A : Type 0) → PollAccept A → PollIncoming
  next_item A none = none
  next_item A (some (pending, at, o, r)) = some (pending, at, o, r)
  next_item A (some (ready (ok (a, addr)), at, o, r)) = some (ready (ok a), trying, o, r)
  next_item A (some (ready (err e), at, o, r)) = some (ready (err e), trying, o, r)

  -- A poll of the stream `incoming`, which never ends.
  unfoldable pub poll_incoming :
      (A : Type 0)
      → ℕ
      → (S.Os → IoResult (ℕ × A) × S.Os)
      → S.Os
      → Reactor X
      → ℕ
      → Progress
      → Waker
      → PollIncoming
  unfolding poll_accept next_item
  poll_incoming A fuel op o r key at k = next_item A (poll_accept A fuel op o r key at k)

-- The methods of the adapters that send and receive, and what each waits for.
pub data Transfer : Type 0 where
  peek recv recv_from peek_from send send_to : Transfer

unfoldable pub transfer_dir : Transfer → Dir
transfer_dir peek = read
transfer_dir recv = read
transfer_dir recv_from = read
transfer_dir peek_from = read
transfer_dir send = write
transfer_dir send_to = write

-- A poll of one of them: `read_with` or `write_with` over the system's call, with its buffer.
unfoldable pub poll_transfer :
    (X : Platform) (St R : Type 0)
    → ℕ
    → Transfer
    → (St → IoResult R × St)
    → St
    → Reactor X
    → ℕ
    → Progress
    → Waker
    → Option (Poll (IoResult R) × Progress × St × Reactor X)
unfolding poll_with transfer_dir
poll_transfer X St R fuel t op st r key at k =
    poll_with X St R fuel (transfer_dir t) op st r key at k
