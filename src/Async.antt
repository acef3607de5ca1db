-- ===== src/Async.antt =====
-- `src/lib.rs`: `Async`, a handle on a source of the reactor, and the loops of `AsyncRead` and
-- `AsyncWrite`. What the operating system does with a handle is a parameter.
pub mod Polls
pub mod Handles
pub mod Loops
pub mod Watches
pub mod Unwrap
use async_io.Base.{
  ℕ, zero, suc, ◌++◌, List, [], Option, none, some, Bool, true, false, IoResult, ok, err, ErrorKind,
  would_block, interrupted, other, Poll, pending, ready,
}
use async_io.Timers.{Waker}
use async_io.Reactor.{Platform, Dir, read, write, Source, Reactor}
use async_io.Reactor.Sources.{Ready, new_ready}
use async_io.Reactor.Io.{insert_io, remove_io, poll_source}

-- `err.kind() == io::ErrorKind::WouldBlock`.
unfoldable pub is_would_block : {R : Type 0} → IoResult R → Bool
is_would_block (err would_block) = true
is_would_block (err interrupted) = false
is_would_block (err other) = false
is_would_block (ok a) = false

module _ (X : Platform) where
  -- `remove_io` of the handle's source; `none` if it is not in the table, which a live handle
  -- excludes.
  unfoldable pub deregister_io : ℕ → Reactor X → Option (IoResult (Unit {0}) × Reactor X)
  deregister_io key r = elim (X.slab.get r.sources key) [
    | none ↦ none
    | some s ↦ some (remove_io X r s)
  ]

module _ (X : Platform) (T : Type 0) where
  -- The source is its key in the table.
  pub record Async : Type 0 where
    pub source : ℕ
    pub io : Option T

  -- `Async::new_nonblocking`, with the registration of the handle's descriptor.
  unfoldable pub new_nonblocking :
      (T → X.poller.Registration) → T → Reactor X → IoResult Async × Reactor X
  new_nonblocking register io r =
      let (res, r') = insert_io X r (register io) in
      elim res [ ok key ↦ (ok (record { source = key; io = some io }), r') | err e ↦ (err e, r') ]

  -- `Async::new`, with what `set_nonblocking` returns.
  unfoldable pub new :
      (T → X.poller.Registration) → IoResult (Unit {0}) → T → Reactor X → IoResult Async × Reactor X
  unfolding new_nonblocking
  new register (ok _) io r = new_nonblocking register io r
  new register (err e) io r = (err e, r)

  -- `Async::into_inner`; the handle that it consumes has no `io` any more, so that its drop does
  -- nothing. `none` is the panic of `unwrap`.
  unfoldable pub into_inner : Async → Reactor X → Option (IoResult T × Reactor X)
  unfolding deregister_io
  into_inner a r = elim a.io [
    | none ↦ none
    | some io ↦ elim (deregister_io X a.source r) [
      | none ↦ none
      | some (ok _, r') ↦ some (ok io, r')
      | some (err e, r') ↦ some (err e, r')
    ]
  ]

  -- `Async::get_ref`; `none` is the panic of `unwrap`.
  unfoldable pub get_ref : Async → Option T
  get_ref a = a.io

  -- `Async::get_mut`, and what the caller makes of the I/O object.
  unfoldable pub get_mut : (T → T) → Async → Option Async
  get_mut f a = elim a.io [ none ↦ none | some io ↦ some (record a { io = some (f io) }) ]

  -- `TryFrom` of an owned descriptor or socket, over the conversion that `T` has.
  unfoldable pub try_from_owned :
      {F : Type 0}
      → (F → T)
      → (T → X.poller.Registration)
      → IoResult (Unit {0})
      → F
      → Reactor X
      → IoResult Async × Reactor X
  unfolding new
  try_from_owned from register nonblocking fd r = new register nonblocking (from fd) r

  unfoldable pub map_owned :
      {F : Type 0} → (T → F) → Option (IoResult T × Reactor X) → Option (IoResult F × Reactor X)
  map_owned into none = none
  map_owned into (some (ok io, r)) = some (ok (into io), r)
  map_owned into (some (err e, r)) = some (err e, r)

  -- `TryFrom<Async>` for an owned descriptor or socket.
  unfoldable pub try_into_owned :
      {F : Type 0} → (T → F) → Async → Reactor X → Option (IoResult F × Reactor X)
  unfolding into_inner map_owned
  try_into_owned into a r = map_owned into (into_inner a r)

  -- `Async::poll_readable` and `Async::poll_writable`.
  unfoldable pub poll_readable :
      Async → Reactor X → Waker → Option (Poll (IoResult (Unit {0})) × Reactor X × List Waker)
  unfolding poll_source
  poll_readable a r k = poll_source X r a.source read k

  unfoldable pub poll_writable :
      Async → Reactor X → Waker → Option (Poll (IoResult (Unit {0})) × Reactor X × List Waker)
  unfolding poll_source
  poll_writable a r k = poll_source X r a.source write k

  -- `Async::readable` and `readable_owned`, `writable` and `writable_owned`: the new future.
  unfoldable pub readable_future : Async → Ready
  unfolding new_ready
  readable_future a = new_ready read

  unfoldable pub writable_future : Async → Ready
  unfolding new_ready
  writable_future a = new_ready write

  -- `Drop for Async`.
  unfoldable pub drop : Async → Reactor X → Option (Reactor X)
  unfolding deregister_io
  drop a r = elim a.io [
    | none ↦ some r
    | some io ↦ elim (deregister_io X a.source r) [ none ↦ none | some (_, r') ↦ some r' ]
  ]

module _ (X : Platform) (S R : Type 0) where
  abbrev pub Outcome : Type 0
  Outcome = Poll (IoResult R) × S × Reactor X × List Waker

  unfoldable pub with_woken : List Waker → Option Outcome → Option Outcome
  with_woken woken none = none
  with_woken woken (some (res, st, r, more)) = some (res, st, r, woken ++ more)

  -- The loop of `poll_read`, `poll_write`, `poll_flush` and their variants: `op` is the operation on
  -- the handle, with its buffers, `dir` the direction that it waits for.
  unfoldable pub poll_op :
      ℕ → (S → IoResult R × S) → S → Reactor X → ℕ → Dir → Waker → Option Outcome
  unfolding with_woken
  poll_op zero op st r key dir k = none
  poll_op (suc fuel) op st r key dir k =
      let (res, st') = op st in
      elim (is_would_block res) [
        | false ↦ some (ready res, st', r, [])
        | true ↦ elim (poll_source X r key dir k) [
          | none ↦ none
          | some (pending, r', woken) ↦ some (pending, st', r', woken)
          | some (ready (err e), r', woken) ↦ some (ready (err e), st', r', woken)
          | some (ready (ok _), r', woken) ↦ with_woken woken (poll_op fuel op st' r' key dir k)
        ]
      ]
