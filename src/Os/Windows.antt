-- ===== src/Os/Windows.antt =====
-- `src/os/windows.rs`: waitable handles, over the reactor with the registrations of Windows.
pub mod Laws
use async_io.Base.{ℕ, List, Option, none, some, IoResult, ok, err, Poll}
use async_io.External.Queue.{BoundedQueue}
use async_io.External.Slab.{SlabCrate}
use async_io.External.Iocp.{IocpCrate}
use async_io.Registration.Windows.{handle, registrar}
use async_io.Timers.{Waker, TimerOp}
use async_io.Reactor.{Platform, read, Reactor}
use async_io.Reactor.Sources.{Ready, new_ready}
use async_io.Reactor.Io.{insert_io, poll_source, poll_ready_future}
use async_io.Async.{Async, into_inner, get_ref, get_mut, map_owned}

module _ (Q : BoundedQueue TimerOp) (L : SlabCrate) (P : IocpCrate) (latest : ℕ) where
  abbrev pub windows : Platform
  windows = record { queue = Q; slab = L; poller = registrar P; instant_max = latest }

  pub record Waitable (T : Type 0) : Type 0 where
    pub inner : Async windows T

  module _ {T : Type 0} where
    -- The waitable over the source that the reactor has made.
    unfoldable pub made_waitable :
        T → IoResult ℕ × Reactor windows → IoResult (Waitable T) × Reactor windows
    made_waitable h (ok key, r) = (ok (record { inner = record { source = key; io = some h } }), r)
    made_waitable h (err e, r) = (err e, r)

    -- `Waitable::new`, with `as_handle`.
    unfoldable pub new_waitable :
        (T → ℕ) → T → Reactor windows → IoResult (Waitable T) × Reactor windows
    unfolding made_waitable
    new_waitable as_handle h r = made_waitable h (insert_io windows r (handle (as_handle h)))

    -- `Waitable::into_inner`, as `Async::into_inner`.
    unfoldable pub unwrap_waitable :
        Waitable T → Reactor windows → Option (IoResult T × Reactor windows)
    unfolding into_inner
    unwrap_waitable w r = into_inner windows T w.inner r

    -- `Waitable::poll_ready`.
    unfoldable pub poll_waitable :
        Waitable T
        → Reactor windows
        → Waker
        → Option (Poll (IoResult (Unit {0})) × Reactor windows × List Waker)
    unfolding poll_source
    poll_waitable w r k = poll_source windows r w.inner.source read k

    -- `Waitable::ready`, and the poll of the future.
    unfoldable pub waitable_ready : Waitable T → Ready
    waitable_ready w = new_ready read

    unfoldable pub poll_waitable_future :
        Waitable T
        → Reactor windows
        → Ready
        → Waker
        → Option (Poll (IoResult (Unit {0})) × Ready × Reactor windows)
    unfolding poll_ready_future
    poll_waitable_future w r ready k = poll_ready_future windows r w.inner.source ready k

    -- `Waitable::get_ref` and `get_mut`.
    unfoldable pub waitable_ref : Waitable T → Option T
    unfolding get_ref
    waitable_ref w = get_ref windows T w.inner

    unfoldable pub waitable_mut : (T → T) → Waitable T → Option (Waitable T)
    unfolding get_mut
    waitable_mut g w = elim (get_mut windows T g w.inner) [
      | none ↦ none
      | some a ↦ some (record { inner = a })
    ]

    -- `TryFrom<OwnedHandle>` and `TryFrom<Waitable<T>>`.
    unfoldable pub waitable_from_owned :
        (ℕ → T) → (T → ℕ) → ℕ → Reactor windows → IoResult (Waitable T) × Reactor windows
    unfolding new_waitable
    waitable_from_owned from as_handle owned r = new_waitable as_handle (from owned) r

    unfoldable pub waitable_into_owned :
        (T → ℕ) → Waitable T → Reactor windows → Option (IoResult ℕ × Reactor windows)
    unfolding unwrap_waitable map_owned
    waitable_into_owned into w r = map_owned windows T into (unwrap_waitable w r)
