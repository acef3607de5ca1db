-- ===== src/Os/Kqueue.antt =====
-- `src/os/kqueue.rs`: filters for signals and for processes that end, over the reactor with the
-- registrations of `kqueue`.
pub mod Laws
use async_io.Base.{
  ℕ, ◌^◌, List, Option, none, some, IoResult, ok, err, Poll, ltb, ◌==◌, if◌then◌else◌,
}
use async_io.External.Queue.{BoundedQueue}
use async_io.External.Slab.{SlabCrate}
use async_io.External.Kqueue.{KqueueCrate}
use async_io.Registration.Kqueue.{Registration, fd, signal, process, registrar}
use async_io.Timers.{Waker, TimerOp}
use async_io.Reactor.{Platform, read, Reactor}
use async_io.Reactor.Sources.{Ready, new_ready}
use async_io.Reactor.Io.{insert_io, poll_source, poll_ready_future}
use async_io.Async.{Async, into_inner, get_ref, get_mut, try_from_owned, try_into_owned}

-- `Signal`: the number's 32 bits.
pub record Signal : Type 0 where
  pub number : ℕ

-- `Exit`: the 32 bits of a process ID that is not 0.
pub record Exit : Type 0 where
  pub pid : ℕ

-- The conversion of `Child::id`, a `u32`, into an `i32`.
unfoldable pub to_i32 : ℕ → Option ℕ
to_i32 n = if ltb n (2 ^ 31) then some n else none

-- `NonZeroI32::new`.
unfoldable pub non_zero : ℕ → Option ℕ
non_zero n = if n == 0 then none else some n

-- `Exit::new`, from `Child::id`; `none` is the panic of `expect`.
unfoldable pub new_exit : ℕ → Option Exit
unfolding to_i32 non_zero
new_exit id = elim (to_i32 id) [
  | none ↦ none
  | some n ↦ elim (non_zero n) [ none ↦ none | some pid ↦ some (record { pid = pid }) ]
]

-- `Exit::from_pid`.
unfoldable pub from_pid : ℕ → Exit
from_pid pid = record { pid = pid }

-- `QueueableSealed::registration`.
pub record Queueable (T : Type 0) : Type 0 where
  pub registration : T → Registration

instance abbrev pub signal_queueable : Queueable Signal
signal_queueable = record { registration = λ s. signal s.number }

instance abbrev pub exit_queueable : Queueable Exit
exit_queueable = record { registration = λ e. process e.pid }

module _ (Q : BoundedQueue TimerOp) (L : SlabCrate) (P : KqueueCrate) (latest : ℕ) where
  abbrev pub kqueue : Platform
  kqueue = record { queue = Q; slab = L; poller = registrar P; instant_max = latest }

  pub record Filter (T : Type 0) : Type 0 where
    pub inner : Async kqueue T

  module _ {T : Type 0} where
    -- The filter over the source that the reactor has made.
    unfoldable pub made_filter :
        T → IoResult ℕ × Reactor kqueue → IoResult (Filter T) × Reactor kqueue
    made_filter filter (ok key, r) =
        (ok (record { inner = record { source = key; io = some filter } }), r)
    made_filter filter (err e, r) = (err e, r)

    -- `Filter::new`.
    unfoldable pub new_filter :
        ⦃q : Queueable T⦄ → T → Reactor kqueue → IoResult (Filter T) × Reactor kqueue
    unfolding made_filter
    new_filter ⦃q = q⦄ filter r = made_filter filter (insert_io kqueue r (q.registration filter))

    -- `Filter::into_inner`, as `Async::into_inner`.
    unfoldable pub unwrap_filter : Filter T → Reactor kqueue → Option (IoResult T × Reactor kqueue)
    unfolding into_inner
    unwrap_filter f r = into_inner kqueue T f.inner r

    -- `Filter::poll_ready`.
    unfoldable pub poll_filter :
        Filter T
        → Reactor kqueue
        → Waker
        → Option (Poll (IoResult (Unit {0})) × Reactor kqueue × List Waker)
    unfolding poll_source
    poll_filter f r k = poll_source kqueue r f.inner.source read k

    -- `Filter::ready`, and the poll of the future.
    unfoldable pub filter_ready : Filter T → Ready
    filter_ready f = new_ready read

    unfoldable pub poll_filter_future :
        Filter T
        → Reactor kqueue
        → Ready
        → Waker
        → Option (Poll (IoResult (Unit {0})) × Ready × Reactor kqueue)
    unfolding poll_ready_future
    poll_filter_future f r ready k = poll_ready_future kqueue r f.inner.source ready k

    -- `Filter::get_ref` and `get_mut`.
    unfoldable pub filter_ref : Filter T → Option T
    unfolding get_ref
    filter_ref f = get_ref kqueue T f.inner

    unfoldable pub filter_mut : (T → T) → Filter T → Option (Filter T)
    unfolding get_mut
    filter_mut g f = elim (get_mut kqueue T g f.inner) [
      | none ↦ none
      | some a ↦ some (record { inner = a })
    ]

    unfoldable pub filter_of :
        IoResult (Async kqueue T) × Reactor kqueue → IoResult (Filter T) × Reactor kqueue
    filter_of (ok a, r) = (ok (record { inner = a }), r)
    filter_of (err e, r) = (err e, r)

    -- `TryFrom<OwnedFd>`, which registers the descriptor itself, and `TryFrom<Filter<T>>`.
    unfoldable pub filter_from_owned :
        (ℕ → T)
        → (T → ℕ)
        → IoResult (Unit {0})
        → ℕ
        → Reactor kqueue
        → IoResult (Filter T) × Reactor kqueue
    unfolding try_from_owned filter_of
    filter_from_owned from as_fd nonblocking owned r =
        filter_of (try_from_owned kqueue T from (λ t. fd (as_fd t)) nonblocking owned r)

    unfoldable pub filter_into_owned :
        (T → ℕ) → Filter T → Reactor kqueue → Option (IoResult ℕ × Reactor kqueue)
    unfolding try_into_owned
    filter_into_owned into f r = try_into_owned kqueue T into f.inner r
