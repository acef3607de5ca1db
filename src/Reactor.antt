-- ===== src/Reactor.antt =====
-- `src/reactor.rs`: the state of the reactor, over the crates that it uses.
pub mod TimerQueue
pub mod Fire
pub mod Directions
pub mod Sources
pub mod Io
pub mod React
use async_io.Base.{ℕ, ◌^◌, List, [], Option, none}
use async_io.External.Queue.{BoundedQueue}
use async_io.External.Slab.{SlabCrate}
use async_io.Registration.{Registrar}
use async_io.Timers.{Waker, TimerOp, Entry}

pub record Platform : Type 1 where
  pub queue : BoundedQueue TimerOp
  pub slab : SlabCrate
  -- The poller with the platform's registrations.
  pub poller : Registrar
  -- The latest `Instant` that the platform can represent.
  pub instant_max : ℕ

-- `usize` on a 64-bit target.
abbrev pub usize_mod : ℕ
usize_mod = 2 ^ 64

abbrev pub timer_queue_size : ℕ
timer_queue_size = 1000

-- The two directions, `READ` and `WRITE`, that index a source's state.
pub data Dir : Type 0 where
  read write : Dir

module _ (X : Platform) where
  pub record Direction : Type 0 where
    pub tick : ℕ
    pub ticks : Option (ℕ × ℕ)
    pub waker : Option Waker
    pub wakers : X.slab.Slab (Option Waker)

  -- `state` is the pair of directions; `registration` is the platform's.
  pub record Source : Type 0 where
    pub registration : X.poller.Registration
    pub key : ℕ
    pub reads : Direction
    pub writes : Direction

  -- `id_generator` is the static `ID_GENERATOR`.
  pub record Reactor : Type 0 where
    pub poller : X.poller.Poller
    pub ticker : ℕ
    pub sources : X.slab.Slab Source
    pub timers : List Entry
    pub timer_ops : X.queue.Queue
    pub id_generator : ℕ

  -- `Direction::default()`.
  unfoldable pub default_direction : Direction
  default_direction = record { tick = 0; ticks = none; waker = none; wakers = X.slab.new }

  -- The value that `Reactor::get` installs, over a new poller.
  unfoldable pub new_reactor : X.poller.Poller → Reactor
  new_reactor poller = record {
    poller = poller;
    ticker = 0;
    sources = X.slab.new;
    timers = [];
    timer_ops = X.queue.bounded timer_queue_size;
    id_generator = 1;
  }

  -- `Reactor::ticker`.
  unfoldable pub get_ticker : Reactor → ℕ
  get_ticker r = r.ticker

  -- `Reactor::notify`.
  unfoldable pub notify : Reactor → Reactor
  notify r = record r { poller = X.poller.notify r.poller }
