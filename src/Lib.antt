-- ===== src/Lib.antt =====
-- async-io: the reactor, the timers and the threads that drive them.
--
-- The program. `src/reactor.rs` keeps one global `Reactor`: a poller, a table of I/O sources, an
-- ordered map of timers with a bounded queue of operations on it, and a ticker. A thread that
-- holds the lock on the reactor runs rounds (`ReactorLock::react`): it fires due timers, waits in
-- the poller, stamps and drains the directions of the sources that the events name, registers
-- what somebody still waits for, and wakes. `src/lib.rs` has `Timer`, which enters itself in the
-- map, and `Async`, which is a handle on a source. `src/driver.rs` has the threads that take the
-- lock: those of `block_on`, and the "async-io" thread.
--
-- The files.
--   Base             shared names, Boolean tests, lists, `io::Result` and `Poll`
--   External         the crates `concurrent-queue`, `slab`, `polling` and `parking` and the system's
--                    sockets, as records of operations with the documented behaviour that the
--                    program relies on
--   Registration     what `src/reactor.rs` relies on in a platform's `Registration`, as a record;
--                    `src/reactor/unix.rs`, `src/reactor/kqueue.rs` and `src/reactor/windows.rs`,
--                    which fill it
--   Timers           `src/reactor.rs`: the map of timers, `TimerOp`
--   Reactor          `src/reactor.rs`: the state; `Reactor/TimerQueue` is `insert_timer`,
--                    `remove_timer`, `process_timer_ops`; `Reactor/Fire` `process_timers`;
--                    `Reactor/Directions` `Direction`; `Reactor/Sources` `Source::poll_ready`,
--                    `Ready`; `Reactor/Io` `insert_io`, `remove_io` and polls of a source in the
--                    table; `Reactor/React` `ReactorLock::react`
--   System           `src/reactor.rs`: the rounds as steps, and the calls of other threads between
--                    them; `System/TimerCalls` the methods of `Timer` as such steps
--   Timer            `src/lib.rs`: `Timer`
--   Async            `src/lib.rs`: `Async`, its constructors, its drop and the loops of `AsyncRead`
--                    and `AsyncWrite`; `Async/Loops` `read_with`, `write_with`, `optimistic`
--   Net              `src/lib.rs`: the adapters for sockets: `Net/Create` `set_nonblocking` and
--                    `connect`; `Net/Streams` `Async::new` on a socket, `bind`, `pair`;
--                    `Net/Connecting` the `async fn connect`; `Net/Accept` `accept`, `incoming`
--                    and the methods that send and receive
--   Os               `src/os/kqueue.rs`: `Filter`, `Signal`, `Exit`; `src/os/windows.rs`: `Waitable`;
--                    `src/os/unix.rs`: `reactor_fd`
--   Driver           `src/driver.rs`: `block_on` and its wakers; `Driver/Nesting` its calls
--                    inside one another; `Driver/MainLoop` `main_loop`; `Driver/Threads` many threads
--                    over one reactor lock and one poller; `Driver/Init` `Reactor::get`, `unparker`
--                    and `init`
--   Program          the threads of `Driver/Threads` over the rounds of `System`
--   Tests            small implementations of the crates and runs of the code over them
-- The children of a module state and prove what its operations do.
--
-- State and calls. A call on the reactor is a function from its state to its state; the mutexes
-- make each section between a lock and its release one step. `Instant::now()`, the waker of the
-- context and the result of `try_lock` are arguments; a waker is the number of the task that it
-- wakes, and an operation that wakes returns the list of those it wakes. Instants and durations
-- are in nanoseconds; `usize` is 64 bits wide and wraps around (`ticker`, `ID_GENERATOR`). The map
-- of timers is the list of its entries in the order of their keys. The schedule of a reactor is
-- its map with the queued operations applied. Interleavings are relations of steps: what changes
-- the ticks of a direction in `Reactor/React/Fresh`, the rounds and the other threads in `System`, a thread of `block_on` and
-- its wakers in `Driver/Handshake`, many such threads and their locks in `Driver/Threads`, these
-- with the rounds in `Program`, the first calls of `Reactor::get` in `Driver/Init`, calls of
-- `block_on` inside one another in `Driver/Nesting`. A thread is a number.
--
-- Bounds. The loop of `insert_timer` and `remove_timer` has fuel 2 (`push_fuel`): a full queue is
-- drained whole, so that the second push finds room as long as the capacity is above 0, which
-- `TIMER_QUEUE_SIZE` is. The loops of `AsyncRead` and `AsyncWrite` need fuel 2: a poll that finds an
-- event forgets its ticks, so that the next one does not. A poll of `read_with` or `write_with`
-- needs fuel 3: a new future is not ready at its first poll. The other loops are recursions on the
-- list or the count that they run through.
--
-- Sockets. What the operating system keeps of the sockets is a state that `Net` passes along; a
-- socket is its descriptor, and what Rust drops on an error path is closed or deregistered there.
--
-- Failures. A poll that returns an error and a round whose re-registration fails are steps of `System`
-- too; its state keeps the keys of the sources concerned (`lost`) and counts such rounds
-- (`failures`).
--
-- Granularity. `insert_io` is one step of `System`, although it releases the lock on the table before
-- the poller is told of the source; until it returns, no other thread has the source.
--
-- Not modelled. Panics (`expect`, `unwrap` on a poisoned mutex, an instant past the last one in
-- `now + 1ns`, a waker that panics), trace output, a `Poller::new` or a spawn that fails, the result
-- of `Poller::notify`, and the examples, benches and integration tests. A number of type `i32` in
-- `Os/Kqueue` stands by its bits.
pub mod Base
pub mod External
pub mod Registration
pub mod Timers
pub mod Reactor
pub mod System
pub mod Timer
pub mod Async
pub mod Net
pub mod Os
pub mod Driver
pub mod Program
pub mod Tests
