-- ===== src/Net.antt =====
-- `src/lib.rs`: how the adapters for sockets are made and used. A value that is dropped on an error path
-- is dropped here: a socket is closed, and an `Async` is taken out of the reactor before its socket
-- is closed.
pub mod Create
pub mod Opens
pub mod Flags
pub mod Streams
pub mod Placed
pub mod Connecting
pub mod Connect
pub mod Pair
pub mod Accept
pub mod Accepted
