-- ===== src/External.antt =====
-- The interfaces of the crates that the program calls.
pub mod Queue
pub mod Slab
pub mod Poller
pub mod Kqueue
pub mod Iocp
pub mod Parker
pub mod Sockets
