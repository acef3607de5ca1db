-- ===== src/Tests.antt =====
-- Small implementations of the crates, and runs of the code over them.
mod Crates
mod Slabs
mod Polls
mod World
mod Rounds
mod Alarms
mod Handles
mod Threads
mod Nets
mod Systems
mod Programs
mod Filters
