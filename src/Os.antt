-- ===== src/Os.antt =====
-- `src/os`: what is available on one platform only.
pub mod Kqueue
pub mod Unix
pub mod Windows
