-- ===== src/Os/Unix.antt =====
-- `src/os/unix.rs`: `reactor_fd`.
use async_io.Base.{ℕ, Option, none, some}
use async_io.Reactor.{Platform, Reactor}

module _ (X : Platform) where
  -- `reactor_fd`, with `as_fd` of the poller on the platforms whose `Poller` is `AsFd`.
  unfoldable reactor_fd : Option (X.poller.Poller → ℕ) → Reactor X → Option ℕ
  reactor_fd none r = none
  reactor_fd (some as_fd) r = some (as_fd r.poller)
