-- ===== src/External/Parker.antt =====
-- The `parking` crate, as `src/driver.rs` uses it: a parker with its unparker.
use async_io.Base.{◌≡◌, Bool, true, false, not}

pub record ParkerCrate : Type 1 where
  pub Parker : Type 0
  -- `pair`.
  pub pair : Parker
  -- `Unparker::unpark`: `true` if the parker was not notified before.
  pub unpark : Parker → Parker × Bool
  -- `Parker::park_timeout(Duration::from_secs(0))`, and the return of `park`: `true` if the parker
  -- was notified; the notification is consumed.
  pub park_now : Parker → Parker × Bool
  pub notified : Parker → Bool
  pub notified-pair : notified pair ≡ false
  pub unpark_result : (p : Parker) → (unpark p).1 ≡ not (notified p)
  pub notified-unpark : (p : Parker) → notified (unpark p).0 ≡ true
  pub park_now_result : (p : Parker) → (park_now p).1 ≡ notified p
  pub notified-park_now : (p : Parker) → notified (park_now p).0 ≡ false
