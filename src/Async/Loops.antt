-- ===== src/Async/Loops.antt =====
-- `src/lib.rs`: `read_with`, `write_with` and `optimistic`. An `async` function is the state in which
-- its last poll left it, and a poll of it is a function of that state.
pub mod Ending
use async_io.Base.{
  ℕ, zero, suc, Option, none, some, Bool, true, false, IoResult, ok, err, Poll, pending, ready,
  if◌then◌else◌,
}
use async_io.Timers.{Waker}
use async_io.Reactor.{Platform, Dir, Reactor}
use async_io.Reactor.Sources.{Ready, new_ready}
use async_io.Reactor.Io.{poll_ready_future, drop_ready_future}
use async_io.Async.{is_would_block}

-- `optimistic` over a `Readable` or `Writable` future.
pub record Optimistic : Type 0 where
  pub polled : Bool
  pub fut : Ready

-- Where `read_with` or `write_with` is: about to try the operation, in the `await`, or returned.
pub data Progress : Type 0 where
  trying : Progress
  awaiting : Optimistic → Progress
  finished : Progress

unfoldable pub optimistic : Dir → Optimistic
optimistic dir = record { polled = false; fut = new_ready dir }

module _ (X : Platform) where
  -- The closure that `optimistic` polls; `none` if the source is not in the table, which a live
  -- handle excludes.
  unfoldable pub poll_optimistic :
      Reactor X
      → ℕ
      → Optimistic
      → Waker
      → Option (Poll (IoResult (Unit {0})) × Optimistic × Reactor X)
  poll_optimistic r key o k =
      if o.polled then some (ready (ok tt), o, r) else (elim (poll_ready_future X r key o.fut k) [
        | none ↦ none
        | some (res, f, r') ↦ some (res, record { polled = true; fut = f }, r')
      ])

module _ (X : Platform) (S R : Type 0) where
  abbrev pub Polled : Type 0
  Polled = Poll (IoResult R) × Progress × S × Reactor X

  -- One poll of `read_with` (in the direction `read`) or `write_with` (in `write`). `none` is out of
  -- fuel, or a poll after the function has returned, which panics.
  unfoldable pub poll_with :
      ℕ → Dir → (S → IoResult R × S) → S → Reactor X → ℕ → Progress → Waker → Option Polled
  unfolding optimistic
  poll_with zero dir op st r key at k = none
  poll_with (suc fuel) dir op st r key trying k =
      let (res, st') = op st in
      elim (is_would_block res) [
        | false ↦ some (ready res, finished, st', r)
        | true ↦ poll_with fuel dir op st' r key (awaiting (optimistic dir)) k
      ]
  poll_with (suc fuel) dir op st r key (awaiting o) k = elim (poll_optimistic X r key o k) [
    | none ↦ none
    | some (pending, o', r') ↦ some (pending, awaiting o', st, r')
    | some (ready (ok _), o', r') ↦ elim (drop_ready_future X r' key o'.fut) [
      | none ↦ none
      | some r'' ↦ poll_with fuel dir op st r'' key trying k
    ]
    | some (ready (err e), o', r') ↦ elim (drop_ready_future X r' key o'.fut) [
      | none ↦ none
      | some r'' ↦ some (ready (err e), finished, st, r'')
    ]
  ]
  poll_with (suc fuel) dir op st r key finished k = none
