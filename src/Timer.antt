-- ===== src/Timer.antt =====
-- `src/lib.rs`: `Timer`, with the value of `Instant::now()` and the waker of the context as
-- arguments. A method returns the timer and the reactor that it leaves.
pub mod Registered
pub mod Operations
pub mod Polling
pub mod Intervals
pub mod Fired
use async_io.Base.{
  ℕ, ◌+◌, ◌-◌, ◌*◌, ◌^◌, Bool, true, false, not, Option, none, some, Poll, pending, ready, leb,
  if◌then◌else◌,
}
use async_io.Timers.{Waker, will_wake}
use async_io.Reactor.{Platform, Reactor}
use async_io.Reactor.TimerQueue.{insert_timer, remove_timer}

pub record Timer : Type 0 where
  pub id_and_waker : Option (ℕ × Waker)
  pub when : Option ℕ
  pub period : ℕ

-- `Duration::MAX`, in nanoseconds.
abbrev pub duration_max : ℕ
duration_max = 2 ^ 64 * 1_000_000_000 - 1

unfoldable pub never : Timer
never = record { id_and_waker = none; when = none; period = duration_max }

unfoldable pub interval_at : ℕ → ℕ → Timer
interval_at start period = record { id_and_waker = none; when = some start; period = period }

unfoldable pub at : ℕ → Timer
unfolding interval_at
at instant = interval_at instant duration_max

unfoldable pub will_fire : Timer → Bool
will_fire t = elim t.when [ none ↦ false | some _ ↦ true ]

-- The match in `Future::poll`; `none` is `unreachable!()`.
unfoldable pub first_item : Poll (Option ℕ) → Option (Poll ℕ)
first_item (ready (some when)) = some (ready when)
first_item pending = some pending
first_item (ready none) = none

module _ (X : Platform) where
  -- `Instant::checked_add`.
  unfoldable pub checked_add : ℕ → ℕ → Option ℕ
  checked_add t d = if leb (t + d) X.instant_max then some (t + d) else none

  unfoldable pub after : ℕ → ℕ → Timer
  unfolding never at
  after now duration = elim (checked_add now duration) [ none ↦ never | some t ↦ at t ]

  unfoldable pub interval : ℕ → ℕ → Timer
  unfolding never interval_at
  interval now period = elim (checked_add now period) [
    | none ↦ never
    | some t ↦ interval_at t period
  ]

  -- The test and the call that `clear` and `drop` share.
  unfoldable pub deregister : Option ℕ → Option (ℕ × Waker) → Reactor X → Reactor X
  deregister (some when) (some (id, _)) r = remove_timer X r when id
  deregister _ _ r = r

  unfoldable pub clear : Timer → Reactor X → Timer × Reactor X
  unfolding deregister
  clear t r = (record t { when = none }, deregister t.when t.id_and_waker r)

  -- The re-registration at the end of `set_at` and `set_interval_at`.
  unfoldable pub reregister : ℕ → Timer → Option (ℕ × Waker) → Reactor X → Timer × Reactor X
  reregister instant t (some (_, waker)) r =
      let (id, r') = insert_timer X r instant waker in
      (record t { id_and_waker = some (id, waker) }, r')
  reregister instant t none r = (t, r)

  unfoldable pub set_at : Timer → ℕ → Reactor X → Timer × Reactor X
  unfolding clear reregister
  set_at t instant r =
      let (t', r') = clear t r in
      reregister instant (record t' { when = some instant }) t'.id_and_waker r'

  unfoldable pub set_interval_at : Timer → ℕ → ℕ → Reactor X → Timer × Reactor X
  unfolding clear reregister
  set_interval_at t start period r =
      let (t', r') = clear t r in
      reregister start (record t' { when = some start; period = period }) t'.id_and_waker r'

  unfoldable pub set_after : Timer → ℕ → ℕ → Reactor X → Timer × Reactor X
  unfolding set_at clear
  set_after t now duration r = elim (checked_add now duration) [
    | none ↦ clear t r
    | some instant ↦ set_at t instant r
  ]

  unfoldable pub set_interval : Timer → ℕ → ℕ → Reactor X → Timer × Reactor X
  unfolding set_interval_at clear
  set_interval t now period r = elim (checked_add now period) [
    | none ↦ clear t r
    | some instant ↦ set_interval_at t instant period r
  ]

  -- `Drop::drop`.
  unfoldable pub drop : Timer → Reactor X → Reactor X
  unfolding deregister
  drop t r = deregister t.when t.id_and_waker r

  -- Registers the timer in the reactor, for the task of the context.
  unfoldable pub register : Timer → ℕ → Waker → Reactor X → Timer × Reactor X
  register t when waker r =
      let (id, r') = insert_timer X r when waker in
      (record t { id_and_waker = some (id, waker); when = some when }, r')

  -- The branch of a timer that has fired at `when`.
  unfoldable pub fire : Timer → ℕ → Waker → Reactor X → Timer × Reactor X
  unfolding deregister register
  fire t when waker r =
      let r' = deregister (some when) t.id_and_waker r in
      let t' : Timer = record t { id_and_waker = none } in
      elim (checked_add when t.period) [
        | none ↦ (record t' { when = none }, r')
        | some next ↦ register t' next waker r'
      ]

  -- The branch of a timer that has not fired yet.
  unfoldable pub wait_more : Timer → ℕ → Option (ℕ × Waker) → Waker → Reactor X → Timer × Reactor X
  unfolding register
  wait_more t when none waker r = register t when waker r
  wait_more t when (some (id, w)) waker r =
      if not (will_wake w waker) then register t when waker (remove_timer X r when id) else (t, r)

  unfoldable pub poll_at :
      Timer → Option ℕ → ℕ → Waker → Reactor X → Poll (Option ℕ) × Timer × Reactor X
  unfolding fire wait_more
  poll_at t none now waker r = (pending, t, r)
  poll_at t (some when) now waker r =
      if leb when now
      then (let (t', r') = fire t when waker r in (ready (some when), t', r'))
      else (let (t', r') = wait_more t when t.id_and_waker waker r in (pending, t', r'))

  -- `Stream::poll_next`.
  unfoldable pub poll_next : Timer → ℕ → Waker → Reactor X → Poll (Option ℕ) × Timer × Reactor X
  unfolding poll_at
  poll_next t now waker r = poll_at t t.when now waker r

  -- `Future::poll`.
  unfoldable pub poll : Timer → ℕ → Waker → Reactor X → Option (Poll ℕ) × Timer × Reactor X
  unfolding poll_next
  poll t now waker r = let (p, t', r') = poll_next t now waker r in (first_item p, t', r')
