-- ===== src/Timer/Intervals.antt =====
-- Timers polled over and over: intervals do not drift, and a one-shot timer fires once.
use async_io.Base.{
  ℕ, ◌+◌, ◌≤◌, ◌<◌, ◌≡◌, refl, ◌∙◌, ap, List, [], ◌∷◌, map, Option, none, some, arith, inl, inr,
  Option-cases, Poll, pending, ready,
}
use async_io.Timers.{Waker}
use async_io.Reactor.{Platform, Reactor}
use async_io.Timer.{
  Timer, fire, register, poll_next, checked_add, at, interval_at, duration_max, set_at,
}
use async_io.Timer.Registered.{IsValid, NoWrap}
use async_io.Timer.Operations.{set_at_lem}
use async_io.Timer.Polling.{poll_next_at, poll_at_due, poll_next_never}

-- The deadlines of an interval, one for each poll.
abbrev pub deadlines : ℕ → ℕ → List (ℕ × Waker) → List (Poll (Option ℕ))
deadlines when period [] = []
deadlines when period (p ∷ ps) = ready (some when) ∷ deadlines (when + period) period ps

module _ (X : Platform) where
  -- What a sequence of polls returns, each at an instant and for a task.
  unfoldable pub poll_all : Timer → Reactor X → List (ℕ × Waker) → List (Poll (Option ℕ))
  poll_all t r [] = []
  poll_all t r ((now, k) ∷ ps) = let (p, t', r') = poll_next X t now k r in p ∷ poll_all t' r' ps

  -- Each poll comes at or after its deadline, and no deadline overflows.
  abbrev pub IsLate : ℕ → ℕ → List (ℕ × Waker) → Type 0
  IsLate when period [] = Unit {0}
  IsLate when period ((now, k) ∷ ps) =
      (when ≤ now) × (when + period ≤ X.instant_max) × IsLate (when + period) period ps

  fire_period :
      (t : Timer) (when : ℕ) (k : Waker) (r : Reactor X)
      → ((fire X t when k r).0.when ≡ checked_add X when t.period)
        × ((fire X t when k r).0.period ≡ t.period)
  unfolding fire register
  fire_period t when k r = elim (Option-cases (checked_add X when t.period)) [
    | inl e ↦ rw (e, fire) (refl, refl)
    | inr (next, e) ↦ rw (e, fire) (refl, refl)
  ]

  poll_next-fire :
      (t : Timer) (when now : ℕ) (k : Waker) (r : Reactor X)
      → t.when ≡ some when
      → when ≤ now
      → poll_next X t now k r ≡ (ready (some when), (fire X t when k r).0, (fire X t when k r).1)
  poll_next-fire t when now k r e h =
      poll_next_at X t (some when) now k r e ∙ poll_at_due X t when now k r h

  -- An interval timer does not drift: if each of a sequence of polls comes at or after its
  -- deadline, however late, and no deadline overflows, the n-th of them returns exactly `start + n
  -- * period`.
  pub poll_all_interval :
      (t : Timer) (when period : ℕ) (r : Reactor X) (ps : List (ℕ × Waker))
      → t.when ≡ some when
      → t.period ≡ period
      → IsLate when period ps
      → poll_all t r ps ≡ deadlines when period ps
  unfolding poll_all checked_add
  poll_all_interval t when period r [] e f late = refl
  poll_all_interval t when period r ((now, k) ∷ ps) e f late =
      let (next, same) = fire_period t when k r in
      let fits : checked_add X when t.period ≡ some (when + period) = ground arith in
      rw (poll_next-fire t when now k r e late.0) (
        ap (◌∷◌ (ready (some when))) (
          poll_all_interval (fire X t when k r).0 (when + period) period (fire X t when k r).1 ps
            (next ∙ fits) (same ∙ f) late.2))

  poll_all_never :
      (t : Timer) (r : Reactor X) (ps : List (ℕ × Waker))
      → t.when ≡ none
      → poll_all t r ps ≡ map (λ _. pending) ps
  unfolding poll_all
  poll_all_never t r [] e = refl
  poll_all_never t r ((now, k) ∷ ps) e =
      rw (poll_next_never X t now k r e) (ap (◌∷◌ pending) (poll_all_never t r ps e))

  -- On a platform whose instants end less than `Duration::MAX` after the instant, a timer made by
  -- `at` and polled at or after its instant returns it, once: every later poll is pending.
  poll_all-at :
      (instant now : ℕ) (k : Waker) (r : Reactor X) (ps : List (ℕ × Waker))
      → X.instant_max < instant + duration_max
      → instant ≤ now
      → poll_all (at instant) r ((now, k) ∷ ps) ≡ ready (some instant) ∷ map (λ _. pending) ps
  unfolding poll_all checked_add at interval_at
  poll_all-at instant now k r ps big h =
      let (next, same) = fire_period (at instant) instant k r in
      let over : checked_add X instant duration_max ≡ none = ground arith in
      rw (poll_next-fire (at instant) instant now k r refl h)
        (ap (◌∷◌ (ready (some instant))) (poll_all_never _ _ ps (next ∙ over)))

  -- `set_at` does not make an interval timer a one-shot timer: for a valid timer, a generator that
  -- does not wrap around and an instant that has come, the poll after `set_at` returns that
  -- instant, and if its old period later does not overflow, the timer will fire again then.
  pub set_at_repeats :
      (t : Timer) (instant now : ℕ) (k : Waker) (r : Reactor X)
      → IsValid X t r
      → NoWrap X r
      → instant ≤ now
      → instant + t.period ≤ X.instant_max
      → ((poll_next X (set_at X t instant r).0 now k (set_at X t instant r).1).0
          ≡ ready (some instant))
        × ((poll_next X (set_at X t instant r).0 now k (set_at X t instant r).1).1.when
            ≡ some (instant + t.period))
  unfolding checked_add
  set_at_repeats t instant now k r v n h fits =
      let (_, when, period, _) = set_at_lem X t instant r v n in
      let t' = (set_at X t instant r).0 in
      let r' = (set_at X t instant r).1 in
      let (next, _) = fire_period t' instant k r' in
      let more : checked_add X instant t'.period ≡ some (instant + t.period) =
        rw period (ground arith) in
      rw (poll_next-fire t' instant now k r' when h) (refl, next ∙ more)
