-- ===== src/Timer/Polling.antt =====
-- `Timer` as a stream and as a future: what a poll returns, registers and leaves.
use native.Mathlib.Decide.{dec_le}
use async_io.Base.{
  ℕ, ◌≤◌, ◌<◌, ◌≡◌, refl, ◌≢◌, ◌∙◌, ap, List, Option, none, some, arith, inl, inr, ◌⊎◌, In,
  Option-cases, Bool-cases, Poll, pending, ready, leb, ==_iff, true, false,
}
use async_io.Timers.{Waker, will_wake}
use async_io.Reactor.{Platform, Reactor}
use async_io.Reactor.TimerQueue.{insert_timer}
use async_io.Reactor.TimerQueue.Schedule.{scheduled, HasRoom}
use async_io.Reactor.Fire.{process_timers}
use async_io.Reactor.Fire.Laws.{process_timers-lookup}
use async_io.Timer.{
  Timer, deregister, register, fire, wait_more, poll_at, poll_next, poll, first_item, checked_add,
}
use async_io.Timer.Registered.{
  lookup_registered, IsValid, IsValidOrFired, NoWrap, KeepsOthers, deregister-IsValid,
  deregister_fired-IsValid, deregister-KeepsOthers, insert_timer-IsValid, insert_timer-KeepsOthers,
  deregister_lem,
}

module _ (X : Platform) where
  -- The timer holds a waker of the task `k`.
  abbrev pub Holds : Timer → Waker → Type 0
  Holds t k = (id : ℕ) × (t.id_and_waker ≡ some (id, k))

  -- A registration at a new ID, for a timer that was deregistered.
  register_lem :
      (t : Timer) (when : ℕ) (k : Waker) (r : Reactor X)
      → HasRoom X r
      → IsValid X (record t { when = none }) r
      → NoWrap X r
      → IsValid X (register X t when k r).0 (register X t when k r).1
        × Holds (register X t when k r).0 k
        × KeepsOthers X t.id_and_waker r (register X t when k r).1
  unfolding register
  register_lem t when k r h v n = (
    insert_timer-IsValid X _ when k r v.room v.issued n refl refl,
    ((insert_timer X r when k).0, refl),
    λ w id lt o. insert_timer-KeepsOthers X when k r w id v.room lt,
  )

  -- The timer and the reactor after a poll that fired at `when`.
  fire_lem :
      (t : Timer) (when : ℕ) (k : Waker) (r : Reactor X)
      → t.when ≡ some when
      → IsValidOrFired X t r
      → NoWrap X r
      → IsValid X (fire X t when k r).0 (fire X t when k r).1
        × ((fire X t when k r).0.when ≡ checked_add X when t.period)
        × ((fire X t when k r).0.period ≡ t.period)
        × ((checked_add X when t.period ≢ none) → Holds (fire X t when k r).0 k)
        × KeepsOthers X t.id_and_waker r (fire X t when k r).1
  unfolding fire
  fire_lem t when k r at v n =
      let gone =
        let still = deregister_fired-IsValid X t (record t { when = none }) r refl refl v in
        rw at at still in
      let left : IsValid X (record t { id_and_waker = none; when = none })
          (deregister X (some when) t.id_and_waker r) =
        record { room = gone.room; issued = gone.issued; registered = tt } in
      let keeps = (deregister_lem X (some when) t.id_and_waker r v.room).1 in
      let others = deregister-KeepsOthers X (some when) t.id_and_waker r v.room in
      elim (Option-cases (checked_add X when t.period)) [
        | inl f ↦ rw (f, fire) (left, refl, refl, λ ne. absurd (ne refl), others)
        | inr (next, f) ↦
            rw (f, fire)
              (let (a, b, c) =
                  register_lem (record t { id_and_waker = none }) next k _ left.room left
                    (rw keeps.id_generator n) in
                (
                  a,
                  refl,
                  refl,
                  λ _. b,
                  λ w id lt o. c w id (rw keeps.id_generator lt) tt ∙ others w id lt o,
                ))
      ]

  -- The timer and the reactor after a poll before the deadline.
  wait_more_lem :
      (t : Timer) (when : ℕ) (idw : Option (ℕ × Waker)) (k : Waker) (r : Reactor X)
      → t.id_and_waker ≡ idw
      → t.when ≡ some when
      → IsValid X t r
      → NoWrap X r
      → IsValid X (wait_more X t when idw k r).0 (wait_more X t when idw k r).1
        × ((wait_more X t when idw k r).0.when ≡ some when)
        × ((wait_more X t when idw k r).0.period ≡ t.period)
        × Holds (wait_more X t when idw k r).0 k
        × KeepsOthers X idw r (wait_more X t when idw k r).1
  unfolding wait_more deregister
  wait_more_lem t when none k r f e v n =
      let left : IsValid X (record t { when = none; id_and_waker = none }) r = record {
        room = v.room;
        issued = v.issued;
        registered = tt;
      } in
      let (a, b, c) = register_lem (record t { id_and_waker = none }) when k r v.room left n in
      (a, refl, refl, b, c)
  wait_more_lem t when (some (id, w)) k r f e v n = elim (Bool-cases (will_wake w k)) [
    | inl same ↦
        rw (same, wait_more)
          (
            v,
            e,
            refl,
            (id, f ∙ ap (λ (j : Waker). some (id, j)) ((==_iff w k).0 same)),
            λ w j lt o. refl,
          )
    | inr other ↦
        rw (other, wait_more)
          (let old : Timer = record t { when = some when; id_and_waker = some (id, w) } in
            let v' : IsValid X old r = record {
              room = v.room;
              issued = v.issued;
              registered = rw (e, f) at v.registered;
            } in
            let gone = deregister-IsValid X old (record old { when = none }) r refl refl v' in
            let keeps = (deregister_lem X (some when) (some (id, w)) r v.room).1 in
            let (a, b, c) = register_lem old when k _ gone.room gone (rw keeps.id_generator n) in
            (
              a,
              refl,
              refl,
              b,
              λ u j lt o.
                  c u j (rw keeps.id_generator lt) o
                  ∙ deregister-KeepsOthers X (some when) (some (id, w)) r v.room u j lt o,
            ))
  ]

  pub poll_next_at :
      (t : Timer) (w : Option ℕ) (now : ℕ) (k : Waker) (r : Reactor X)
      → t.when ≡ w
      → poll_next X t now k r ≡ poll_at X t w now k r
  unfolding poll_next
  poll_next_at t w now k r e = ap (λ (u : Option ℕ). poll_at X t u now k r) e

  poll_at_early :
      (t : Timer) (when now : ℕ) (k : Waker) (r : Reactor X)
      → now < when
      → poll_at X t (some when) now k r ≡ (
        pending,
        (wait_more X t when t.id_and_waker k r).0,
        (wait_more X t when t.id_and_waker k r).1,
      )
  unfolding poll_at
  poll_at_early t when now k r h =
      let early : leb when now ≡ false = ground arith in rw (early, poll_at) refl

  pub poll_at_due :
      (t : Timer) (when now : ℕ) (k : Waker) (r : Reactor X)
      → when ≤ now
      → poll_at X t (some when) now k r
        ≡ (ready (some when), (fire X t when k r).0, (fire X t when k r).1)
  unfolding poll_at
  poll_at_due t when now k r h =
      let due : leb when now ≡ true = ground arith in rw (due, poll_at) refl

  -- A timer without a deadline is pending, and the poll changes nothing.
  pub poll_next_never :
      (t : Timer) (now : ℕ) (k : Waker) (r : Reactor X)
      → t.when ≡ none
      → poll_next X t now k r ≡ (pending, t, r)
  unfolding poll_at
  poll_next_never t now k r e = poll_next_at t none now k r e

  -- For a valid timer and a generator that does not wrap around: before the deadline a poll is
  -- pending, keeps deadline and period, holds the waker of the polling task, keeps the timer valid
  -- and leaves the entries of the other timers as they were.
  pub poll_next_early :
      (t : Timer) (when now : ℕ) (k : Waker) (r : Reactor X)
      → t.when ≡ some when
      → now < when
      → IsValid X t r
      → NoWrap X r
      → ((poll_next X t now k r).0 ≡ pending)
        × IsValid X (poll_next X t now k r).1 (poll_next X t now k r).2
        × ((poll_next X t now k r).1.when ≡ some when)
        × ((poll_next X t now k r).1.period ≡ t.period)
        × Holds (poll_next X t now k r).1 k
        × KeepsOthers X t.id_and_waker r (poll_next X t now k r).2
  poll_next_early t when now k r e h v n =
      let (a, b, c, d, f) = wait_more_lem t when t.id_and_waker k r refl e v n in
      rw (poll_next_at t (some when) now k r e, poll_at_early t when now k r h)
        (refl, a, b, c, d, f)

  -- For a timer whose entry is still scheduled, or has been taken out of the map when it fired, and
  -- a generator that does not wrap around: from the deadline on a poll returns the deadline itself,
  -- however late it is. The next deadline is a period later, held for the polling task, or there is
  -- none if that instant overflows. The timer is valid then, its period stays, and the entries of
  -- the other timers stay as they were.
  pub poll_next_due :
      (t : Timer) (when now : ℕ) (k : Waker) (r : Reactor X)
      → t.when ≡ some when
      → when ≤ now
      → IsValidOrFired X t r
      → NoWrap X r
      → ((poll_next X t now k r).0 ≡ ready (some when))
        × IsValid X (poll_next X t now k r).1 (poll_next X t now k r).2
        × ((poll_next X t now k r).1.when ≡ checked_add X when t.period)
        × ((poll_next X t now k r).1.period ≡ t.period)
        × (checked_add X when t.period ≢ none → Holds (poll_next X t now k r).1 k)
        × KeepsOthers X t.id_and_waker r (poll_next X t now k r).2
  poll_next_due t when now k r e h v n =
      let (a, b, c, d, f) = fire_lem t when k r e v n in
      rw (poll_next_at t (some when) now k r e, poll_at_due t when now k r h) (refl, a, b, c, d, f)

  -- For a valid timer and a generator that does not wrap around: a poll before the deadline is not
  -- forgotten, since every round of timers at or after the deadline wakes the task that polled.
  pub poll_next_wakes :
      (t : Timer) (when now later : ℕ) (k : Waker) (r : Reactor X) (wakers : List Waker)
      → t.when ≡ some when
      → now < when
      → when ≤ later
      → IsValid X t r
      → NoWrap X r
      → In k (process_timers X (poll_next X t now k r).2 wakers later).1
  poll_next_wakes t when now later k r wakers e h l v n =
      let (_, w, at_when, _, (id, held), _) = poll_next_early t when now k r e h v n in
      let entry =
        lookup_registered _ _ _ (scheduled X (poll_next X t now k r).2) when id k at_when held
          w.registered in
      let both = process_timers-lookup X (poll_next X t now k r).2 wakers later when id k entry in
      (both.0 l).0

  -- `Future::poll` never reaches `unreachable!()`: either it and `poll_next` are pending, or both
  -- return the deadline, which is not later than now.
  poll_total :
      (t : Timer) (now : ℕ) (k : Waker) (r : Reactor X)
      → (((poll X t now k r).0 ≡ some pending) × ((poll_next X t now k r).0 ≡ pending))
        ⊎ ((when : ℕ) × ((poll X t now k r).0 ≡ some (ready when))
            × ((poll_next X t now k r).0 ≡ ready (some when))
            × (t.when ≡ some when)
            × (when ≤ now))
  unfolding poll first_item
  poll_total t now k r = elim (Option-cases t.when) [
    | inl e ↦ let q = poll_next_never t now k r e in inl (ap answer q, ap polled q)
    | inr (when, e) ↦ elim (dec_le when now) [
      | yes due ↦
          let q = poll_next_at t (some when) now k r e ∙ poll_at_due t when now k r due in
          inr (when, ap answer q, ap polled q, e, due)
      | no early ↦
          let q =
            poll_next_at t (some when) now k r e ∙ poll_at_early t when now k r (omega arith) in
          inl (ap answer q, ap polled q)
    ]
  ]
    where
      polled : Poll (Option ℕ) × Timer × Reactor X → Poll (Option ℕ)
      polled p = p.0

      answer : Poll (Option ℕ) × Timer × Reactor X → Option (Poll ℕ)
      answer p = first_item p.0
