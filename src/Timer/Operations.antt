-- ===== src/Timer/Operations.antt =====
-- `Timer::clear`, `set_at`, `set_interval_at`, `set_after`, `set_interval` and `Drop::drop` keep
-- the registration of the timer and leave the other timers alone.
use async_io.Base.{
  ℕ, ◌≤◌, ◌≡◌, refl, ◌∙◌, List, Option, none, some, arith, inl, inr, ◌⊎◌, In, Option-cases,
}
use async_io.Timers.{Waker, lookup}
use async_io.Reactor.{Platform, Reactor}
use async_io.Reactor.TimerQueue.Schedule.{scheduled, HasRoom}
use async_io.Reactor.TimerQueue.{insert_timer}
use async_io.Reactor.Fire.{process_timers}
use async_io.Reactor.Fire.Laws.{process_timers-lookup}
use async_io.Timer.{
  Timer, deregister, clear, reregister, set_at, set_interval_at, set_after, set_interval, drop,
  checked_add,
}
use async_io.Timer.Registered.{
  lookup_registered, IsRegistered, IsValid, NoWrap, KeepsOthers, deregister-IsValid,
  deregister-KeepsOthers, insert_timer-IsValid, insert_timer-KeepsOthers, deregister_lem,
}

module _ (X : Platform) where
  -- A valid timer that is cleared stays valid, has no deadline, keeps its ID and waker, and leaves
  -- the entries of the other timers as they were.
  pub clear_lem :
      (t : Timer) (r : Reactor X)
      → IsValid X t r
      → IsValid X (clear X t r).0 (clear X t r).1
        × ((clear X t r).0.when ≡ none)
        × ((clear X t r).0.id_and_waker ≡ t.id_and_waker)
        × KeepsOthers X t.id_and_waker r (clear X t r).1
  unfolding clear
  clear_lem t r v = (
    deregister-IsValid X t (record t { when = none }) r refl refl v,
    refl,
    refl,
    deregister-KeepsOthers X t.when t.id_and_waker r v.room,
  )

  -- A valid timer that holds an ID leaves no entry under it behind when it is dropped, and the
  -- entries of the other timers are as they were.
  pub drop_lem :
      (t : Timer) (r : Reactor X) (id : ℕ) (k : Waker)
      → IsValid X t r
      → t.id_and_waker ≡ some (id, k)
      → ((w : ℕ) → lookup w id (scheduled X (drop X t r)) ≡ none)
        × KeepsOthers X t.id_and_waker r (drop X t r)
  unfolding drop
  drop_lem t r id k v e = (
    gone t.id_and_waker e
        (deregister-IsValid X t (record t { when = none }) r refl refl v).registered,
    deregister-KeepsOthers X t.when t.id_and_waker r v.room,
  )
    where
      gone :
          (idw : Option (ℕ × Waker))
          → idw ≡ some (id, k)
          → IsRegistered none idw
              (deregister X t.when t.id_and_waker r).id_generator
              (scheduled X (deregister X t.when t.id_and_waker r))
          → (w : ℕ) → lookup w id (scheduled X (deregister X t.when t.id_and_waker r)) ≡ none
      gone none f h w = cc
      gone (some (id', k')) f h w = ground (arith, h.1 w)

  deregister-NoWrap :
      (t : Timer) (r : Reactor X)
      → HasRoom X r
      → NoWrap X r
      → NoWrap X (deregister X t.when t.id_and_waker r)
  deregister-NoWrap t r h n = rw (deregister_lem X t.when t.id_and_waker r h).1.id_generator n

  -- The state that `set_at` and `set_interval_at` leave, for a timer with the new deadline.
  reregister_lem :
      (t : Timer) (idw : Option (ℕ × Waker)) (instant : ℕ) (r : Reactor X)
      → t.id_and_waker ≡ idw
      → t.when ≡ some instant
      → IsValid X (record t { when = none }) r
      → NoWrap X r
      → IsValid X (reregister X instant t idw r).0 (reregister X instant t idw r).1
        × ((reregister X instant t idw r).0.when ≡ some instant)
        × ((reregister X instant t idw r).0.period ≡ t.period)
        × KeepsOthers X idw r (reregister X instant t idw r).1
  unfolding reregister
  reregister_lem t none instant r f e v n = (
    record { room = v.room; issued = v.issued; registered = rw (e, f) tt },
    e,
    refl,
    λ w id lt o. refl,
  )
  reregister_lem t (some (own, k)) instant r f e v n = (
    insert_timer-IsValid X _ instant k r v.room v.issued n e refl,
    e,
    refl,
    λ w id lt o. insert_timer-KeepsOthers X instant k r w id v.room lt,
  )

  KeepsOthers-trans :
      (idw : Option (ℕ × Waker)) (r r' r'' : Reactor X)
      → r'.id_generator ≡ r.id_generator
      → KeepsOthers X idw r r'
      → KeepsOthers X idw r' r''
      → KeepsOthers X idw r r''
  KeepsOthers-trans idw r r' r'' e h h' w id lt o = h' w id (rw e lt) o ∙ h w id lt o

  -- For a valid timer and a generator that does not wrap around: `set_at` leaves a valid timer with
  -- the new deadline and the old period, and the entries of the other timers as they were.
  pub set_at_lem :
      (t : Timer) (instant : ℕ) (r : Reactor X)
      → IsValid X t r
      → NoWrap X r
      → IsValid X (set_at X t instant r).0 (set_at X t instant r).1
        × ((set_at X t instant r).0.when ≡ some instant)
        × ((set_at X t instant r).0.period ≡ t.period)
        × KeepsOthers X t.id_and_waker r (set_at X t instant r).1
  unfolding set_at
  set_at_lem t instant r v n =
      let (v', _, _, others) = clear_lem t r v in
      let (a, b, c, d) =
        reregister_lem (record t { when = some instant }) t.id_and_waker instant _ refl refl v'
          (deregister-NoWrap t r v.room n) in
      (
        a,
        b,
        c,
        KeepsOthers-trans t.id_and_waker r _ _
            (deregister_lem X t.when t.id_and_waker r v.room).1.id_generator others d,
      )

  -- For a valid timer and a generator that does not wrap around: `set_interval_at` leaves a valid
  -- timer with the new deadline and the new period, and the entries of the other timers as they
  -- were.
  pub set_interval_at_lem :
      (t : Timer) (start period : ℕ) (r : Reactor X)
      → IsValid X t r
      → NoWrap X r
      → IsValid X (set_interval_at X t start period r).0 (set_interval_at X t start period r).1
        × ((set_interval_at X t start period r).0.when ≡ some start)
        × ((set_interval_at X t start period r).0.period ≡ period)
        × KeepsOthers X t.id_and_waker r (set_interval_at X t start period r).1
  unfolding set_interval_at
  set_interval_at_lem t start period r v n =
      let (v', _, _, others) = clear_lem t r v in
      let (a, b, c, d) =
        reregister_lem (record t { when = some start; period = period }) t.id_and_waker start _ refl
          refl (record { room = v'.room; issued = v'.issued; registered = v'.registered })
          (deregister-NoWrap t r v.room n) in
      (
        a,
        b,
        c,
        KeepsOthers-trans t.id_and_waker r _ _
            (deregister_lem X t.when t.id_and_waker r v.room).1.id_generator others d,
      )

  -- For a valid timer and a generator that does not wrap around: `set_after` leaves a valid timer
  -- with the old period and the deadline `now + duration`, or without a deadline if that instant
  -- overflows, and the entries of the other timers as they were.
  set_after_lem :
      (t : Timer) (now duration : ℕ) (r : Reactor X)
      → IsValid X t r
      → NoWrap X r
      → IsValid X (set_after X t now duration r).0 (set_after X t now duration r).1
        × ((set_after X t now duration r).0.when ≡ checked_add X now duration)
        × ((set_after X t now duration r).0.period ≡ t.period)
        × KeepsOthers X t.id_and_waker r (set_after X t now duration r).1
  unfolding set_after
  set_after_lem t now duration r v n = elim (Option-cases (checked_add X now duration)) [
    | inl e ↦
        rw (e, set_after) (let (a, b, _, d) = clear_lem t r v in (a, b, unfold clear in refl, d))
    | inr (instant, e) ↦ rw (e, set_after) (set_at_lem t instant r v n)
  ]

  -- For a valid timer and a generator that does not wrap around: `set_interval` leaves a valid
  -- timer with the deadline `now + period`, or without a deadline if that instant overflows, and
  -- with the new period unless it overflows; the entries of the other timers stay as they were.
  pub set_interval_lem :
      (t : Timer) (now period : ℕ) (r : Reactor X)
      → IsValid X t r
      → NoWrap X r
      → IsValid X (set_interval X t now period r).0 (set_interval X t now period r).1
        × ((set_interval X t now period r).0.when ≡ checked_add X now period)
        × (((set_interval X t now period r).0.period ≡ period) ⊎ (checked_add X now period ≡ none))
        × KeepsOthers X t.id_and_waker r (set_interval X t now period r).1
  unfolding set_interval
  set_interval_lem t now period r v n = elim (Option-cases (checked_add X now period)) [
    | inl e ↦ rw (e, set_interval) (let (a, b, _, d) = clear_lem t r v in (a, b, inr refl, d))
    | inr (instant, e) ↦
        rw (e, set_interval)
          (let (a, b, c, d) = set_interval_at_lem t instant period r v n in (a, b, inl c, d))
  ]

  reregister_waker :
      (t : Timer) (idw : Option (ℕ × Waker)) (instant : ℕ) (r : Reactor X) (id : ℕ) (k : Waker)
      → idw ≡ some (id, k)
      → (reregister X instant t idw r).0.id_and_waker ≡ some ((insert_timer X r instant k).0, k)
  unfolding reregister
  reregister_waker t none instant r id k e = cc
  reregister_waker t (some (id', k')) instant r id k e = ground arith

  set_at_waker :
      (t : Timer) (instant : ℕ) (r : Reactor X) (id : ℕ) (k : Waker)
      → t.id_and_waker ≡ some (id, k)
      → (set_at X t instant r).0.id_and_waker
        ≡ some ((insert_timer X (deregister X t.when t.id_and_waker r) instant k).0, k)
  unfolding set_at
  set_at_waker t instant r id k e = reregister_waker _ t.id_and_waker instant _ id k e

  -- For a valid timer that holds a waker, and a generator that does not wrap around: resetting the
  -- timer by `set_at` does not lose the task that waits for it, since every round of timers at or
  -- after the new deadline wakes it.
  pub set_at_wakes :
      (t : Timer) (instant now : ℕ) (r : Reactor X) (id : ℕ) (k : Waker) (wakers : List Waker)
      → IsValid X t r
      → NoWrap X r
      → t.id_and_waker ≡ some (id, k)
      → instant ≤ now
      → In k (process_timers X (set_at X t instant r).1 wakers now).1
  set_at_wakes t instant now r id k wakers v n e h =
      let (w, when, _, _) = set_at_lem t instant r v n in
      let at_deadline =
        lookup_registered (set_at X t instant r).0.when (set_at X t instant r).0.id_and_waker _ _
          instant _ k when (set_at_waker t instant r id k e) w.registered in
      let both =
        process_timers-lookup X (set_at X t instant r).1 wakers now instant _ k at_deadline in
      (both.0 h).0
