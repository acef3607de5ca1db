-- ===== src/Reactor/Fire/Laws.antt =====
-- Which timers `process_timers` fires, and how long the reactor may sleep afterwards.
use async_io.Base.{
  ℕ, ◌+◌, ◌≤◌, ◌<◌, ◌≡◌, refl, ap, sym, ◌∙◌, List, [], ◌∷◌, ◌++◌, map, none, some, arith, All, In,
  In-append_right, if◌then◌else◌, leb, inl,
}
use async_io.Timers.{Waker, Entry, below, split_off, lookup}
use async_io.Timers.Lookup.{lookup-split_off_now}
use async_io.Timers.Order.{After, IsSorted, split_off-IsSorted, below-append-split_off}
use async_io.Reactor.{Platform, Reactor}
use async_io.Reactor.TimerQueue.Schedule.{
  scheduled, Keeps, process_timer_ops_lem, process_timer_ops-Keeps, scheduled_of_nil,
}
use async_io.Reactor.Fire.{next_event, process_timers}

-- The timers that are due at `now`, in the order of the map.
unfoldable pub due : ℕ → List Entry → List Entry
due now [] = []
due now (x ∷ m) = let rest = due now m in if leb x.when now then x ∷ rest else rest

below-due : (now : ℕ) (m : List Entry) → below (now + 1) 0 m ≡ due now m
unfolding below due
below-due now [] = refl
below-due now (x ∷ m) = ground (arith, below-due now m)

split_off_later :
    (now : ℕ) (m : List Entry) → All (λ (x : Entry). now < x.when) (split_off (now + 1) 0 m)
unfolding split_off
split_off_later now [] = tt
split_off_later now (x ∷ m) = ground (arith, split_off_later now m)

due-In :
    (now w i : ℕ) (k : Waker) (m : List Entry)
    → lookup w i m ≡ some k
    → w ≤ now
    → In k (map (λ (x : Entry). x.waker) (due now m))
unfolding due lookup
due-In now w i k [] e h = cc
due-In now w i k (x ∷ m) e h = ground (arith, due-In now w i k m)

All-when_le : (v w i : ℕ) (m : List Entry) → v ≤ w → After w i m → All (λ (x : Entry). v ≤ x.when) m
All-when_le v w i [] h a = tt
All-when_le v w i (x ∷ m) h a = (ground arith, All-when_le v w i m h a.1)

All-later :
    (now : ℕ) (m : List Entry)
    → All (λ (x : Entry). now < x.when) m
    → All (λ (x : Entry). now + 0 ≤ x.when) m
All-later now [] a = tt
All-later now (x ∷ m) a = (omega arith, All-later now m a.1)

next_event_le :
    (now : ℕ) (ready m : List Entry)
    → IsSorted m
    → All (λ (x : Entry). now < x.when) m
    → (d : ℕ) → next_event now ready m ≡ some d
    → All (λ (x : Entry). now + d ≤ x.when) m
unfolding next_event
next_event_le now (y ∷ ready) m s a d e = let z : d ≡ 0 = ground arith in rw z (All-later now m a)
next_event_le now [] [] s a d e = tt
next_event_le now [] (x ∷ m) s a d e =
    (ground arith, All-when_le (now + d) x.when x.id m (ground arith) s.0)

next_event_exact :
    (now : ℕ) (ready m : List Entry)
    → All (λ (x : Entry). now < x.when) m
    → (d : ℕ) → next_event now ready m ≡ some d
    → 0 < d
    → (x : Entry) × In x m × (x.when ≡ now + d)
unfolding next_event
next_event_exact now (y ∷ ready) m a d e p = absurd (ground arith)
next_event_exact now [] [] a d e p = cc
next_event_exact now [] (x ∷ m) a d e p = (x, inl refl, ground arith)

next_event-none :
    (now : ℕ) (m : List Entry)
    → IsSorted m
    → next_event now (below (now + 1) 0 m) (split_off (now + 1) 0 m) ≡ none
    → m ≡ []
next_event-none now m s e =
    none_nil (below (now + 1) 0 m) (split_off (now + 1) 0 m)
      (below-append-split_off (now + 1) 0 m s) e
  where
    none_nil : (xs ys : List Entry) → xs ++ ys ≡ m → next_event now xs ys ≡ none → m ≡ []
    none_nil [] [] p q = sym p
    none_nil [] (y ∷ ys) p q = absurd (unfold next_event in ground arith)
    none_nil (x ∷ xs) ys p q = absurd (unfold next_event in ground arith)

module _ (X : Platform) where
  -- What stays scheduled is what is later than `now`.
  pub scheduled-process_timers :
      (r : Reactor X) (wakers : List Waker) (now : ℕ)
      → scheduled X (process_timers X r wakers now).2 ≡ split_off (now + 1) 0 (scheduled X r)
  unfolding process_timers
  scheduled-process_timers r wakers now =
      let (c, m, _) = process_timer_ops_lem X r in
      scheduled_of_nil X (process_timers X r wakers now).2 c ∙ ap (split_off (now + 1) 0) m

  pub process_timers-Keeps :
      (r : Reactor X) (wakers : List Waker) (now : ℕ) → Keeps X r (process_timers X r wakers now).2
  unfolding process_timers
  process_timers-Keeps r wakers now =
      let k = process_timer_ops-Keeps X r in
      record {
        poller = k.poller;
        ticker = k.ticker;
        sources = k.sources;
        id_generator = k.id_generator;
        capacity = k.capacity;
      }

  pub process_timers_wakers :
      (r : Reactor X) (wakers : List Waker) (now : ℕ)
      → (process_timers X r wakers now).1
        ≡ wakers ++ map (λ (x : Entry). x.waker) (due now (scheduled X r))
  unfolding process_timers
  process_timers_wakers r wakers now =
      rw ((process_timer_ops_lem X r).1, below-due now (scheduled X r)) refl

  process_timers_dur :
      (r : Reactor X) (wakers : List Waker) (now : ℕ)
      → (process_timers X r wakers now).0
        ≡ next_event now (below (now + 1) 0 (scheduled X r)) (split_off (now + 1) 0 (scheduled X r))
  unfolding process_timers
  process_timers_dur r wakers now = rw (process_timer_ops_lem X r).1 refl

  -- With a sorted schedule, `process_timers` splits it: every timer that is due fires, and their
  -- wakers stand in the order of the schedule behind those collected before; the later timers, and
  -- no others, stay scheduled; poller, sources, ticker, IDs and the queue's capacity are left
  -- alone.
  pub process_timers-schedule :
      (r : Reactor X) (wakers : List Waker) (now : ℕ)
      → IsSorted (scheduled X r)
      → (scheduled X r ≡ due now (scheduled X r) ++ scheduled X (process_timers X r wakers now).2)
        × ((process_timers X r wakers now).1
            ≡ wakers ++ map (λ (x : Entry). x.waker) (due now (scheduled X r)))
        × All (λ (x : Entry). now < x.when) (scheduled X (process_timers X r wakers now).2)
        × Keeps X r (process_timers X r wakers now).2
  process_timers-schedule r wakers now s = (
    rw (scheduled-process_timers r wakers now, ← below-due now (scheduled X r))
        (sym (below-append-split_off (now + 1) 0 (scheduled X r) s)),
    process_timers_wakers r wakers now,
    rw (scheduled-process_timers r wakers now) (split_off_later now (scheduled X r)),
    process_timers-Keeps r wakers now,
  )

  -- For a scheduled timer: if it is due, `process_timers` puts its waker among those to wake and
  -- the timer is no longer scheduled; if it is later, it stays scheduled.
  pub process_timers-lookup :
      (r : Reactor X) (wakers : List Waker) (now when id : ℕ) (k : Waker)
      → lookup when id (scheduled X r) ≡ some k
      → (when ≤ now
          → In k (process_timers X r wakers now).1
            × (lookup when id (scheduled X (process_timers X r wakers now).2) ≡ none))
        × (now < when → lookup when id (scheduled X (process_timers X r wakers now).2) ≡ some k)
  process_timers-lookup r wakers now when id k e =
      rw
        (
          scheduled-process_timers r wakers now,
          process_timers_wakers r wakers now,
          lookup-split_off_now now when id (scheduled X r),
        )
        (
          λ h. (In-append_right k wakers _ (due-In now when id k _ e h), ground arith),
          λ h. ground arith,
        )

  -- With a sorted schedule, the duration that `process_timers` returns never lets the reactor sleep
  -- past a timer: no timer that stays scheduled is due before `now + d`. It is `none` only if no
  -- timer was scheduled at all, and if it is not 0, some timer that stays scheduled is due at `now
  -- + d`.
  pub process_timers-timeout :
      (r : Reactor X) (wakers : List Waker) (now : ℕ)
      → IsSorted (scheduled X r)
      → ((process_timers X r wakers now).0 ≡ none → scheduled X r ≡ [])
        × ((d : ℕ)
            → (process_timers X r wakers now).0 ≡ some d
            → All (λ (x : Entry). now + d ≤ x.when) (scheduled X (process_timers X r wakers now).2)
              × (0 < d
                  → (x : Entry) × In x (scheduled X (process_timers X r wakers now).2)
                    × (x.when ≡ now + d)))
  process_timers-timeout r wakers now s =
      let m = scheduled X r in
      rw (scheduled-process_timers r wakers now, process_timers_dur r wakers now)
        (
          next_event-none now m s,
          λ d e. (
            next_event_le now _ _ (split_off-IsSorted (now + 1) 0 m s) (split_off_later now m) d e,
            next_event_exact now _ _ (split_off_later now m) d e,
          ),
        )
