-- ===== src/Driver/Handshake.antt =====
-- No wakeup is lost between a waker and a thread that blocks on I/O in `block_on`.
use async_io.Base.{◌<◌, ◌≡◌, refl, sym, subst, ◌⊎◌, inl, inr, Bool, true, arith}
use async_io.External.Parker.{ParkerCrate}
use async_io.Driver.{
  Pc, polling, first_check, reacting, try_lock, enter, flagged, waiting, waking, returned, hogging,
  sleeping, done, Seen, BlockOn, start, drop_guard, go_to, take_token, advance_from, advance,
  wake_self, wake_unpark, wake_check,
}

module _ (K : ParkerCrate) where
  -- A parked thread moves only when it is notified.
  abbrev pub CanMove : Pc → Bool → Type 0
  CanMove hogging n = n ≡ true
  CanMove sleeping n = n ≡ true
  CanMove _ n = Unit {0}

  -- Where the thread itself may wake its waker: while it polls the future, and while `react` wakes.
  abbrev pub Runs : Pc → Type 0
  Runs polling = Unit {0}
  Runs reacting = Unit {0}
  Runs waking = Unit {0}
  Runs _ = ⊥

  -- The thread moves, or wakes itself, or other threads wake it; in any order.
  pub data Step (s : BlockOn K) : BlockOn K → Type 0 where
    moves : (seen : Seen) → CanMove s.pc (K.notified s.parker) → Step s (advance K s seen)
    wakes_self : Runs s.pc → Step s (wake_self K s)
    unparks : Step s (wake_unpark K s)
    checks : 0 < s.checking → Step s (wake_check K s)

  pub data Reach : BlockOn K → Type 0 where
    here : Reach (start K)
    next : {s t : BlockOn K} → Reach s → Step s t → Reach t

  -- A thread in `wait` has its flag up, and if it has been notified, the poller has been notified
  -- too or a waker is about to see to it.
  abbrev WaitInv : Pc → BlockOn K → Type 0
  WaitInv flagged s = s.io_blocked ≡ true
  WaitInv waiting s =
      (s.io_blocked ≡ true)
      × (K.notified s.parker ≡ true → (s.poll_notified ≡ true) ⊎ (0 < s.checking))
  WaitInv _ s = Unit {0}

  abbrev Inv : BlockOn K → Type 0
  Inv s = WaitInv s.pc s

  advance_from-Inv :
      (pc : Pc) (s : BlockOn K) (seen : Seen) → WaitInv pc s → Inv (advance_from K pc s seen)
  unfolding advance_from take_token go_to drop_guard
  advance_from-Inv polling s seen v = ground arith
  advance_from-Inv first_check s seen v = ground arith
  advance_from-Inv reacting s seen v = tt
  advance_from-Inv try_lock s seen v = ground arith
  advance_from-Inv enter s seen v = refl
  advance_from-Inv flagged s seen v = ground (arith, K.notified-park_now s.parker)
  advance_from-Inv waiting s seen v = tt
  advance_from-Inv waking s seen v = tt
  advance_from-Inv returned s seen v = ground arith
  advance_from-Inv hogging s seen v = tt
  advance_from-Inv sleeping s seen v = tt
  advance_from-Inv done s seen v = tt

  wake_self-Inv : (pc : Pc) (s : BlockOn K) → s.pc ≡ pc → Runs pc → Inv (wake_self K s)
  unfolding wake_self
  wake_self-Inv polling s e h = ground arith
  wake_self-Inv reacting s e h = ground arith
  wake_self-Inv waking s e h = ground arith
  wake_self-Inv _ s e h = elim h [ ]

  wake_unpark-WaitInv : (pc : Pc) (s : BlockOn K) → WaitInv pc s → WaitInv pc (wake_unpark K s)
  unfolding wake_unpark
  wake_unpark-WaitInv waiting s v = (v.0, λ n. ground (arith, K.unpark_result s.parker, v.1))
  wake_unpark-WaitInv flagged s v = v
  wake_unpark-WaitInv _ s v = tt

  wake_check-WaitInv : (pc : Pc) (s : BlockOn K) → WaitInv pc s → WaitInv pc (wake_check K s)
  unfolding wake_check
  wake_check-WaitInv waiting s v = ground arith
  wake_check-WaitInv flagged s v = ground arith
  wake_check-WaitInv _ s v = tt

  wake_unpark_pc : (s : BlockOn K) → (wake_unpark K s).pc ≡ s.pc
  unfolding wake_unpark
  wake_unpark_pc s = refl

  pub wake_check_pc : (s : BlockOn K) → (wake_check K s).pc ≡ s.pc
  unfolding wake_check
  wake_check_pc s = ground arith

  Step-Inv : {s t : BlockOn K} → Step s t → Inv s → Inv t
  unfolding advance
  Step-Inv {s} (moves seen can) v = advance_from-Inv s.pc s seen v
  Step-Inv {s} (wakes_self runs) v = wake_self-Inv s.pc s refl runs
  Step-Inv {s} unparks v =
      subst (λ (pc : Pc). WaitInv pc (wake_unpark K s)) (sym (wake_unpark_pc s))
        (wake_unpark-WaitInv s.pc s v)
  Step-Inv {s} (checks some) v =
      subst (λ (pc : Pc). WaitInv pc (wake_check K s)) (sym (wake_check_pc s))
        (wake_check-WaitInv s.pc s v)

  Reach-Inv : {s : BlockOn K} → Reach s → Inv s
  unfolding start
  Reach-Inv here = tt
  Reach-Inv (next r st) = Step-Inv st (Reach-Inv r)

  -- In every interleaving, if a thread of `block_on` is in the poller's `wait` and its parker is
  -- notified, then the poller has a notification that no `wait` has taken, or a waker is about to
  -- check `io_blocked` and will give it one.
  woken-IsNotified :
      (s : BlockOn K)
      → Reach s
      → s.pc ≡ waiting
      → K.notified s.parker ≡ true
      → (s.poll_notified ≡ true) ⊎ ((0 < s.checking) × ((wake_check K s).poll_notified ≡ true))
  unfolding wake_check
  woken-IsNotified s r e n =
      let v : WaitInv waiting s = subst (λ (pc : Pc). WaitInv pc s) e (Reach-Inv r) in
      elim (v.1 n) [ inl told ↦ inl told | inr some ↦ inr (some, ground (arith, v.0)) ]
