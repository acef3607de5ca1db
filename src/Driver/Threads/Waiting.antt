-- ===== src/Driver/Threads/Waiting.antt =====
-- A thread of `block_on` (`src/driver.rs`) that is in `wait`, and those that may wake it.
use async_io.Base.{
  ℕ, ◌<◌, ◌≡◌, ◌≢◌, refl, sym, ◌∙◌, ap, subst, inl, inr, Bool, true, false, some, arith, Bool-cases,
}
use async_io.External.Parker.{ParkerCrate}
use async_io.Driver.{
  Pc, polling, first_check, reacting, try_lock, flagged, waiting, waking, returned, Seen, BlockOn,
  drop_guard, go_to, take_token, advance_from,
}
use async_io.Driver.Handshake.{Runs}
use async_io.Driver.Threads.{Threads}
use async_io.Driver.Threads.Exclusion.{holds, owns, FlagsAt, Excl, owns_unique}

module _ (K : ParkerCrate) where
  -- The poller has a notification, or somebody who has unparked the thread `i` is about to see to it.
  pub data Told (s : Threads K) (i : ℕ) : Type 0 where
    polled : s.poll_notified ≡ true → Told s i
    others : 0 < (s.local i).checking → Told s i
    pends : (a : ℕ) → s.pending a ≡ some i → (s.local a).io_polling ≡ false → Told s i

  abbrev pub IsTold : Threads K → Type 0
  IsTold s = (i : ℕ) → (s.local i).pc ≡ waiting → K.notified (s.local i).parker ≡ true → Told s i

  pub Told-mono :
      (s t : Threads K) (i : ℕ)
      → (s.poll_notified ≡ true → t.poll_notified ≡ true)
      → (0 < (s.local i).checking → 0 < (t.local i).checking)
      → ((a : ℕ)
          → s.pending a ≡ some i
          → (t.pending a ≡ some i) × ((t.local a).io_polling ≡ (s.local a).io_polling))
      → Told s i
      → Told t i
  Told-mono s t i p c w (polled e) = polled (p e)
  Told-mono s t i p c w (others h) = others (c h)
  Told-mono s t i p c w (pends a e f) = let (e', f') = w a e in pends a e' (f' ∙ f)

  -- A thread that comes to `wait` has not been notified.
  pub advance_from-waiting :
      (pc : Pc) (b : BlockOn K) (seen : Seen)
      → (advance_from K pc b seen).pc ≡ waiting
      → K.notified (advance_from K pc b seen).parker ≡ false
  unfolding advance_from take_token go_to drop_guard
  advance_from-waiting flagged b seen e = ground (arith, K.notified-park_now b.parker)
  advance_from-waiting polling b seen e = absurd (ground arith)
  advance_from-waiting first_check b seen e = absurd (ground arith)
  advance_from-waiting try_lock b seen e = absurd (ground arith)
  advance_from-waiting returned b seen e = absurd (ground arith)
  advance_from-waiting _ b seen e = absurd (cc)

  -- Only a thread that holds the lock takes the poller's notification.
  pub advance_from-polled :
      (pc : Pc) (b : BlockOn K) (seen : Seen)
      → holds pc b.io_polling ≡ false
      → (advance_from K pc b seen).poll_notified ≡ b.poll_notified
  unfolding advance_from take_token go_to drop_guard
  advance_from-polled polling b seen n = ground arith
  advance_from-polled first_check b seen n = ground arith
  advance_from-polled try_lock b seen n = ground arith
  advance_from-polled flagged b seen n = ground arith
  advance_from-polled returned b seen n = ground arith
  advance_from-polled reacting b seen n = ground arith
  advance_from-polled waiting b seen n = absurd (cc)
  advance_from-polled _ b seen n = refl

  pub waiting-owns :
      (s : Threads K) (i : ℕ) → Excl K s → (s.local i).pc ≡ waiting → owns s.lock i ≡ true
  waiting-owns s i v e = sym (v.held i) ∙ ap (λ pc. holds pc (s.local i).io_polling) e

  pub waiting-blocked :
      (s : Threads K) (i : ℕ) → Excl K s → (s.local i).pc ≡ waiting → (s.local i).io_blocked ≡ true
  waiting-blocked s i v e =
      (subst (λ pc. FlagsAt pc (s.local i).io_polling (s.local i).io_blocked) e (v.flags i)).1

  -- A thread that calls wakers while another is in `wait` has its `IO_POLLING` off.
  Runs-holds : (pc : Pc) (p b : Bool) → Runs K pc → FlagsAt pc p b → p ≡ true → holds pc p ≡ true
  Runs-holds polling p b r f e = absurd (cc)
  Runs-holds reacting p b r f e = e
  Runs-holds waking p b r f e = refl
  Runs-holds _ p b r f e = elim r [ ]

  pub Runs-off :
      (s : Threads K) (a i : ℕ)
      → Excl K s
      → (s.local i).pc ≡ waiting
      → Runs K (s.local a).pc
      → (s.local a).io_polling ≡ false
  Runs-off s a i v at r = elim (Bool-cases (s.local a).io_polling) [
    | inl on ↦
        let h = Runs-holds (s.local a).pc _ (s.local a).io_blocked r (v.flags a) on in
        let e = owns_unique s.lock a i (sym (v.held a) ∙ h) (waiting-owns s i v at) in
        absurd (subst (λ pc. Runs K pc) (ap (λ k. (s.local k).pc) e ∙ at) r)
    | inr off ↦ off
  ]

  -- What is to be shown of the thread `j` of `t` in the state `b`.
  abbrev pub ToldAt : Threads K → ℕ → BlockOn K → Type 0
  ToldAt t j b = b.pc ≡ waiting → K.notified b.parker ≡ true → Told t j

  -- While another thread is in `wait`, this one has no guard.
  pub lacks :
      (s : Threads K) (i j : ℕ)
      → Excl K s
      → i ≢ j
      → (s.local j).pc ≡ waiting
      → holds (s.local i).pc (s.local i).io_polling ≡ false
  lacks s i j v ne at = elim (Bool-cases (holds (s.local i).pc (s.local i).io_polling)) [
    | inl h ↦ absurd (ne (owns_unique s.lock i j (sym (v.held i) ∙ h) (waiting-owns s j v at)))
    | inr e ↦ e
  ]
