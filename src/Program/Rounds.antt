-- ===== src/Program/Rounds.antt =====
-- One round at a time: the lock sees to it that a thread calls `react` only when no round is under
-- way, so that a run of the program is a run of the shared reactor.
use async_io.Base.{
  ℕ, ◌≡◌, refl, sym, ◌∙◌, subst, ◌⊎◌, Bool, true, false, Option, none, some, update_all,
  update_same, arith,
}
use async_io.External.Parker.{ParkerCrate}
use async_io.Reactor.{Platform}
use async_io.Driver.{
  Pc, polling, first_check, reacting, try_lock, enter, flagged, waiting, waking, returned, hogging,
  sleeping, done, Seen, BlockOn, drop_guard, go_to, take_token, advance_from, advance,
}
use async_io.Driver.Threads.{
  Owner, main_loop, try_lock_reactor, lock_use_from, use_lock, Threads, view, put, thread_step,
}
use async_io.Driver.Threads.Exclusion.{
  holds, owns, lock_after, thread_after, owns_unique, Excl, Kept, advance-Kept,
}
use async_io.System.{System, Phase, idle}
use async_io.System
use async_io.Program.{Part, stays, enters, awaits, leaves, part_from}

abbrev pub is_idle : Phase → Bool
is_idle idle = true
is_idle _ = false

abbrev pub is_waiting : Phase → Bool
is_waiting (System.waiting now timeout tick wakers) = true
is_waiting _ = false

-- The phase of the round, if the thread at this place holds the lock.
abbrev pub fits : Pc → Phase → Bool
fits enter ph = is_idle ph
fits flagged ph = is_idle ph
fits returned ph = is_idle ph
fits waiting ph = is_waiting ph
fits _ ph = true

module _ (K : ParkerCrate) where
  abbrev part_after : Pc → BlockOn K → Seen → Option Owner → ℕ → Part
  part_after pc b seen l i = part_from K pc b (lock_after K pc b seen l i).1

  pub part_from-enters :
      (pc : Pc) (b : BlockOn K) (seen : Seen) (l : Option Owner) (i : ℕ) (t : Option ℕ) (ph : Phase)
      → part_after pc b seen l i ≡ enters t
      → holds pc b.io_polling ≡ owns l i
      → (l ≡ none → is_idle ph ≡ true)
      → (owns l i ≡ true → fits pc ph ≡ true)
      → (is_idle ph ≡ true)
        × (owns (lock_after K pc b seen l i).0 i ≡ true)
        × (((thread_after K pc b seen l i).pc ≡ reacting)
            ⊎ ((thread_after K pc b seen l i).pc ≡ waiting))
  unfolding part_from advance_from take_token go_to drop_guard lock_use_from use_lock
      try_lock_reactor
  part_from-enters first_check b seen l i t ph e m f o = ground arith
  part_from-enters flagged b seen l i t ph e m f o = ground arith
  part_from-enters reacting b seen l i t ph e m f o = absurd (ground arith)
  part_from-enters _ b seen l i t ph e m f o = absurd (cc)

  pub part_from-awaits :
      (pc : Pc) (b : BlockOn K) (seen : Seen) (l : Option Owner) (i : ℕ)
      → part_after pc b seen l i ≡ awaits
      → (pc ≡ waiting)
        × ((lock_after K pc b seen l i).0 ≡ l)
        × ((thread_after K pc b seen l i).pc ≡ waking)
  unfolding part_from advance_from take_token go_to drop_guard lock_use_from use_lock
      try_lock_reactor
  part_from-awaits waiting b seen l i e = (refl, refl, refl)
  part_from-awaits first_check b seen l i e = absurd (ground arith)
  part_from-awaits flagged b seen l i e = absurd (ground arith)
  part_from-awaits reacting b seen l i e = absurd (ground arith)
  part_from-awaits _ b seen l i e = absurd (cc)

  pub part_from-calm :
      (pc : Pc) (b : BlockOn K) (seen : Seen) (l : Option Owner) (i : ℕ) (ph : Phase)
      → (part_after pc b seen l i ≡ stays)
        ⊎ ((part_after pc b seen l i ≡ leaves) × (is_idle ph ≡ true))
      → holds pc b.io_polling ≡ owns l i
      → (l ≡ none → is_idle ph ≡ true)
      → (owns l i ≡ true → fits pc ph ≡ true)
      → ((lock_after K pc b seen l i).0 ≡ none → is_idle ph ≡ true)
        × (owns (lock_after K pc b seen l i).0 i ≡ true
            → fits (thread_after K pc b seen l i).pc ph ≡ true)
  unfolding part_from advance_from take_token go_to drop_guard lock_use_from use_lock
      try_lock_reactor
  part_from-calm polling b seen l i ph e m f o = (f, λ h. ground arith)
  part_from-calm first_check b seen l i ph e m f o = (λ h. ground arith, λ h. ground arith)
  part_from-calm reacting b seen l i ph e m f o = (λ h. ground arith, λ h. refl)
  part_from-calm try_lock b seen l i ph e m f o = (λ h. ground arith, λ h. ground arith)
  part_from-calm enter b seen l i ph e m f o = (f, o)
  part_from-calm flagged b seen l i ph e m f o = (λ h. ground arith, λ h. ground arith)
  part_from-calm waiting b seen l i ph e m f o = absurd (ground arith)
  part_from-calm waking b seen l i ph e m f o = (f, λ h. ground arith)
  part_from-calm returned b seen l i ph e m f o = (λ h. ground arith, λ h. ground arith)
  part_from-calm hogging b seen l i ph e m f o = (f, λ h. refl)
  part_from-calm sleeping b seen l i ph e m f o = (f, λ h. refl)
  part_from-calm done b seen l i ph e m f o = (f, λ h. refl)

pub is_idle-eq : (ph : Phase) → is_idle ph ≡ true → ph ≡ idle
is_idle-eq idle e = refl
is_idle-eq (System.waiting now timeout tick wakers) e = absurd (cc)
is_idle-eq (System.firing tick wakers) e = absurd (cc)
is_idle-eq (System.dispatching evs tick wakers) e = absurd (cc)

module _ (K : ParkerCrate) (X : Platform) where
  abbrev pub Fits : Threads K → Phase → Type 0
  Fits s ph =
      (s.lock ≡ none → is_idle ph ≡ true)
      × ((i : ℕ) → owns s.lock i ≡ true → fits (s.local i).pc ph ≡ true)

  -- The thread `i` is inside `react`, so that the phase of the round fits, whatever it is.
  pub inside-Fits :
      (s : Threads K) (i : ℕ) (ph : Phase)
      → owns s.lock i ≡ true
      → fits (s.local i).pc ph ≡ true
      → Fits s ph
  inside-Fits s i ph own e = (
    λ f. let h : owns none i ≡ true = subst (λ l. owns l i ≡ true) f own in absurd (cc),
    λ j h. subst (λ k. fits (s.local k).pc ph ≡ true) (owns_unique s.lock i j own h) e,
  )

  pub main-Fits : (s : Threads K) (ph : Phase) → s.lock ≡ some main_loop → Fits s ph
  main-Fits s ph e = (
    λ f. absurd (let z : ◌≡◌ {A = Option Owner} (some main_loop) none = sym e ∙ f in cc),
    λ j h. absurd (let z : owns (some main_loop) j ≡ true = subst (λ l. owns l j ≡ true) e h in cc),
  )

  pub put-Fits :
      (s : Threads K) (i : ℕ) (b : BlockOn K) (ph : Phase)
      → (owns s.lock i ≡ true → fits b.pc ph ≡ true)
      → Fits s ph
      → Fits (put K s i b) ph
  put-Fits s i b ph e v = (
    v.0,
    update_all (λ j x. owns s.lock j ≡ true → fits x.pc ph ≡ true) s.local i b e (λ j n. v.1 j),
  )

  -- A step of the thread `i`, in each of its parts.
  module _ (s : Threads K) (i : ℕ) (seen : Seen) (v : Excl K s) where
    abbrev pub lock' : Option Owner
    lock' = (lock_after K (s.local i).pc (view K s i) seen s.lock i).0

    abbrev pub thread' : BlockOn K
    thread' = thread_after K (s.local i).pc (view K s i) seen s.lock i

    kept : Kept K i s.lock lock' thread'
    kept = advance-Kept K (s.local i).pc (view K s i) seen s.lock i (v.flags i) (v.held i)

    pub calm-Fits :
        (ph : Phase)
        → (lock' ≡ none → is_idle ph ≡ true) × (owns lock' i ≡ true → fits thread'.pc ph ≡ true)
        → Fits s ph
        → Fits (thread_step K s i seen) ph
    unfolding thread_step advance
    calm-Fits ph c f = (
      c.0,
      update_all (λ j x. owns lock' j ≡ true → fits x.pc ph ≡ true) s.local i thread' c.1
          (λ j n h. f.1 j (sym (kept.theirs j n) ∙ h)),
    )

    pub busy-Fits :
        (ph : Phase)
        → owns lock' i ≡ true
        → fits thread'.pc ph ≡ true
        → Fits (thread_step K s i seen) ph
    unfolding thread_step advance
    busy-Fits ph own e =
        inside-Fits (thread_step K s i seen) i ph own
          (subst (λ x. fits x.pc ph ≡ true) (sym (update_same s.local i thread')) e)
