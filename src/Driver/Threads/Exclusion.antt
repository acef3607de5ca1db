-- ===== src/Driver/Threads/Exclusion.antt =====
-- The reactor lock among the threads of `block_on`: who holds it, and where such a thread is.
use async_io.Base.{
  ℕ, ◌≡◌, ◌≢◌, refl, sym, ◌∙◌, ap, subst, Bool, true, false, Option, none, some, update, update_all,
  arith, ◌==◌,
}
use async_io.External.Parker.{ParkerCrate}
use async_io.Driver.{
  Pc, polling, first_check, reacting, try_lock, enter, flagged, waiting, waking, returned, hogging,
  sleeping, done, Seen, BlockOn, start, drop_guard, go_to, take_token, advance_from, advance,
  wake_unpark, wake_check,
}
use async_io.Driver.Threads.{
  Owner, block_on, main_loop, try_lock_reactor, lock_use_from, use_lock, Threads, no_threads, view,
  thread_step, put, thread_unparks, thread_checks, Step, calls, moves, unparks, checks,
  others_unpark, others_check, main_locks, main_waits, main_unlocks, Reach, here, next,
}

-- Whether a thread at this place has a guard. With `IO_POLLING` off, `try_lock` has failed before
-- `reacting`.
abbrev pub holds : Pc → Bool → Bool
holds reacting b = b
holds enter b = true
holds flagged b = true
holds waiting b = true
holds waking b = true
holds returned b = true
holds _ b = false

abbrev pub owns : Option Owner → ℕ → Bool
owns none i = false
owns (some main_loop) i = false
owns (some (block_on j)) i = j == i

-- At most one thread owns the lock.
pub owns_unique : (l : Option Owner) (i j : ℕ) → owns l i ≡ true → owns l j ≡ true → i ≡ j
owns_unique none i j e f = absurd (cc)
owns_unique (some main_loop) i j e f = absurd (cc)
owns_unique (some (block_on k)) i j e f = ground arith

-- The flags `IO_POLLING` and `io_blocked` of a thread at this place.
abbrev pub FlagsAt : Pc → Bool → Bool → Type 0
FlagsAt reacting p b = Unit {0}
FlagsAt flagged p b = (p ≡ true) × (b ≡ true)
FlagsAt waiting p b = (p ≡ true) × (b ≡ true)
FlagsAt waking p b = (p ≡ true) × (b ≡ true)
FlagsAt returned p b = (p ≡ true) × (b ≡ true)
FlagsAt hogging p b = (p ≡ true) × (b ≡ true)
FlagsAt _ p b = p ≡ false

module _ (K : ParkerCrate) where
  -- The lock and the thread `i` after a step of it from this place.
  abbrev pub lock_after : Pc → BlockOn K → Seen → Option Owner → ℕ → Option Owner × Bool
  lock_after pc b seen l i = use_lock K (lock_use_from K pc b seen) l (block_on i)

  abbrev pub thread_after : Pc → BlockOn K → Seen → Option Owner → ℕ → BlockOn K
  thread_after pc b seen l i =
      advance_from K pc b (record seen { lock_free = (lock_after pc b seen l i).1 })

  pub record Kept (i : ℕ) (l l' : Option Owner) (b' : BlockOn K) : Type 0 where
    pub flags : FlagsAt b'.pc b'.io_polling b'.io_blocked
    pub mine : holds b'.pc b'.io_polling ≡ owns l' i
    pub theirs : (j : ℕ) → i ≢ j → owns l' j ≡ owns l j

  pub advance-Kept :
      (pc : Pc) (b : BlockOn K) (seen : Seen) (l : Option Owner) (i : ℕ)
      → FlagsAt pc b.io_polling b.io_blocked
      → holds pc b.io_polling ≡ owns l i
      → Kept i l (lock_after pc b seen l i).0 (thread_after pc b seen l i)
  unfolding advance_from take_token go_to drop_guard lock_use_from use_lock try_lock_reactor
  advance-Kept polling b seen l i f h = record {
    flags = ground arith;
    mine = ground arith;
    theirs = λ j n. refl;
  }
  advance-Kept first_check b seen l i f h = record {
    flags = ground arith;
    mine = ground arith;
    theirs = λ j n. ground arith;
  }
  advance-Kept reacting b seen l i f h = record {
    flags = refl;
    mine = ground arith;
    theirs = λ j n. ground arith;
  }
  advance-Kept try_lock b seen l i f h = record {
    flags = ground arith;
    mine = ground arith;
    theirs = λ j n. ground arith;
  }
  advance-Kept enter b seen l i f h = record {
    flags = (refl, refl);
    mine = h;
    theirs = λ j n. refl;
  }
  advance-Kept flagged b seen l i f h = record {
    flags = ground arith;
    mine = ground arith;
    theirs = λ j n. ground arith;
  }
  advance-Kept waiting b seen l i f h = record { flags = f; mine = h; theirs = λ j n. refl }
  advance-Kept waking b seen l i f h = record { flags = f; mine = h; theirs = λ j n. refl }
  advance-Kept returned b seen l i f h = record {
    flags = ground arith;
    mine = ground arith;
    theirs = λ j n. ground arith;
  }
  advance-Kept hogging b seen l i f h = record { flags = refl; mine = h; theirs = λ j n. refl }
  advance-Kept sleeping b seen l i f h = record { flags = f; mine = h; theirs = λ j n. refl }
  advance-Kept done b seen l i f h = record { flags = f; mine = h; theirs = λ j n. refl }

  pub record Excl (s : Threads K) : Type 0 where
    pub flags : (i : ℕ) → FlagsAt (s.local i).pc (s.local i).io_polling (s.local i).io_blocked
    pub held : (i : ℕ) → holds (s.local i).pc (s.local i).io_polling ≡ owns s.lock i

  thread_step-Excl : (s : Threads K) (i : ℕ) (seen : Seen) → Excl s → Excl (thread_step K s i seen)
  unfolding thread_step advance
  thread_step-Excl s i seen v =
      let k = advance-Kept (s.local i).pc (view K s i) seen s.lock i (v.flags i) (v.held i) in
      record {
        flags =
            update_all (λ j b. FlagsAt b.pc b.io_polling b.io_blocked) s.local i _ k.flags
              (λ j n. v.flags j);
        held =
            update_all
              (λ j b.
                holds b.pc b.io_polling
                ≡ owns (lock_after (s.local i).pc (view K s i) seen s.lock i).0 j)
              s.local i _ k.mine (λ j n. v.held j ∙ sym (k.theirs j n));
      }

  -- A step that leaves the place and the flags of each thread alone, and whose guard the lock has.
  same-Excl :
      (s : Threads K) (i : ℕ) (b : BlockOn K)
      → b.pc ≡ (s.local i).pc
      → b.io_polling ≡ (s.local i).io_polling
      → b.io_blocked ≡ (s.local i).io_blocked
      → Excl s
      → ((j : ℕ)
          → FlagsAt
              (update s.local i b j).pc
              (update s.local i b j).io_polling
              (update s.local i b j).io_blocked)
        × ((j : ℕ)
            → holds (update s.local i b j).pc (update s.local i b j).io_polling ≡ owns s.lock j)
  same-Excl s i b p q r v = (
    update_all (λ j b. FlagsAt b.pc b.io_polling b.io_blocked) s.local i b
        (rw (p, q, r) (v.flags i)) (λ j n. v.flags j),
    update_all (λ j b. holds b.pc b.io_polling ≡ owns s.lock j) s.local i b (rw (p, q) (v.held i))
        (λ j n. v.held j),
  )

  calls-Excl :
      (s : Threads K) (i : ℕ)
      → (s.local i).pc ≡ done
      → Excl s
      → Excl (put K s i (go_to K (view K s i) polling))
  unfolding go_to
  calls-Excl s i e v =
      let f =
        subst (λ pc. FlagsAt pc (s.local i).io_polling (s.local i).io_blocked) e (v.flags i) in
      let h = subst (λ pc. holds pc (s.local i).io_polling ≡ owns s.lock i) e (v.held i) in
      record {
        flags =
            update_all (λ j b. FlagsAt b.pc b.io_polling b.io_blocked) s.local i _ f
              (λ j n. v.flags j);
        held =
            update_all (λ j b. holds b.pc b.io_polling ≡ owns s.lock j) s.local i _ h
              (λ j n. v.held j);
      }

  main-held :
      (s : Threads K) (l : Option Owner)
      → ((j : ℕ) → owns l j ≡ owns s.lock j)
      → Excl s
      → Excl (record s { lock = l })
  main-held s l e v = record { flags = v.flags; held = λ j. v.held j ∙ sym (e j) }

  main_locks-owns :
      (l : Option Owner) (j : ℕ)
      → (try_lock_reactor l main_loop).1 ≡ true
      → owns (try_lock_reactor l main_loop).0 j ≡ owns l j
  unfolding try_lock_reactor
  main_locks-owns l j e = ground arith

  Step-Excl : {s t : Threads K} → Step K s t → Excl s → Excl t
  unfolding thread_unparks thread_checks wake_unpark wake_check
  Step-Excl {s} (calls i e) v = calls-Excl s i e v
  Step-Excl {s} (moves i seen free can) v = thread_step-Excl s i seen v
  Step-Excl {s} (unparks a i free runs) v =
      let (f, h) = same-Excl s i _ refl refl refl v in record { flags = f; held = h }
  Step-Excl {s} (checks a i e) v = record { flags = v.flags; held = v.held }
  Step-Excl {s} (others_unpark i) v =
      let (f, h) = same-Excl s i _ refl refl refl v in record { flags = f; held = h }
  Step-Excl {s} (others_check i left) v =
      let (f, h) = same-Excl s i _ ground arith ground arith ground arith v in
      record { flags = f; held = h }
  Step-Excl {s} (main_locks e) v = main-held s _ (λ j. main_locks-owns s.lock j e) v
  Step-Excl {s} (main_waits e) v = record { flags = v.flags; held = v.held }
  Step-Excl {s} (main_unlocks e) v = main-held s none (λ j. ap (λ l. owns l j) (sym e)) v

  pub Reach-Excl : {s : Threads K} → Reach K s → Excl s
  unfolding no_threads start go_to
  Reach-Excl here = record { flags = λ i. refl; held = λ i. refl }
  Reach-Excl (next r st) = Step-Excl st (Reach-Excl r)

  owns-eq : (l : Option Owner) (i : ℕ) → owns l i ≡ true → l ≡ some (block_on i)
  owns-eq none i e = absurd (cc)
  owns-eq (some main_loop) i e = absurd (cc)
  owns-eq (some (block_on j)) i e = let q : j ≡ i = ground arith in ap (λ k. some (block_on k)) q

  -- In every interleaving of threads that run `block_on` and the "async-io" thread: a thread at a
  -- place between its `try_lock` and the drop of its guard holds the reactor lock, and no other
  -- thread is at such a place.
  pub Reach-IsExclusive :
      (s : Threads K) (i j : ℕ)
      → Reach K s
      → holds (s.local i).pc (s.local i).io_polling ≡ true
      → (s.lock ≡ some (block_on i)) × (holds (s.local j).pc (s.local j).io_polling ≡ true → j ≡ i)
  Reach-IsExclusive s i j r h =
      let held = (Reach-Excl r).held in
      let mine = owns-eq s.lock i (sym (held i) ∙ h) in
      (mine, λ g. let theirs = owns-eq s.lock j (sym (held j) ∙ g) in cc)
