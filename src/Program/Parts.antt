-- ===== src/Program/Parts.antt =====
-- A run of the program is a run of the threads and a run of the shared reactor.
use async_io.Base.{
  ℕ, ◌≡◌, refl, sym, ◌∙◌, ap, subst, inl, inr, Bool, true, false, Option, none, some, not, ◌&&◌,
}
use async_io.External.Parker.{ParkerCrate}
use async_io.Reactor.{Platform}
use async_io.Driver.{reacting, Seen, BlockOn, go_to, wake_unpark, wake_check}
use async_io.Driver.Handshake.{wake_check_pc}
use async_io.Driver.Threads
use async_io.Driver.Threads.{
  Owner, Threads, main_loop, try_lock_reactor, view, thread_step, thread_unparks, thread_checks,
  no_threads,
}
use async_io.Driver.Threads.Exclusion.{holds, owns, Excl, Reach-Excl}
use async_io.System
use async_io.System.{
  System, Phase, idle, polls, polls_future, drops_future, inserts_io, removes_io, inserts_timer,
  removes_timer, notifies, begins, returns, fails, dispatches, breaks, fires, ends, began, initial,
}
use async_io.Program.{
  call, Part, stays, enters, awaits, leaves, kind, part_from, Turn, Program, gets_lock, notified_if,
  Step, calls, moves, unparks, checks, others_unpark, others_check, uses, awakens, reacts, wakes,
  main_locks, main_waits, main_reacts, main_unlocks, Reach, here, next,
}
use async_io.Program.Rounds.{
  is_idle, fits, is_idle-eq, part_from-enters, part_from-awaits, part_from-calm, Fits, inside-Fits,
  main-Fits, put-Fits, calm-Fits, busy-Fits,
}

try_lock_free :
    (l : Option Owner)
    → (try_lock_reactor l main_loop).1 ≡ true
    → (l ≡ none) × ((try_lock_reactor l main_loop).0 ≡ some main_loop)
unfolding try_lock_reactor
try_lock_free none e = (refl, refl)
try_lock_free (some o) e = absurd (cc)

module _ (K : ParkerCrate) (X : Platform) where
  -- The run so far, as a run of the threads and as one of the reactor.
  pub record Split (p : X.poller.Poller) (s : Program K X) : Type 0 where
    pub threads : Threads.Reach K s.threads
    pub system : System.Reach X (initial X p) s.system
    pub phases : Fits K X s.threads s.system.phase

  call_phase :
      {s t : System X} (step : System.Step X s t) → kind K X step ≡ call → t.phase ≡ s.phase
  call_phase (begins timeout now e) c = absurd (cc)
  call_phase (returns now timeout tick wakers evs e f) c = absurd (cc)
  call_phase (fails now timeout tick wakers x e f) c = absurd (cc)
  call_phase (dispatches ev evs tick wakers e f) c = absurd (cc)
  call_phase (breaks ev evs tick wakers x e f) c = absurd (cc)
  call_phase (fires later tick wakers e) c = absurd (cc)
  call_phase (ends tick wakers e) c = absurd (cc)
  call_phase _ c = refl

  notified_if-Reach :
      (q s : System X) (b : Bool)
      → System.Reach X q s
      → System.Reach X q (notified_if K X b s) × ((notified_if K X b s).phase ≡ s.phase)
  notified_if-Reach q s true r = (System.next r notifies, refl)
  notified_if-Reach q s false r = (r, refl)

  -- A thread that holds the lock owns it.
  pub holder-owns :
      (s : Threads K) (i : ℕ)
      → Threads.Reach K s
      → holds (s.local i).pc (s.local i).io_polling ≡ true
      → owns s.lock i ≡ true
  holder-owns s i r e = sym ((Reach-Excl K r).held i) ∙ e

  moves-Split :
      (p : X.poller.Poller) (s : Program K X) (i : ℕ) (seen : Seen) (t : System X)
      → Turn K X
          (part_from K (s.threads.local i).pc (view K s.threads i) (gets_lock K X s.threads i seen))
          s.system
          t
      → Split p s
      → System.Reach X (initial X p) t × Fits K X (thread_step K s.threads i seen) t.phase
  moves-Split p s i seen t turn v = go _ refl turn
    where
      b : BlockOn K
      b = view K s.threads i

      excl : Excl K s.threads
      excl = Reach-Excl K v.threads

      go :
          (part : Part)
          → part_from K b.pc b (gets_lock K X s.threads i seen) ≡ part
          → Turn K X part s.system t
          → System.Reach X (initial X p) t × Fits K X (thread_step K s.threads i seen) t.phase
      go stays e turn =
          let calm =
            part_from-calm K b.pc b seen s.threads.lock i s.system.phase (inl e) (excl.held i)
              v.phases.0 (v.phases.1 i) in
          subst
            (λ x.
              System.Reach X (initial X p) x × Fits K X (thread_step K s.threads i seen) x.phase)
            (sym turn) (v.system, calm-Fits K X s.threads i seen excl s.system.phase calm v.phases)
      go leaves e (rest, turn) =
          let calm =
            part_from-calm K b.pc b seen s.threads.lock i s.system.phase (inr (e, ap is_idle rest))
              (excl.held i) v.phases.0 (v.phases.1 i) in
          subst
            (λ x.
              System.Reach X (initial X p) x × Fits K X (thread_step K s.threads i seen) x.phase)
            (sym turn) (v.system, calm-Fits K X s.threads i seen excl s.system.phase calm v.phases)
      go (enters timeout) e (now, turn) =
          let (rest, own, at) =
            part_from-enters K b.pc b seen s.threads.lock i timeout s.system.phase e (excl.held i)
              v.phases.0 (v.phases.1 i) in
          subst
            (λ x.
              System.Reach X (initial X p) x × Fits K X (thread_step K s.threads i seen) x.phase)
            (sym turn)
            (
              System.next v.system (begins timeout now (is_idle-eq s.system.phase rest)),
              busy-Fits K X s.threads i seen excl _ own
                  (elim at [ inl f ↦ rw f refl | inr f ↦ rw f refl ]),
            )
      go awaits e (step, k) =
          let (at, same, to) = part_from-awaits K b.pc b seen s.threads.lock i e in
          let own = holder-owns s.threads i v.threads (rw at refl) in
          (
            System.next v.system step,
            busy-Fits K X s.threads i seen excl _ (rw same own) (rw to refl),
          )

  -- A thread inside `react` takes a step of the round.
  round-Split :
      (p : X.poller.Poller) (s : Program K X) (i : ℕ) (t : System X)
      → System.Step X s.system t
      → owns s.threads.lock i ≡ true
      → fits (s.threads.local i).pc t.phase ≡ true
      → Split p s
      → Split p (record s { system = t })
  round-Split p s i t step own e v = record {
    threads = v.threads;
    system = System.next v.system step;
    phases = inside-Fits K X s.threads i t.phase own e;
  }

  polling-owns :
      (p : X.poller.Poller) (s : Program K X) (i : ℕ)
      → (s.threads.local i).pc ≡ reacting
      → (s.threads.local i).io_polling ≡ true
      → Split p s
      → owns s.threads.lock i ≡ true
  polling-owns p s i at on v = holder-owns s.threads i v.threads (rw (at, on) refl)

  Step-Split : (p : X.poller.Poller) {s t : Program K X} → Step K X s t → Split p s → Split p t
  unfolding go_to wake_unpark wake_check thread_unparks thread_checks
  Step-Split p {s} (calls i e) v = record {
    threads = Threads.next v.threads (Threads.calls i e);
    system = v.system;
    phases = put-Fits K X s.threads i _ s.system.phase (λ h. refl) v.phases;
  }
  Step-Split p {s} (moves i seen t free can turn) v =
      let (run, phases) = moves-Split p s i seen t turn v in
      record {
        threads = Threads.next v.threads (Threads.moves i seen free can);
        system = run;
        phases = phases;
      }
  Step-Split p {s} (unparks a i free runs) v = record {
    threads = Threads.next v.threads (Threads.unparks a i free runs);
    system = v.system;
    phases =
        put-Fits K X s.threads i
          (record (s.threads.local i) { parker = (K.unpark (s.threads.local i).parker).0 })
          s.system.phase (v.phases.1 i) v.phases;
  }
  Step-Split p {s} (checks a i e) v =
      let b = not (s.threads.local a).io_polling && (s.threads.local i).io_blocked in
      let (run, same) = notified_if-Reach _ s.system b v.system in
      record {
        threads = Threads.next v.threads (Threads.checks a i e);
        system = run;
        phases = rw same v.phases;
      }
  Step-Split p {s} (others_unpark i) v = record {
    threads = Threads.next v.threads (Threads.others_unpark i);
    system = v.system;
    phases = put-Fits K X s.threads i _ s.system.phase (v.phases.1 i) v.phases;
  }
  Step-Split p {s} (others_check i left) v =
      let (run, same) = notified_if-Reach _ s.system (s.threads.local i).io_blocked v.system in
      record {
        threads = Threads.next v.threads (Threads.others_check i left);
        system = run;
        phases = rw same (
            put-Fits K X s.threads i _ s.system.phase
              (λ h. rw (wake_check_pc K (view K s.threads i)) (v.phases.1 i h)) v.phases);
      }
  Step-Split p {s} (uses t step c) v = record {
    threads = v.threads;
    system = System.next v.system step;
    phases = rw (call_phase step c) v.phases;
  }
  Step-Split p {s} (awakens i t step at on c) v =
      round-Split p s i t step (polling-owns p s i at on v) (rw at refl) v
  Step-Split p {s} (reacts i t step at on c) v =
      round-Split p s i t step (polling-owns p s i at on v) (rw at refl) v
  Step-Split p {s} (wakes i t step at c) v =
      round-Split p s i t step (holder-owns s.threads i v.threads (rw at refl)) (rw at refl) v
  Step-Split p {s} (main_locks now e) v =
      let (was, is) = try_lock_free s.threads.lock e in
      record {
        threads = Threads.next v.threads (Threads.main_locks e);
        system =
            System.next v.system (begins none now (is_idle-eq s.system.phase (v.phases.0 was)));
        phases =
            main-Fits K X
              (record s.threads { lock = (try_lock_reactor s.threads.lock main_loop).0 }) _ is;
      }
  Step-Split p {s} (main_waits t step e c) v = record {
    threads = Threads.next v.threads (Threads.main_waits e);
    system = System.next v.system step;
    phases = main-Fits K X (record s.threads { poll_notified = false }) _ e;
  }
  Step-Split p {s} (main_reacts t step e c) v = record {
    threads = v.threads;
    system = System.next v.system step;
    phases = main-Fits K X s.threads _ e;
  }
  Step-Split p {s} (main_unlocks e rest) v = record {
    threads = Threads.next v.threads (Threads.main_unlocks e);
    system = v.system;
    phases = (λ f. ap is_idle rest, λ i h. absurd (cc));
  }

  -- A run of the threads of `block_on` and of the "async-io" thread over the reactor, in which a
  -- thread calls `react` once it has the lock, is a run of the threads and also a run of the shared
  -- reactor in which, as the steps of that require, a round begins only while none is under way.
  -- While the lock is free, no round is under way; and if a thread of `block_on` holds the lock,
  -- the phase of the round fits the place of the thread.
  pub Reach-Split : (p : X.poller.Poller) (s : Program K X) → Reach K X p s → Split p s
  unfolding no_threads
  Reach-Split p s here = record {
    threads = Threads.here;
    system = System.here;
    phases = (λ e. refl, λ i h. absurd (cc));
  }
  Reach-Split p s (next {s = t} r step) = Step-Split p step (Reach-Split p t r)
