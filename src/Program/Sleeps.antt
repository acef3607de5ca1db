-- ===== src/Program/Sleeps.antt =====
-- What a thread of `block_on` that is in `wait` sleeps for: no longer than to the first timer.
use async_io.Base.{ℕ, ◌+◌, ◌≤◌, ◌≡◌, refl, ◌∙◌, ap, subst, true, false, List, Option, some, In}
use async_io.Timers.{Waker, Entry}
use async_io.External.Parker.{ParkerCrate}
use async_io.Reactor.{Platform}
use async_io.Reactor.TimerQueue.Schedule.{scheduled}
use async_io.Driver.{Pc, waiting}
use async_io.System
use async_io.System.{System, Phase, idle, dispatching}
use async_io.System.Rounds.{Reach-timeout}
use async_io.Program.{Program, Reach}
use async_io.Program.Rounds.{is_waiting, fits}
use async_io.Program.Parts.{Reach-Split, holder-owns}

-- A round that waits, with its values.
record Waits (ph : Phase) : Type 0 where
  now : ℕ
  timeout : Option ℕ
  tick : ℕ
  wakers : List Waker
  eq : ph ≡ System.waiting now timeout tick wakers

is_waiting-Waits : (ph : Phase) → is_waiting ph ≡ true → Waits ph
is_waiting-Waits idle e = absurd (cc)
is_waiting-Waits (System.waiting now timeout tick wakers) e = record {
  now = now;
  timeout = timeout;
  tick = tick;
  wakers = wakers;
  eq = refl;
}
is_waiting-Waits (System.firing tick wakers) e = absurd (cc)
is_waiting-Waits (dispatching evs tick wakers) e = absurd (cc)

module _ (K : ParkerCrate) (X : Platform) where
  -- In every run of the threads of `block_on` and the "async-io" thread over the reactor, with
  -- polls, drops, insertions and removals by all threads, whether polls and re-registrations
  -- succeed or fail: if a thread of `block_on` is in `wait` and no timer has been inserted since
  -- the round began, then for a scheduled timer the round that is under way waits with a timeout,
  -- and the timer is not due before the wait ends.
  pub Reach-sleeps :
      (p : X.poller.Poller) (s : Program K X) (i : ℕ) (x : Entry)
      → Reach K X p s
      → (s.threads.local i).pc ≡ waiting
      → s.system.notified ≡ false
      → In x (scheduled X s.system.reactor)
      → (now d tick : ℕ) × (wakers : List Waker) × (s.system.phase
          ≡ System.waiting now (some d) tick wakers)
        × (now + d ≤ x.when)
  Reach-sleeps p s i x path at quiet m =
      let v = Reach-Split K X p s path in
      let own = holder-owns K X s.threads i v.threads (rw at refl) in
      let w =
        is_waiting-Waits s.system.phase
          (subst (λ (pc : Pc). fits pc s.system.phase ≡ true) at (v.phases.1 i own)) in
      let (d, e, le) =
        Reach-timeout X p s.system w.now w.timeout w.tick w.wakers x v.system w.eq quiet m in
      (
        w.now,
        d,
        w.tick,
        w.wakers,
        w.eq ∙ ap (λ (t : Option ℕ). System.waiting w.now t w.tick w.wakers) e,
        le,
      )
