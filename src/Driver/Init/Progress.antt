-- ===== src/Driver/Init/Progress.antt =====
-- The threads that wait for one another in `Reactor::get` and `unparker` (`src/driver.rs`) go on.
use async_io.Base.{ℕ, ◌≡◌, ◌≢◌, ◌<◌, refl, ◌∙◌, ap, true, false, arith, update_same}
use async_io.Driver.Init.{
  OnceLock, empty, running, full, InitPc, outside, at_reactor, in_reactor, building, at_unparker,
  in_unparker, Statics, get_or_init, after_unparker, init_step, is_running, is_stuck, InitReach,
}
use async_io.Driver.Init.Once.{making, spawning, runs, InitInv, InitReach-InitInv}

-- How many steps a thread has ahead of it at most.
abbrev pub steps_ahead : InitPc → ℕ
steps_ahead outside = 0
steps_ahead building = 1
steps_ahead (in_unparker b) = 2
steps_ahead (at_unparker b) = 3
steps_ahead in_reactor = 4
steps_ahead at_reactor = 5

init_step_lem :
    (pc : InitPc) (s : Statics) (i : ℕ)
    → pc ≢ outside
    → is_stuck s pc ≡ false
    → steps_ahead ((init_step pc s i).place i) < steps_ahead pc
unfolding init_step get_or_init after_unparker is_running
init_step_lem outside s i n f = absurd (n refl)
init_step_lem at_reactor s i n f = rw (update_same s.place i _) ground arith
init_step_lem _ s i n f = rw (update_same s.place i _) ground arith

spawner-free :
    (pc : InitPc) (s : Statics) → spawning pc ≡ true → (pc ≢ outside) × (is_stuck s pc ≡ false)
spawner-free (in_unparker b) s e = (λ f. cc, refl)
spawner-free _ s e = absurd (cc)

maker-free :
    (pc : InitPc) (s : Statics)
    → making pc ≡ true
    → is_running s.unparker ≡ false
    → (pc ≢ outside) × (is_stuck s pc ≡ false)
maker-free in_reactor s e f = (λ g. cc, refl)
maker-free building s e f = (λ g. cc, refl)
maker-free (at_unparker b) s e f = (λ g. cc, f)
maker-free (in_unparker b) s e f = (λ g. cc, refl)
maker-free _ s e f = absurd (cc)

any-free :
    (pc : InitPc) (s : Statics)
    → is_running s.unparker ≡ false
    → is_running s.reactor ≡ false
    → is_stuck s pc ≡ false
any-free at_reactor s e f = f
any-free (at_unparker b) s e f = e
any-free _ s e f = refl

runs_self : (j : ℕ) → runs (running j) j ≡ true
runs_self j = ground arith

-- A thread that can go on: the one in the closure of the unparker, or else the one in that of the
-- reactor, or else the thread itself.
free_thread :
    (s : Statics) (i : ℕ)
    → InitInv s
    → s.place i ≢ outside
    → (j : ℕ) × (s.place j ≢ outside) × (is_stuck s (s.place j) ≡ false)
unfolding is_running
free_thread s i v n = by_unparker s.unparker refl
  where
    by_reactor :
        (o : OnceLock)
        → s.reactor ≡ o
        → is_running s.unparker ≡ false
        → (j : ℕ) × (s.place j ≢ outside) × (is_stuck s (s.place j) ≡ false)
    by_reactor (running j) e f =
        let m = (v.each j).makes ∙ ap (λ (o : OnceLock). runs o j) e ∙ runs_self j in
        let (busy, free) = maker-free (s.place j) s m f in (j, busy, free)
    by_reactor empty e f = (i, n, any-free (s.place i) s f (ap is_running e))
    by_reactor full e f = (i, n, any-free (s.place i) s f (ap is_running e))

    by_unparker :
        (o : OnceLock)
        → s.unparker ≡ o
        → (j : ℕ) × (s.place j ≢ outside) × (is_stuck s (s.place j) ≡ false)
    by_unparker (running j) e =
        let m = (v.each j).spawns ∙ ap (λ (o : OnceLock). runs o j) e ∙ runs_self j in
        let (busy, free) = spawner-free (s.place j) s m in (j, busy, free)
    by_unparker empty e = by_reactor s.reactor refl (ap is_running e)
    by_unparker full e = by_reactor s.reactor refl (ap is_running e)

-- However the first calls of `Reactor::get` and `unparker` interleave, they do not deadlock: while
-- a thread is inside one of them, there is a thread inside one of them whose next step brings it
-- nearer to the end of its call, on the count of the steps that it has ahead of it at most.
pub InitReach-goes_on :
    (s : Statics) (i : ℕ)
    → InitReach s
    → s.place i ≢ outside
    → (j : ℕ) × (s.place j ≢ outside)
      × (steps_ahead ((init_step (s.place j) s j).place j) < steps_ahead (s.place j))
InitReach-goes_on s i r n =
    let (j, busy, free) = free_thread s i (InitReach-InitInv r) n in
    (j, busy, init_step_lem (s.place j) s j busy free)
