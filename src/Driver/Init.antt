-- ===== src/Driver/Init.antt =====
-- How the reactor and the "async-io" thread come about: `Reactor::get` (`src/reactor.rs`) and `unparker`,
-- `init` (`src/driver.rs`), which each run a closure once, whichever thread comes first. The
-- "async-io" thread calls `Reactor::get` like any other.
pub mod Once
pub mod Progress
use async_io.Base.{
  ℕ, ◌+◌, ◌≤◌, ◌≡◌, ◌≢◌, ◌<◌, refl, sym, ◌∙◌, ap, subst, ◌⊎◌, inl, inr, Bool, true, false, arith,
  update, update_all, update_same, update_other, if◌then◌else◌, ◌==◌,
}

-- A `OnceLock`: not initialised, with this thread in the closure, or initialised.
pub data OnceLock : Type 0 where
  empty : OnceLock
  running : ℕ → OnceLock
  full : OnceLock

-- Where a thread is. `at_reactor`: at `get_or_init` in `Reactor::get`. `in_reactor`: at the call of
-- `init` in its closure. `at_unparker`: at `get_or_init` in `unparker`, called by `init` or not.
-- `in_unparker`: in its closure. `building`: `init` has returned.
pub data InitPc : Type 0 where
  outside at_reactor in_reactor building : InitPc
  at_unparker in_unparker : Bool → InitPc

-- `threads` is how many "async-io" threads have been spawned, `reactors` how many reactors made.
pub record Statics : Type 0 where
  pub reactor : OnceLock
  pub unparker : OnceLock
  pub threads : ℕ
  pub reactors : ℕ
  pub place : ℕ → InitPc

abbrev pub no_statics : Statics
no_statics = record {
  reactor = empty;
  unparker = empty;
  threads = 0;
  reactors = 0;
  place = λ _. outside;
}

-- `OnceLock::get_or_init`, which waits while another thread is in the closure: where the thread is
-- after it, and the lock.
unfoldable pub get_or_init : OnceLock → ℕ → InitPc → InitPc → InitPc → OnceLock × InitPc
get_or_init empty i here inside after = (running i, inside)
get_or_init (running j) i here inside after = (running j, here)
get_or_init full i here inside after = (full, after)

-- Where `unparker` returns to.
unfoldable pub after_unparker : Bool → InitPc
after_unparker true = building
after_unparker false = outside

-- `Reactor::get`, `init` and `unparker`, a step at a time.
unfoldable pub init_step : InitPc → Statics → ℕ → Statics
unfolding get_or_init after_unparker
init_step outside s i = s
init_step at_reactor s i =
    let (once, pc) = get_or_init s.reactor i at_reactor in_reactor outside in
    record s { reactor = once; place = update s.place i pc }
init_step in_reactor s i = record s { place = update s.place i (at_unparker true) }
init_step (at_unparker b) s i =
    let (once, pc) = get_or_init s.unparker i (at_unparker b) (in_unparker b) (after_unparker b) in
    record s { unparker = once; place = update s.place i pc }
init_step (in_unparker b) s i = record s {
  unparker = full;
  threads = s.threads + 1;
  place = update s.place i (after_unparker b);
}
init_step building s i = record s {
  reactor = full;
  reactors = s.reactors + 1;
  place = update s.place i outside;
}

-- Whether a step of the thread does anything: it does not while it waits for another.
unfoldable pub is_running : OnceLock → Bool
is_running (running j) = true
is_running _ = false

abbrev pub is_stuck : Statics → InitPc → Bool
is_stuck s at_reactor = is_running s.reactor
is_stuck s (at_unparker b) = is_running s.unparker
is_stuck s _ = false

pub data InitStep (s : Statics) : Statics → Type 0 where
  gets :
      (i : ℕ) → s.place i ≡ outside → InitStep s (record s { place = update s.place i at_reactor })
  unparks :
      (i : ℕ)
      → s.place i ≡ outside
      → InitStep s (record s { place = update s.place i (at_unparker false) })
  goes_on : (i : ℕ) → InitStep s (init_step (s.place i) s i)

pub data InitReach : Statics → Type 0 where
  here : InitReach no_statics
  next : {s t : Statics} → InitReach s → InitStep s t → InitReach t
