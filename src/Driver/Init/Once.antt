-- ===== src/Driver/Init/Once.antt =====
-- The reactor and the "async-io" thread are made once (`src/driver.rs`, `src/reactor.rs`).
use async_io.Base.{
  ℕ, ◌≤◌, ◌≡◌, ◌≢◌, refl, sym, ◌∙◌, subst, ◌⊎◌, inl, inr, Bool, true, false, arith, update,
  update_all, ◌==◌,
}
use async_io.Driver.Init.{
  OnceLock, running, full, InitPc, outside, at_reactor, in_reactor, building, at_unparker,
  in_unparker, Statics, get_or_init, after_unparker, init_step, InitStep, gets, unparks, goes_on,
  InitReach, here, next,
}

-- Whether the thread at this place is in the closure of the reactor, or of the unparker.
abbrev pub making : InitPc → Bool
making in_reactor = true
making building = true
making (at_unparker b) = b
making (in_unparker b) = b
making _ = false

abbrev pub spawning : InitPc → Bool
spawning (in_unparker b) = true
spawning _ = false

abbrev pub runs : OnceLock → ℕ → Bool
runs (running j) i = j == i
runs _ i = false

abbrev count : OnceLock → ℕ
count full = 1
count _ = 0

-- What holds of the thread `i` and the locks.
pub record Here (reactor unparker : OnceLock) (i : ℕ) (pc : InitPc) : Type 0 where
  pub makes : making pc ≡ runs reactor i
  pub spawns : spawning pc ≡ runs unparker i
  spawned : pc ≡ building → unparker ≡ full

pub record InitInv (s : Statics) : Type 0 where
  pub each : (i : ℕ) → Here s.reactor s.unparker i (s.place i)
  threads : s.threads ≡ count s.unparker
  reactors : s.reactors ≡ count s.reactor
  first : s.reactor ≡ full → s.unparker ≡ full

-- The thread `i` comes to `pc`, and of the locks only what concerns it changes.
record Moved (s t : Statics) (i : ℕ) (pc : InitPc) : Type 0 where
  place : t.place ≡ update s.place i pc
  mine : Here t.reactor t.unparker i pc
  reactor : (j : ℕ) → i ≢ j → runs t.reactor j ≡ runs s.reactor j
  unparker : (j : ℕ) → i ≢ j → runs t.unparker j ≡ runs s.unparker j
  stays_full : s.unparker ≡ full → t.unparker ≡ full
  threads : t.threads ≡ count t.unparker
  reactors : t.reactors ≡ count t.reactor
  first : t.reactor ≡ full → t.unparker ≡ full

Moved-InitInv : (s t : Statics) (i : ℕ) (pc : InitPc) → Moved s t i pc → InitInv s → InitInv t
Moved-InitInv s t i pc m v = record {
  each =
      subst (λ (f : ℕ → InitPc). (j : ℕ) → Here t.reactor t.unparker j (f j)) (sym m.place)
        (update_all (Here t.reactor t.unparker) s.place i pc m.mine (λ j n.
          let h = v.each j in
          record {
            makes = h.makes ∙ sym (m.reactor j n);
            spawns = h.spawns ∙ sym (m.unparker j n);
            spawned = λ e. m.stays_full (h.spawned e);
          }));
  threads = m.threads;
  reactors = m.reactors;
  first = m.first;
}

init_step-Moved :
    (pc : InitPc) (s : Statics) (i : ℕ)
    → InitInv s
    → Here s.reactor s.unparker i pc
    → (init_step pc s i ≡ s) ⊎ ((pc' : InitPc) × Moved s (init_step pc s i) i pc')
unfolding init_step get_or_init after_unparker
init_step-Moved outside s i v h = inl refl
init_step-Moved _ s i v h = inr (
  _,
  record {
    place = refl;
    mine = record {
      makes = ground (arith, h.makes);
      spawns = ground (arith, h.spawns);
      spawned = λ e. ground (arith, h.spawned, v.first);
    };
    reactor = λ j n. ground (arith, h.makes);
    unparker = λ j n. ground (arith, h.spawns);
    stays_full = λ e. ground (arith, h.spawns);
    threads = ground (arith, v.threads, h.spawns);
    reactors = ground (arith, v.reactors, h.makes);
    first = λ e. ground (arith, v.first, h.spawned);
  },
)

-- A thread begins a call.
begins-InitInv :
    (s : Statics) (i : ℕ) (pc : InitPc)
    → s.place i ≡ outside
    → making pc ≡ false
    → spawning pc ≡ false
    → pc ≢ building
    → InitInv s
    → InitInv (record s { place = update s.place i pc })
begins-InitInv s i pc e makes spawns b v =
    let h = subst (λ (x : InitPc). Here s.reactor s.unparker i x) e (v.each i) in
    record {
      each =
          update_all (Here s.reactor s.unparker) s.place i pc
            (record {
              makes = makes ∙ h.makes;
              spawns = spawns ∙ h.spawns;
              spawned = λ f. absurd (b f);
            })
            (λ j n. v.each j);
      threads = v.threads;
      reactors = v.reactors;
      first = v.first;
    }

InitStep-InitInv : {s t : Statics} → InitStep s t → InitInv s → InitInv t
InitStep-InitInv {s} (gets i e) v = begins-InitInv s i at_reactor e refl refl (λ f. cc) v
InitStep-InitInv {s} (unparks i e) v =
    begins-InitInv s i (at_unparker false) e refl refl (λ f. cc) v
InitStep-InitInv {s} (goes_on i) v = elim (init_step-Moved (s.place i) s i v (v.each i)) [
  | inl same ↦ subst (λ (x : Statics). InitInv x) (sym same) v
  | inr (pc, m) ↦ Moved-InitInv s _ i pc m v
]

pub InitReach-InitInv : {s : Statics} → InitReach s → InitInv s
InitReach-InitInv here = record {
  each = λ i. record { makes = refl; spawns = refl; spawned = λ e. cc };
  threads = refl;
  reactors = refl;
  first = λ e. cc;
}
InitReach-InitInv (next r st) = InitStep-InitInv st (InitReach-InitInv r)

-- Whichever threads call `Reactor::get` and `unparker` first and however their steps interleave: at
-- most one "async-io" thread is spawned and at most one reactor is made, and once the reactor can
-- be used there is one of each.
pub InitReach-once :
    (s : Statics)
    → InitReach s
    → (s.threads ≤ 1) × (s.reactors ≤ 1) × (s.reactor ≡ full → (s.threads ≡ 1) × (s.reactors ≡ 1))
InitReach-once s r =
    let v = InitReach-InitInv r in
    (
      ground (arith, v.threads),
      ground (arith, v.reactors),
      λ e. (ground (arith, v.threads, v.first), ground (arith, v.reactors)),
    )
