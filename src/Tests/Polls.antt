-- ===== src/Tests/Polls.antt =====
-- A poller that reports what a script says, on which the laws of `External/Poller` hold.
use async_io.Base.{
  ℕ, ◌≡◌, ◌≢◌, ◌⊎◌, inl, inr, refl, List, [], ◌∷◌, Option, none, some, Bool, true, false, In, map,
  if◌then◌else◌, ◌==◌, subst, arith, ErrorKind, other, IoResult, ok, err, Bool-cases,
}
use async_io.External.Poller.{Event, no_event, PollerCrate}

-- `interest` is the interest of each descriptor; `script` what the next waits report.
pub record Scripted : Type 0 where
  pub interest : ℕ → Option Event
  pub script : List (IoResult (List Event))

abbrev pub reported : List Event → ℕ → Bool
reported [] key = false
reported (ev ∷ evs) key = let rest = reported evs key in if ev.key == key then true else rest

abbrev pub put : Scripted → ℕ → Option Event → Scripted
put p raw o = record p { interest = λ fd. if raw == fd then o else p.interest fd }

-- `epoll_ctl` with EPOLL_CTL_ADD: a descriptor is added once.
abbrev pub add : Scripted → ℕ → Event → Scripted × IoResult (Unit {0})
add p raw ev = elim (p.interest raw) [
  | none ↦ (put p raw (some ev), ok tt)
  | some old ↦ (p, err other)
]

abbrev pub modify : Scripted → ℕ → Event → Scripted × IoResult (Unit {0})
modify p raw ev = elim (p.interest raw) [
  | none ↦ (p, err other)
  | some old ↦ (put p raw (some ev), ok tt)
]

abbrev pub delete : Scripted → ℕ → Scripted × IoResult (Unit {0})
delete p raw = (put p raw none, ok tt)

-- The one-shot mode: an event that is delivered ends the interest.
abbrev pub spent : List Event → Option Event → Option Event
spent evs none = none
spent evs (some ev) = if reported evs ev.key then some (no_event ev.key) else some ev

abbrev pub wait_from : List (IoResult (List Event)) → Scripted → Scripted × IoResult (List Event)
wait_from [] p = (p, ok [])
wait_from (err e ∷ rest) p = (record p { script = rest }, err e)
wait_from (ok evs ∷ rest) p =
    (record { interest = λ fd. spent evs (p.interest fd); script = rest }, ok evs)

reported-In :
    (evs : List Event) (key : ℕ) → reported evs key ≡ true → In key (map (λ ev. ev.key) evs)
reported-In [] key h = cc
reported-In (ev ∷ evs) key h = elim (Bool-cases (ev.key == key)) [
  | inl e ↦ inl (ground arith)
  | inr e ↦ inr (reported-In evs key (ground arith))
]

spent_cases :
    (evs : List Event) (o : Option Event)
    → (spent evs o ≡ o)
      ⊎ ((e : Event) × (o ≡ some e)
          × In e.key (map (λ ev. ev.key) evs)
          × (spent evs o ≡ some (no_event e.key)))
spent_cases evs none = inl refl
spent_cases evs (some ev) = elim (Bool-cases (reported evs ev.key)) [
  | inl e ↦ inr (ev, refl, reported-In evs ev.key e, ground arith)
  | inr e ↦ inl (ground arith)
]

pub wait_from_ok :
    (script : List (IoResult (List Event))) (p : Scripted) (evs : List Event) (fd : ℕ)
    → (wait_from script p).1 ≡ ok evs
    → ((wait_from script p).0.interest fd ≡ p.interest fd)
      ⊎ ((e : Event) × (p.interest fd ≡ some e)
          × In e.key (map (λ ev. ev.key) evs)
          × ((wait_from script p).0.interest fd ≡ some (no_event e.key)))
wait_from_ok [] p evs fd h = inl refl
wait_from_ok (err e ∷ rest) p evs fd h = inl refl
wait_from_ok (ok es ∷ rest) p evs fd h =
    let same : es ≡ evs = cc in
    subst
      (λ (l : List Event).
        (spent es (p.interest fd) ≡ p.interest fd)
        ⊎ ((e : Event) × (p.interest fd ≡ some e)
            × In e.key (map (λ ev. ev.key) l)
            × (spent es (p.interest fd) ≡ some (no_event e.key))))
      same (spent_cases es (p.interest fd))

pub wait_from_err :
    (script : List (IoResult (List Event))) (p : Scripted) (e : ErrorKind) (fd : ℕ)
    → (wait_from script p).1 ≡ err e
    → (wait_from script p).0.interest fd ≡ p.interest fd
wait_from_err [] p e fd h = refl
wait_from_err (err k ∷ rest) p e fd h = refl
wait_from_err (ok evs ∷ rest) p e fd h = cc

pub add_ok :
    (p : Scripted) (raw : ℕ) (ev : Event)
    → (add p raw ev).1 ≡ ok tt
    → (p.interest raw ≡ none) × ((add p raw ev).0.interest raw ≡ some ev)
add_ok p raw ev h = ground arith

pub add_err :
    (p : Scripted) (raw : ℕ) (ev : Event) (e : ErrorKind)
    → (add p raw ev).1 ≡ err e
    → (add p raw ev).0.interest raw ≡ p.interest raw
add_err p raw ev e h = ground arith

pub add_ne :
    (p : Scripted) (raw : ℕ) (ev : Event) (fd : ℕ)
    → raw ≢ fd
    → (add p raw ev).0.interest fd ≡ p.interest fd
add_ne p raw ev fd ne = ground arith

pub modify_ok :
    (p : Scripted) (raw : ℕ) (ev : Event)
    → (modify p raw ev).1 ≡ ok tt
    → (modify p raw ev).0.interest raw ≡ some ev
modify_ok p raw ev h = ground arith

pub modify_err :
    (p : Scripted) (raw : ℕ) (ev : Event) (e : ErrorKind) (old : Event)
    → p.interest raw ≡ some old
    → (modify p raw ev).1 ≡ err e
    → (now : Event) × ((modify p raw ev).0.interest raw ≡ some now)
      × ((now.key ≡ old.key) ⊎ (now.key ≡ ev.key))
modify_err p raw ev e old was failed = absurd (ground arith)

pub modify_ne :
    (p : Scripted) (raw : ℕ) (ev : Event) (fd : ℕ)
    → raw ≢ fd
    → (modify p raw ev).0.interest fd ≡ p.interest fd
modify_ne p raw ev fd ne = ground arith

pub delete_ne :
    (p : Scripted) (raw fd : ℕ) → raw ≢ fd → (delete p raw).0.interest fd ≡ p.interest fd
delete_ne p raw fd ne = ground arith

abbrev pub scripted_poller : PollerCrate
scripted_poller = record {
  Poller = Scripted;
  add = add;
  modify = modify;
  delete = delete;
  notify = λ p. p;
  wait = λ p timeout. wait_from p.script p;
  interest = λ p. p.interest;
  add_ok = add_ok;
  add_err = add_err;
  add_ne = add_ne;
  modify_ok = modify_ok;
  modify_err = modify_err;
  modify_ne = modify_ne;
  delete_ne = delete_ne;
  interest-notify = λ p fd. refl;
  wait_ok = λ p timeout evs fd h. wait_from_ok p.script p evs fd h;
  wait_err = λ p timeout e fd h. wait_from_err p.script p e fd h;
}
