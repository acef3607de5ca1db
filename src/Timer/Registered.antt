-- ===== src/Timer/Registered.antt =====
-- The registration of a timer in the reactor, kept by every operation of `Timer`.
use native.Mathlib.Nat.{mod-eq_of_lt}
use async_io.Base.{ℕ, ◌+◌, ◌<◌, ◌≡◌, refl, ◌≢◌, ◌∙◌, ◌⊎◌, inl, inr, List, Option, none, some, arith}
use async_io.Timers.{Waker, Entry, lookup, insert, remove}
use async_io.Timers.Lookup.{lookup-insert, lookup-remove}
use async_io.Reactor.{Platform, Reactor, usize_mod}
use async_io.Reactor.TimerQueue.{insert_timer}
use async_io.Reactor.TimerQueue.Schedule.{scheduled, HasRoom, Keeps}
use async_io.Reactor.TimerQueue.Laws.{
  IdsBelow, lookup_fresh, IdsBelow-mono, insert-IdsBelow, remove-IdsBelow, insert_timer_lem,
  remove_timer_lem,
}
use async_io.Timer.{Timer, deregister}

-- A timer with an ID has one scheduled entry, at its deadline and with its waker, or none if it
-- has no deadline. Without an ID it has no entry to speak of.
abbrev pub IsRegistered : Option ℕ → Option (ℕ × Waker) → ℕ → List Entry → Type 0
IsRegistered when none g m = Unit {0}
IsRegistered none (some (id, k)) g m = (id < g) × ((w : ℕ) → lookup w id m ≡ none)
IsRegistered (some when) (some (id, k)) g m =
    (id < g) × (lookup when id m ≡ some k) × ((w : ℕ) → w ≢ when → lookup w id m ≡ none)

-- The timer that `id_and_waker` belongs to is not the one with the ID `id`.
abbrev pub IsOther : Option (ℕ × Waker) → ℕ → Type 0
IsOther none id = Unit {0}
IsOther (some (own, _)) id = own ≢ id

module _ (X : Platform) where
  pub record IsValid (t : Timer) (r : Reactor X) : Type 0 where
    pub room : HasRoom X r
    pub issued : IdsBelow r.id_generator (scheduled X r)
    pub registered : IsRegistered t.when t.id_and_waker r.id_generator (scheduled X r)

  -- A valid timer, or one whose entry has been taken out of the map when it fired.
  pub record IsValidOrFired (t : Timer) (r : Reactor X) : Type 0 where
    pub room : HasRoom X r
    pub issued : IdsBelow r.id_generator (scheduled X r)
    pub registered :
        IsRegistered t.when t.id_and_waker r.id_generator (scheduled X r)
        ⊎ IsRegistered none t.id_and_waker r.id_generator (scheduled X r)

  -- The generator's next ID is not the last one before it wraps around.
  abbrev pub NoWrap : Reactor X → Type 0
  NoWrap r = r.id_generator + 1 < usize_mod

  -- No entry of another timer that has an ID by now is touched.
  abbrev pub KeepsOthers : Option (ℕ × Waker) → Reactor X → Reactor X → Type 0
  KeepsOthers idw r r' =
      (w id : ℕ)
      → id < r.id_generator
      → IsOther idw id
      → lookup w id (scheduled X r') ≡ lookup w id (scheduled X r)

  abbrev pub unregister : Option ℕ → Option (ℕ × Waker) → List Entry → List Entry
  unregister (some when) (some (id, _)) m = remove when id m
  unregister _ _ m = m

  Keeps-refl : (r : Reactor X) → Keeps X r r
  Keeps-refl r = record {
    poller = refl;
    ticker = refl;
    sources = refl;
    id_generator = refl;
    capacity = refl;
  }

  pub deregister_lem :
      (when : Option ℕ) (idw : Option (ℕ × Waker)) (r : Reactor X)
      → HasRoom X r
      → (scheduled X (deregister X when idw r) ≡ unregister when idw (scheduled X r))
        × Keeps X r (deregister X when idw r)
  unfolding deregister
  deregister_lem (some when) (some (id, k)) r h = remove_timer_lem X r when id h
  deregister_lem none idw r h = (refl, Keeps-refl r)
  deregister_lem (some when) none r h = (refl, Keeps-refl r)

  unregister-IsRegistered :
      (when : Option ℕ) (idw : Option (ℕ × Waker)) (g : ℕ) (m : List Entry)
      → IsRegistered when idw g m
      → IsRegistered none idw g (unregister when idw m)
  unregister-IsRegistered none none g m h = tt
  unregister-IsRegistered (some when) none g m h = tt
  unregister-IsRegistered none (some (id, k)) g m h = h
  unregister-IsRegistered (some when) (some (id, k)) g m h =
      (h.0, λ w. rw (lookup-remove when id w id m) (ground (arith, h.2 w)))

  unregister-IsFired :
      (when : Option ℕ) (idw : Option (ℕ × Waker)) (g : ℕ) (m : List Entry)
      → IsRegistered none idw g m
      → IsRegistered none idw g (unregister when idw m)
  unregister-IsFired none none g m h = tt
  unregister-IsFired (some when) none g m h = tt
  unregister-IsFired none (some (id, k)) g m h = h
  unregister-IsFired (some when) (some (id, k)) g m h =
      (h.0, λ w. rw (lookup-remove when id w id m) (ground (arith, h.1 w)))

  unregister-IdsBelow :
      (when : Option ℕ) (idw : Option (ℕ × Waker)) (g : ℕ) (m : List Entry)
      → IdsBelow g m
      → IdsBelow g (unregister when idw m)
  unregister-IdsBelow none none g m h = h
  unregister-IdsBelow (some when) none g m h = h
  unregister-IdsBelow none (some (id, k)) g m h = h
  unregister-IdsBelow (some when) (some (id, k)) g m h = remove-IdsBelow g when id m h

  unregister_other :
      (when : Option ℕ) (idw : Option (ℕ × Waker)) (m : List Entry) (w id : ℕ)
      → IsOther idw id
      → lookup w id (unregister when idw m) ≡ lookup w id m
  unregister_other none none m w id h = refl
  unregister_other (some when) none m w id h = refl
  unregister_other none (some (own, k)) m w id h = refl
  unregister_other (some when) (some (own, k)) m w id h =
      rw (lookup-remove when own w id m) (ground arith)

  -- After a deregistration, with the deadline forgotten.
  pub deregister-IsValid :
      (t t' : Timer) (r : Reactor X)
      → t'.when ≡ none
      → t'.id_and_waker ≡ t.id_and_waker
      → IsValid t r
      → IsValid t' (deregister X t.when t.id_and_waker r)
  deregister-IsValid t t' r e f v =
      let (s, k) = deregister_lem t.when t.id_and_waker r v.room in
      record {
        room = rw k.capacity v.room;
        issued = rw (s, k.id_generator) (unregister-IdsBelow t.when t.id_and_waker _ _ v.issued);
        registered =
            rw (s, k.id_generator, e, f)
              (unregister-IsRegistered t.when t.id_and_waker _ _ v.registered);
      }

  -- The same, whether the entry is still there or not.
  pub deregister_fired-IsValid :
      (t t' : Timer) (r : Reactor X)
      → t'.when ≡ none
      → t'.id_and_waker ≡ t.id_and_waker
      → IsValidOrFired t r
      → IsValid t' (deregister X t.when t.id_and_waker r)
  deregister_fired-IsValid t t' r e f v = elim v.registered [
    | inl h ↦
        deregister-IsValid t t' r e f (record { room = v.room; issued = v.issued; registered = h })
    | inr h ↦
        let (s, k) = deregister_lem t.when t.id_and_waker r v.room in
        record {
          room = rw k.capacity v.room;
          issued = rw (s, k.id_generator) (unregister-IdsBelow t.when t.id_and_waker _ _ v.issued);
          registered =
              rw (s, k.id_generator, e, f) (unregister-IsFired t.when t.id_and_waker _ _ h);
        }
  ]

  pub deregister-KeepsOthers :
      (when : Option ℕ) (idw : Option (ℕ × Waker)) (r : Reactor X)
      → HasRoom X r
      → KeepsOthers idw r (deregister X when idw r)
  deregister-KeepsOthers when idw r h w id lt o =
      rw (deregister_lem when idw r h).0 (unregister_other when idw (scheduled X r) w id o)

  insert-IsRegistered :
      (when g : ℕ) (k : Waker) (m : List Entry)
      → IdsBelow g m
      → IsRegistered (some when) (some (g, k)) (g + 1) (insert when g k m)
  insert-IsRegistered when g k m b = (
    omega arith,
    rw (lookup-insert when g k when g m) (ground arith),
    λ w ne. rw (lookup-insert when g k w g m) (ground (arith, lookup_fresh g w g m)),
  )

  -- The timer under a new ID, from a timer that has no entry.
  pub insert_timer-IsValid :
      (t : Timer) (when : ℕ) (k : Waker) (r : Reactor X)
      → HasRoom X r
      → IdsBelow r.id_generator (scheduled X r)
      → NoWrap r
      → t.when ≡ some when
      → t.id_and_waker ≡ some ((insert_timer X r when k).0, k)
      → IsValid t (insert_timer X r when k).1
  insert_timer-IsValid t when k r h b n e f =
      let l = insert_timer_lem X r when k h in
      let g : (insert_timer X r when k).1.id_generator ≡ r.id_generator + 1 =
        l.3 ∙ mod-eq_of_lt n in
      record {
        room = l.2;
        issued =
            rw (l.1, g)
              (insert-IdsBelow _ when _ k _ (omega arith)
                (IdsBelow-mono _ _ (scheduled X r) (omega arith) b));
        registered = rw (l.1, g, e, f, l.0) (insert-IsRegistered when _ k _ b);
      }

  pub insert_timer-KeepsOthers :
      (when : ℕ) (k : Waker) (r : Reactor X) (w id : ℕ)
      → HasRoom X r
      → id < r.id_generator
      → lookup w id (scheduled X (insert_timer X r when k).1) ≡ lookup w id (scheduled X r)
  insert_timer-KeepsOthers when k r w id h lt =
      rw
        (
          (insert_timer_lem X r when k h).1,
          lookup-insert when r.id_generator k w id (scheduled X r),
        )
        (ground arith)

pub lookup_registered :
    (when : Option ℕ) (idw : Option (ℕ × Waker)) (g : ℕ) (m : List Entry) (w id : ℕ) (k : Waker)
    → when ≡ some w
    → idw ≡ some (id, k)
    → IsRegistered when idw g m
    → lookup w id m ≡ some k
lookup_registered when none g m w id k e f h = cc
lookup_registered none (some p) g m w id k e f h = cc
lookup_registered (some when) (some (own, k')) g m w id k e f h = ground (arith, h.1)
