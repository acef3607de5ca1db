-- ===== src/Reactor/Directions/Laws.antt =====
-- Draining a direction wakes all who wait for it and leaves it empty.
use async_io.Base.{
  ℕ, ◌≡◌, refl, ◌≢◌, ◌∙◌, ap, sym, ◌⊎◌, inl, inr, Bool, true, false, ◌||◌, List, [], ◌∷◌, ◌++◌,
  append_assoc, append-nil, Option, none, some, In, arith, ◌==◌, if◌then◌else◌, Bool-cases,
  Option-cases,
}
use async_io.Timers.{Waker}
use async_io.Reactor.{Platform, Direction}
use async_io.Reactor.Directions.{is_none, all_none, push_taken, is_empty, drain_slots, drain_into}

-- The wakers in the slots of `Direction::wakers`, in their order.
unfoldable pub slot_wakers : List (ℕ × Option Waker) → List Waker
slot_wakers [] = []
slot_wakers ((i, opt) ∷ slots) = push_taken opt [] ++ slot_wakers slots

-- A slot that has been drained.
abbrev pub cleared : Option (Option Waker) → Option (Option Waker)
cleared none = none
cleared (some _) = some none

push_taken-append :
    (opt : Option Waker) (dst : List Waker) → push_taken opt dst ≡ dst ++ push_taken opt []
unfolding push_taken
push_taken-append none dst = sym (append-nil dst)
push_taken-append (some w) dst = refl

all_none-In :
    (i : ℕ) (w : Waker) (slots : List (ℕ × Option Waker))
    → In (i, some w) slots
    → all_none slots ≡ false
unfolding all_none
all_none-In i w [] h = elim h [ ]
all_none-In i w ((j, none) ∷ slots) (inl e) = ground (arith, ap (λ (p : ℕ × Option Waker). p.1) e)
all_none-In i w ((j, some v) ∷ slots) h = refl
all_none-In i w ((j, none) ∷ slots) (inr h) = all_none-In i w slots h

-- If some slot holds a waker, it can be named.
all_none-false :
    (slots : List (ℕ × Option Waker))
    → all_none slots ≡ false
    → (i : ℕ) × (w : Waker) × In (i, some w) slots
unfolding all_none
all_none-false [] h = cc
all_none-false ((j, none) ∷ slots) h = let (i, w, m) = all_none-false slots h in (i, w, inr m)
all_none-false ((j, some v) ∷ slots) h = (j, v, inl refl)

cleared_none : (o : Option (Option Waker)) (w : Waker) → cleared o ≡ some (some w) → ⊥
cleared_none none w e = cc
cleared_none (some opt) w e = ground arith

has_key : ℕ → List (ℕ × Option Waker) → Bool
has_key k [] = false
has_key k ((i, opt) ∷ slots) = k == i || has_key k slots

has_key-In :
    (k : ℕ) (opt : Option Waker) (slots : List (ℕ × Option Waker))
    → In (k, opt) slots
    → has_key k slots ≡ true
unfolding has_key
has_key-In k opt [] h = elim h [ ]
has_key-In k opt ((i, v) ∷ slots) (inl e) = ground (arith, ap (λ (p : ℕ × Option Waker). p.0) e)
has_key-In k opt ((i, v) ∷ slots) (inr h) = ground (arith, has_key-In k opt slots h)

module _ (X : Platform) where
  -- All wakers that wait for the direction, in the order in which they are woken.
  unfoldable pub waiting : Direction X → List Waker
  waiting d = push_taken d.waker [] ++ slot_wakers (X.slab.iter d.wakers)

  -- The direction has a waker in a slot of its table.
  pub is_empty_slot :
      (d : Direction X) (i : ℕ) (w : Waker)
      → X.slab.get d.wakers i ≡ some (some w)
      → is_empty X d ≡ false
  unfolding is_empty
  is_empty_slot d i w e =
      rw (all_none-In i w (X.slab.iter d.wakers) (X.slab.in-iter_of_get d.wakers i (some w) e))
        (ground arith)

  pub is_empty_waker : (d : Direction X) (w : Waker) → d.waker ≡ some w → is_empty X d ≡ false
  unfolding is_empty is_none
  is_empty_waker d w e = ground arith

  -- The other way round: a direction that is not empty has a waker somewhere.
  pub is_empty-false :
      (d : Direction X)
      → is_empty X d ≡ false
      → ((w : Waker) × (d.waker ≡ some w))
        ⊎ ((i : ℕ) × (w : Waker) × (X.slab.get d.wakers i ≡ some (some w)))
  unfolding is_empty is_none
  is_empty-false d h = elim (Option-cases d.waker) [
    | inr (w, e) ↦ inl (w, e)
    | inl e ↦
        let (i, w, m) = all_none-false (X.slab.iter d.wakers) (ground arith) in
        inr (i, w, X.slab.get_of_in-iter d.wakers i (some w) m)
  ]

  drain_slots_wakers :
      (slots : List (ℕ × Option Waker)) (s : X.slab.Slab (Option Waker)) (dst : List Waker)
      → (drain_slots X slots s dst).1 ≡ dst ++ slot_wakers slots
  unfolding drain_slots slot_wakers
  drain_slots_wakers [] s dst = sym (append-nil dst)
  drain_slots_wakers ((i, opt) ∷ slots) s dst =
      drain_slots_wakers slots (X.slab.set s i none) (push_taken opt dst)
      ∙ rw (push_taken-append opt dst) (append_assoc dst (push_taken opt []) (slot_wakers slots))

  -- `drain_into` puts the wakers that wait in the direction, and no others, behind those collected
  -- before.
  pub drain_into_wakers :
      (d : Direction X) (dst : List Waker) → (drain_into X d dst).1 ≡ dst ++ waiting d
  unfolding drain_into waiting
  drain_into_wakers d dst =
      drain_slots_wakers (X.slab.iter d.wakers) d.wakers (push_taken d.waker dst)
      ∙ rw (push_taken-append d.waker dst) (append_assoc dst _ _)

  -- While the slots are drained, all of them stay occupied.
  Occupied : X.slab.Slab (Option Waker) → List (ℕ × Option Waker) → Type 0
  Occupied s slots = (i : ℕ) (opt : Option Waker) → In (i, opt) slots → X.slab.get s i ≢ none

  set-Occupied :
      (s : X.slab.Slab (Option Waker)) (i : ℕ) (slots : List (ℕ × Option Waker))
      → X.slab.get s i ≢ none
      → Occupied s slots
      → Occupied (X.slab.set s i none) slots
  unfolding Occupied
  set-Occupied s i slots here occ j opt m =
      rw (X.slab.get-set s i none j here) (ground (arith, occ j opt m))

  drain_slots_get :
      (slots : List (ℕ × Option Waker)) (s : X.slab.Slab (Option Waker)) (dst : List Waker) (k : ℕ)
      → Occupied s slots
      → X.slab.get (drain_slots X slots s dst).0 k
        ≡ (if has_key k slots then some none else X.slab.get s k)
  unfolding drain_slots has_key Occupied
  drain_slots_get [] s dst k occ = refl
  drain_slots_get ((i, opt) ∷ slots) s dst k occ =
      let here = occ i opt (inl refl) in
      let rest = set-Occupied s i slots here (λ j o m. occ j o (inr m)) in
      rw
        (
          drain_slots_get slots (X.slab.set s i none) (push_taken opt dst) k rest,
          X.slab.get-set s i none k here,
        )
        (ground arith)

  has_key-none :
      (s : X.slab.Slab (Option Waker)) (slots : List (ℕ × Option Waker)) (k : ℕ)
      → Occupied s slots
      → X.slab.get s k ≡ none
      → has_key k slots ≡ false
  unfolding has_key Occupied
  has_key-none s [] k occ e = refl
  has_key-none s ((i, opt) ∷ slots) k occ e =
      ground (arith, occ i opt (inl refl), has_key-none s slots k (λ j o m. occ j o (inr m)) e)

  -- After `drain_into` every occupied slot is cleared and no other key is occupied.
  drain_into_get :
      (d : Direction X) (dst : List Waker) (k : ℕ)
      → X.slab.get (drain_into X d dst).0.wakers k ≡ cleared (X.slab.get d.wakers k)
  unfolding drain_into Occupied
  drain_into_get d dst k =
      let occ : Occupied d.wakers (X.slab.iter d.wakers) =
        λ i opt m. let e = X.slab.get_of_in-iter d.wakers i opt m in λ z. ground arith in
      elim (Option-cases (X.slab.get d.wakers k)) [
        | inl e ↦
            drain_slots_get (X.slab.iter d.wakers) d.wakers (push_taken d.waker dst) k occ
            ∙ rw (has_key-none d.wakers (X.slab.iter d.wakers) k occ e, e) refl
        | inr (opt, e) ↦
            drain_slots_get (X.slab.iter d.wakers) d.wakers (push_taken d.waker dst) k occ
            ∙ rw (has_key-In k opt _ (X.slab.in-iter_of_get d.wakers k opt e), e) refl
      ]

  -- A drained direction is empty.
  pub drain_into-is_empty :
      (d : Direction X) (dst : List Waker) → is_empty X (drain_into X d dst).0 ≡ true
  drain_into-is_empty d dst = elim (Bool-cases (is_empty X (drain_into X d dst).0)) [
    | inl e ↦ e
    | inr e ↦ absurd (elim (is_empty-false (drain_into X d dst).0 e) [
      | inl (w, f) ↦ unfold drain_into in ground arith
      | inr (i, w, f) ↦ cleared_none (X.slab.get d.wakers i) w (sym (drain_into_get d dst i) ∙ f)
    ])
  ]
