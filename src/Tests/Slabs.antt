-- ===== src/Tests/Slabs.antt =====
-- A slab as a list of slots, on which the laws of `External/Slab` hold.
use async_io.Base.{
  ℕ, ◌+◌, ◌-◌, ◌≤◌, ◌≡◌, ◌≢◌, inl, inr, refl, List, [], ◌∷◌, Option, none, some, In, if◌then◌else◌,
  ◌==◌, ◌∙◌, sym, ap, subst, arith, Bool-cases,
}
use async_io.External.Slab.{SlabCrate}

module _ {T : Type 0} where
  abbrev pub get_slot : List (Option T) → ℕ → Option T
  get_slot [] k = none
  get_slot (x ∷ xs) k = let rest = get_slot xs (k - 1) in if k == 0 then x else rest

  abbrev pub first_free : List (Option T) → ℕ
  first_free [] = 0
  first_free (none ∷ xs) = 0
  first_free (some v ∷ xs) = 1 + first_free xs

  abbrev pub fill : List (Option T) → T → List (Option T)
  fill [] v = some v ∷ []
  fill (none ∷ xs) v = some v ∷ xs
  fill (some u ∷ xs) v = some u ∷ fill xs v

  abbrev pub assign : List (Option T) → ℕ → Option T → List (Option T)
  assign [] k o = []
  assign (x ∷ xs) k o = let rest = assign xs (k - 1) o in if k == 0 then o ∷ xs else x ∷ rest

  abbrev pub iter_from : ℕ → List (Option T) → List (ℕ × T)
  iter_from n [] = []
  iter_from n (none ∷ xs) = iter_from (n + 1) xs
  iter_from n (some v ∷ xs) = (n, v) ∷ iter_from (n + 1) xs

  pub get_slot-first_free : (xs : List (Option T)) → get_slot xs (first_free xs) ≡ none
  get_slot-first_free [] = refl
  get_slot-first_free (none ∷ xs) = refl
  get_slot-first_free (some v ∷ xs) =
      let h = get_slot-first_free xs in
      let e : 1 + first_free xs - 1 ≡ first_free xs = omega arith in
      let same : get_slot xs (1 + first_free xs - 1) ≡ none = ap (get_slot xs) e ∙ h in ground arith

  pub get_slot-fill :
      (xs : List (Option T)) (v : T) (k : ℕ)
      → get_slot (fill xs v) k ≡ (if first_free xs == k then some v else get_slot xs k)
  get_slot-fill [] v k = ground arith
  get_slot-fill (none ∷ xs) v k = ground arith
  get_slot-fill (some u ∷ xs) v k = let h = get_slot-fill xs v (k - 1) in ground arith

  pub get_slot-assign :
      (xs : List (Option T)) (k : ℕ) (o : Option T) (j : ℕ)
      → get_slot xs k ≢ none
      → get_slot (assign xs k o) j ≡ (if k == j then o else get_slot xs j)
  get_slot-assign [] k o j ne = absurd (ne refl)
  get_slot-assign (x ∷ xs) k o j ne = elim (Bool-cases (k == 0)) [
    | inl e ↦ ground arith
    | inr e ↦
        let ne' : get_slot xs (k - 1) ≢ none = λ z. ne (ground arith) in
        let h = get_slot-assign xs (k - 1) o (j - 1) ne' in ground arith
  ]

  iter_from_sound :
      (n : ℕ) (xs : List (Option T)) (k : ℕ) (v : T)
      → In (k, v) (iter_from n xs)
      → (n ≤ k) × (get_slot xs (k - n) ≡ some v)
  iter_from_sound n [] k v m = elim m [ ]
  iter_from_sound n (none ∷ xs) k v m =
      let (le, h) = iter_from_sound (n + 1) xs k v m in
      let e : k - (n + 1) ≡ k - n - 1 = omega arith in (omega arith, ground arith)
  iter_from_sound n (some u ∷ xs) k v (inl e) =
      let a : k ≡ n = ap (λ p. p.0) e in
      let b : v ≡ u = ap (λ p. p.1) e in (omega arith, ground arith)
  iter_from_sound n (some u ∷ xs) k v (inr m) =
      let (le, h) = iter_from_sound (n + 1) xs k v m in
      let e : k - (n + 1) ≡ k - n - 1 = omega arith in (omega arith, ground arith)

  iter_from_complete :
      (n : ℕ) (xs : List (Option T)) (k : ℕ) (v : T)
      → get_slot xs k ≡ some v
      → In (n + k, v) (iter_from n xs)
  iter_from_complete n [] k v e = cc
  iter_from_complete n (none ∷ xs) k v e = elim (Bool-cases (k == 0)) [
    | inl z ↦ absurd (ground arith)
    | inr z ↦
        let h = iter_from_complete (n + 1) xs (k - 1) v (ground arith) in
        let same : n + 1 + (k - 1) ≡ n + k = ground arith in
        subst (λ (i : ℕ). In (i, v) (iter_from (n + 1) xs)) same h
  ]
  iter_from_complete n (some u ∷ xs) k v e = elim (Bool-cases (k == 0)) [
    | inl z ↦
        let a : n + k ≡ n = ground arith in
        let b : v ≡ u = ground arith in inl (ap (λ i. (i, v)) a ∙ ap (λ w. (n, w)) b)
    | inr z ↦
        let h = iter_from_complete (n + 1) xs (k - 1) v (ground arith) in
        let same : n + 1 + (k - 1) ≡ n + k = ground arith in
        inr (subst (λ (i : ℕ). In (i, v) (iter_from (n + 1) xs)) same h)
  ]

  pub get_of_In-iter_from :
      (xs : List (Option T)) (k : ℕ) (v : T) → In (k, v) (iter_from 0 xs) → get_slot xs k ≡ some v
  get_of_In-iter_from xs k v m =
      let e : k - 0 ≡ k = omega arith in sym (ap (get_slot xs) e) ∙ (iter_from_sound 0 xs k v m).1

  pub In-iter_from_of_get :
      (xs : List (Option T)) (k : ℕ) (v : T) → get_slot xs k ≡ some v → In (k, v) (iter_from 0 xs)
  In-iter_from_of_get xs k v e =
      let same : 0 + k ≡ k = omega arith in
      subst (λ (i : ℕ). In (i, v) (iter_from 0 xs)) same (iter_from_complete 0 xs k v e)

abbrev pub slot_slab : SlabCrate
slot_slab = record {
  Slab = λ T. List (Option T);
  new = [];
  vacant_key = first_free;
  insert = fill;
  get = get_slot;
  set = λ s k v. assign s k (some v);
  remove = λ s k. assign s k none;
  iter = iter_from 0;
  get-new = λ T k. refl;
  get-vacant_key = get_slot-first_free;
  get-insert = get_slot-fill;
  get-set = λ s k v j. get_slot-assign s k (some v) j;
  get-remove = λ s k j. get_slot-assign s k none j;
  get_of_in-iter = get_of_In-iter_from;
  in-iter_of_get = In-iter_from_of_get;
}
