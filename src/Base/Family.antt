-- ===== src/Base/Family.antt =====
-- Families indexed by native numbers, updated at one index.
use Prim.Native.Nat.{ℕ}
use mathlib.Core.Logic.{ite, ◌≢◌}
use mathlib.Core.Path.{◌≡◌, refl, subst}
use native.Mathlib.Decide.{ℕ_discrete}

abbrev pub update {ℓ} : {A : Type ℓ} → (ℕ → A) → ℕ → A → ℕ → A
update f i a j = ite (ℕ_discrete i j) a (f j)

-- What holds of the new value at `i`, and of the others as they were, holds of all.
pub update_all :
    {A : Type 0} (P : ℕ → A → Type 0) (f : ℕ → A) (i : ℕ) (a : A)
    → P i a
    → ((j : ℕ) → i ≢ j → P j (f j))
    → (j : ℕ) → P j (update f i a j)
update_all {A} P f i a new old j = go (ℕ_discrete i j)
  where
    go : (d : Dec (i ≡ j)) → P j (ite d a (f j))
    go (yes e) = subst (λ (k : ℕ). P k a) e new
    go (no n) = old j n

-- What the update at `i` does not change.
pub update_field :
    {A B : Type 0} (g : A → B) (f : ℕ → A) (i : ℕ) (a : A)
    → g a ≡ g (f i)
    → (j : ℕ) → g (update f i a j) ≡ g (f j)
update_field g f i a e = update_all (λ j x. g x ≡ g (f j)) f i a e (λ j n. refl)

pub update_other : {A : Type 0} (f : ℕ → A) (i : ℕ) (a : A) (j : ℕ) → i ≢ j → update f i a j ≡ f j
update_other f i a j n =
    update_all (λ k x. i ≢ k → x ≡ f k) f i a (λ e. absurd (e refl)) (λ k m o. refl) j n

pub update_same : {A : Type 0} (f : ℕ → A) (i : ℕ) (a : A) → update f i a i ≡ a
update_same f i a =
    update_all (λ k x. i ≡ k → x ≡ a) f i a (λ e. refl) (λ k m e. absurd (m e)) i refl
