-- ===== src/External/Slab.antt =====
-- The `slab` crate, as `src/reactor.rs` uses it: a table whose keys it hands out itself.
use async_io.Base.{ℕ, ◌≡◌, ◌≢◌, List, Option, none, some, In, if◌then◌else◌, ◌==◌}

pub record SlabCrate : Type 1 where
  pub Slab : Type 0 → Type 0
  pub new : {T : Type 0} → Slab T
  pub vacant_key : {T : Type 0} → Slab T → ℕ
  -- Stores a value under `vacant_key`.
  pub insert : {T : Type 0} → Slab T → T → Slab T
  pub get : {T : Type 0} → Slab T → ℕ → Option T
  -- Assignment through `IndexMut` or `iter_mut`, at an occupied key.
  pub set : {T : Type 0} → Slab T → ℕ → T → Slab T
  pub remove : {T : Type 0} → Slab T → ℕ → Slab T
  -- The occupied keys with their values, in the order of `iter` and `iter_mut`.
  pub iter : {T : Type 0} → Slab T → List (ℕ × T)
  pub get-new : (T : Type 0) (k : ℕ) → get {T = T} new k ≡ none
  pub get-vacant_key : {T : Type 0} (s : Slab T) → get s (vacant_key s) ≡ none
  pub get-insert :
      {T : Type 0} (s : Slab T) (v : T) (k : ℕ)
      → get (insert s v) k ≡ (if vacant_key s == k then some v else get s k)
  pub get-set :
      {T : Type 0} (s : Slab T) (k : ℕ) (v : T) (j : ℕ)
      → get s k ≢ none
      → get (set s k v) j ≡ (if k == j then some v else get s j)
  pub get-remove :
      {T : Type 0} (s : Slab T) (k j : ℕ)
      → get s k ≢ none
      → get (remove s k) j ≡ (if k == j then none else get s j)
  pub get_of_in-iter :
      {T : Type 0} (s : Slab T) (k : ℕ) (v : T) → In (k, v) (iter s) → get s k ≡ some v
  pub in-iter_of_get :
      {T : Type 0} (s : Slab T) (k : ℕ) (v : T) → get s k ≡ some v → In (k, v) (iter s)
