-- ===== src/Timers/Order.antt =====
-- The order of the entries of the timer map.
use async_io.Base.{ℕ, ◌≡◌, refl, true, false, List, [], ◌∷◌, ◌++◌, arith, All}
use async_io.Timers.{
  Waker, TimerOp, insert_op, remove_op, key_lt, insert, remove, below, split_off, apply_op,
  apply_ops, Entry,
}

-- The keys grow strictly along the list.
abbrev pub After : ℕ → ℕ → List Entry → Type 0
After w i m = All (λ (x : Entry). key_lt w i x.when x.id ≡ true) m

abbrev pub IsSorted : List Entry → Type 0
IsSorted [] = Unit {0}
IsSorted (x ∷ m) = After x.when x.id m × IsSorted m

After-trans :
    (w i w' i' : ℕ) (m : List Entry) → key_lt w i w' i' ≡ true → After w' i' m → After w i m
After-trans w i w' i' [] h a = tt
After-trans w i w' i' (x ∷ m) h a = (ground arith, After-trans w i w' i' m h a.1)

After-insert :
    (v j w i : ℕ) (k : Waker) (m : List Entry)
    → key_lt v j w i ≡ true
    → After v j m
    → After v j (insert w i k m)
unfolding insert
After-insert v j w i k [] h a = (h, tt)
After-insert v j w i k (x ∷ m) h a = ground (arith, After-insert v j w i k m h a.1)

After-remove : (v j w i : ℕ) (m : List Entry) → After v j m → After v j (remove w i m)
unfolding remove
After-remove v j w i [] a = tt
After-remove v j w i (x ∷ m) a = ground (arith, After-remove v j w i m a.1)

After-split_off : (v j w i : ℕ) (m : List Entry) → After v j m → After v j (split_off w i m)
unfolding split_off
After-split_off v j w i [] a = tt
After-split_off v j w i (x ∷ m) a = ground (arith, After-split_off v j w i m a.1)

pub insert-IsSorted :
    (w i : ℕ) (k : Waker) (m : List Entry) → IsSorted m → IsSorted (insert w i k m)
unfolding insert
insert-IsSorted w i k [] s = (tt, tt)
insert-IsSorted w i k (x ∷ m) s = ground (
  arith,
  insert-IsSorted w i k m s.1,
  After-trans w i x.when x.id m,
  After-insert x.when x.id w i k m,
)

pub remove-IsSorted : (w i : ℕ) (m : List Entry) → IsSorted m → IsSorted (remove w i m)
unfolding remove
remove-IsSorted w i [] s = tt
remove-IsSorted w i (x ∷ m) s =
    ground (arith, remove-IsSorted w i m s.1, After-remove x.when x.id w i m s.0)

pub split_off-IsSorted : (w i : ℕ) (m : List Entry) → IsSorted m → IsSorted (split_off w i m)
unfolding split_off
split_off-IsSorted w i [] s = tt
split_off-IsSorted w i (x ∷ m) s =
    ground (arith, split_off-IsSorted w i m s.1, After-split_off x.when x.id w i m s.0)

-- A map that is sorted by its keys stays sorted under any sequence of queued operations.
apply_ops-IsSorted : (ops : List TimerOp) (m : List Entry) → IsSorted m → IsSorted (apply_ops ops m)
unfolding apply_ops apply_op
apply_ops-IsSorted [] m s = s
apply_ops-IsSorted (insert_op w i k ∷ ops) m s =
    apply_ops-IsSorted ops _ (insert-IsSorted w i k m s)
apply_ops-IsSorted (remove_op w i ∷ ops) m s = apply_ops-IsSorted ops _ (remove-IsSorted w i m s)

below_none :
    (w i : ℕ) (v j : ℕ) (m : List Entry) → key_lt v j w i ≡ false → After v j m → below w i m ≡ []
unfolding below
below_none w i v j [] h a = refl
below_none w i v j (x ∷ m) h a = ground (arith, below_none w i v j m h a.1)

split_off_all :
    (w i : ℕ) (v j : ℕ) (m : List Entry)
    → key_lt v j w i ≡ false
    → After v j m
    → split_off w i m ≡ m
unfolding split_off
split_off_all w i v j [] h a = refl
split_off_all w i v j (x ∷ m) h a = ground (arith, split_off_all w i v j m h a.1)

-- On a sorted map the two parts of a split follow one another.
pub below-append-split_off :
    (w i : ℕ) (m : List Entry) → IsSorted m → below w i m ++ split_off w i m ≡ m
unfolding below split_off
below-append-split_off w i [] s = refl
below-append-split_off w i (x ∷ m) s = ground (
  arith,
  below-append-split_off w i m s.1,
  below_none w i x.when x.id m,
  split_off_all w i x.when x.id m,
)
