-- ===== src/Timers/Lookup.antt =====
-- What a key of the timer map stands for after each operation of the map.
use async_io.Base.{ℕ, ◌+◌, ◌≡◌, refl, List, [], ◌∷◌, ◌++◌, none, some, leb, if◌then◌else◌, arith}
use async_io.Timers.{
  Waker, TimerOp, key_eq, lookup, insert, remove, split_off, apply_op, apply_ops, Entry,
}

pub lookup-insert :
    (w i : ℕ) (k : Waker) (w' i' : ℕ) (m : List Entry)
    → lookup w' i' (insert w i k m) ≡ (if key_eq w i w' i' then some k else lookup w' i' m)
unfolding lookup insert
lookup-insert w i k w' i' [] = refl
lookup-insert w i k w' i' (x ∷ m) = ground (arith, lookup-insert w i k w' i' m)

pub lookup-remove :
    (w i w' i' : ℕ) (m : List Entry)
    → lookup w' i' (remove w i m) ≡ (if key_eq w i w' i' then none else lookup w' i' m)
unfolding lookup remove
lookup-remove w i w' i' [] = ground arith
lookup-remove w i w' i' (x ∷ m) = ground (arith, lookup-remove w i w' i' m)

-- The split after `now`: what stays pending is what is later than `now`.
pub lookup-split_off_now :
    (now w i : ℕ) (m : List Entry)
    → lookup w i (split_off (now + 1) 0 m) ≡ (if leb w now then none else lookup w i m)
unfolding lookup split_off
lookup-split_off_now now w i [] = ground arith
lookup-split_off_now now w i (x ∷ m) = ground (arith, lookup-split_off_now now w i m)

pub apply_ops-append :
    (ops ops' : List TimerOp) (m : List Entry)
    → apply_ops (ops ++ ops') m ≡ apply_ops ops' (apply_ops ops m)
unfolding apply_ops
apply_ops-append [] ops' m = refl
apply_ops-append (op ∷ ops) ops' m = apply_ops-append ops ops' (apply_op op m)
