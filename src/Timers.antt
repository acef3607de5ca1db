-- ===== src/Timers.antt =====
-- `src/reactor.rs`: the ordered map of registered timers, `BTreeMap<(Instant, usize), Waker>`, as
-- the list of its entries in the order of their keys, and the queued operations on it.
pub mod Lookup
pub mod Order
use async_io.Base.{
  ℕ, ◌+◌, Bool, true, false, ◌&&◌, ◌||◌, not, List, [], ◌∷◌, Option, none, some, ltb, leb, ◌==◌,
  if◌then◌else◌,
}

-- `std::task::Waker`, as the task that it wakes.
abbrev pub Waker : Type 0
Waker = ℕ

-- `Waker::will_wake`.
abbrev pub will_wake : Waker → Waker → Bool
will_wake v w = v == w

-- Instants and durations are in nanoseconds.
pub record Entry : Type 0 where
  pub when : ℕ
  pub id : ℕ
  pub waker : Waker

pub data TimerOp : Type 0 where
  insert_op : ℕ → ℕ → Waker → TimerOp
  remove_op : ℕ → ℕ → TimerOp

-- The order of the keys `(Instant, usize)`.
abbrev pub key_lt : ℕ → ℕ → ℕ → ℕ → Bool
key_lt when id when' id' = ltb when when' || (when == when' && ltb id id')

abbrev pub key_eq : ℕ → ℕ → ℕ → ℕ → Bool
key_eq when id when' id' = when == when' && id == id'

unfoldable pub lookup : ℕ → ℕ → List Entry → Option Waker
lookup when id [] = none
lookup when id (x ∷ m) = if key_eq x.when x.id when id then some x.waker else lookup when id m

unfoldable pub insert : ℕ → ℕ → Waker → List Entry → List Entry
insert when id waker [] = record { when = when; id = id; waker = waker } ∷ []
insert when id waker (x ∷ m) =
    let e : Entry = record { when = when; id = id; waker = waker } in
    if key_eq x.when x.id when id
    then e ∷ m
    else (if key_lt when id x.when x.id then e ∷ x ∷ m else x ∷ insert when id waker m)

unfoldable pub remove : ℕ → ℕ → List Entry → List Entry
remove when id [] = []
remove when id (x ∷ m) =
    let rest = remove when id m in if key_eq x.when x.id when id then rest else x ∷ rest

-- `split_off(&(when, id))`: the entries below the key, which stay, and those from the key on.
unfoldable pub below : ℕ → ℕ → List Entry → List Entry
below when id [] = []
below when id (x ∷ m) =
    let rest = below when id m in if key_lt x.when x.id when id then x ∷ rest else rest

unfoldable pub split_off : ℕ → ℕ → List Entry → List Entry
split_off when id [] = []
split_off when id (x ∷ m) =
    let rest = split_off when id m in if key_lt x.when x.id when id then rest else x ∷ rest

unfoldable pub apply_op : TimerOp → List Entry → List Entry
apply_op (insert_op when id waker) m = insert when id waker m
apply_op (remove_op when id) m = remove when id m

-- The operations applied in the order in which they were queued.
unfoldable pub apply_ops : List TimerOp → List Entry → List Entry
apply_ops [] m = m
apply_ops (op ∷ ops) m = apply_ops ops (apply_op op m)
