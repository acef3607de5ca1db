-- ===== src/Driver/MainLoop.antt =====
-- `src/driver.rs`: `main_loop`, the loop of the "async-io" thread that steps in when no thread of
-- `block_on` handles I/O.
use native.Mathlib.Nat.{mod-eq_of_lt}
use async_io.Base.{
  ℕ, ◌+◌, ◌-◌, ◌≤◌, ◌<◌, ◌%◌, ◌^◌, ◌≡◌, ◌⊎◌, inl, inr, List, [], ◌∷◌, Option, none, some, Bool,
  true, false, ◌||◌, if◌then◌else◌, ◌==◌, leb, ltb, arith, All, length,
}

-- The locals of the loop.
pub record MainLoop : Type 0 where
  pub last_tick : ℕ
  pub sleeps : ℕ

-- What one iteration sees: the ticker at its start, whether `try_lock` succeeds, the ticker after
-- its `react`, `BLOCK_ON_COUNT`, whether the parker is notified before the timeout, and the ticker
-- after that.
pub record Glimpse : Type 0 where
  pub tick : ℕ
  pub lock_free : Bool
  pub tick_reacted : ℕ
  pub block_on_count : ℕ
  pub notified : Bool
  pub tick_notified : ℕ

unfoldable pub start_loop : MainLoop
start_loop = record { last_tick = 0; sleeps = 0 }

unfoldable pub get_or : List ℕ → ℕ → ℕ → ℕ
get_or [] i default = default
get_or (x ∷ xs) i default = let rest = get_or xs (i - 1) default in if i == 0 then x else rest

-- The time to sleep for, in microseconds.
unfoldable pub delay_us : ℕ → ℕ
delay_us sleeps = get_or (50 ∷ 75 ∷ 100 ∷ 250 ∷ 500 ∷ 750 ∷ 1000 ∷ 2500 ∷ 5000 ∷ []) sleeps 10000

-- The first part of an iteration, and whether it calls `react`. With ten sleeps it waits for the
-- lock, so it gets it.
unfoldable pub try_react : MainLoop → Glimpse → MainLoop × Bool
try_react s seen =
    if s.last_tick == seen.tick
    then (if leb 10 s.sleeps || seen.lock_free
        then (record { last_tick = seen.tick_reacted; sleeps = 0 }, true)
        else (s, false))
    else (record s { last_tick = seen.tick }, false)

-- The second part, and how long it sleeps if it does.
unfoldable pub back_off : MainLoop → Glimpse → MainLoop × Option ℕ
back_off s seen =
    if ltb 0 seen.block_on_count
    then (
      (if seen.notified
          then record { last_tick = seen.tick_notified; sleeps = 0 }
          else record s { sleeps = (s.sleeps + 1) % 2 ^ 64 }),
      some (delay_us s.sleeps),
    )
    else (s, none)

-- One iteration: the locals after it, whether it called `react`, and how long it slept.
unfoldable pub main_iteration : MainLoop → Glimpse → MainLoop × Bool × Option ℕ
main_iteration s seen =
    let (s', reacted) = try_react s seen in
    let (s'', slept) = back_off s' seen in (s'', reacted, slept)

-- Whether any of the iterations calls `react`.
unfoldable pub main_reacts : MainLoop → List Glimpse → Bool
main_reacts s [] = false
main_reacts s (seen ∷ rest) =
    let (s', reacted, slept) = main_iteration s seen in
    let later = main_reacts s' rest in reacted || later

-- An iteration in which the reactor makes no progress, `block_on` is active, and nobody notifies
-- the thread.
abbrev pub IsQuiet : ℕ → Glimpse → Type 0
IsQuiet tick seen = (seen.tick ≡ tick) × (0 < seen.block_on_count) × (seen.notified ≡ false)

abbrev IsRising : ℕ → List ℕ → ℕ → Type 0
IsRising lo [] hi = lo ≤ hi
IsRising lo (x ∷ xs) hi = (lo ≤ x) × IsRising x xs hi

get_or_ge : (lo : ℕ) (xs : List ℕ) (hi n : ℕ) → IsRising lo xs hi → lo ≤ get_or xs n hi
unfolding get_or
get_or_ge lo [] hi n r = r
get_or_ge lo (x ∷ xs) hi n r = let le = get_or_ge x xs hi (n - 1) r.1 in ground arith

get_or_le : (lo : ℕ) (xs : List ℕ) (hi n : ℕ) → IsRising lo xs hi → get_or xs n hi ≤ hi
unfolding get_or
get_or_le lo [] hi n r = omega arith
get_or_le lo (x ∷ xs) hi n r =
    let le = get_or_le x xs hi (n - 1) r.1 in
    let up = get_or_ge x xs hi 0 r.1 in let top = get_or_le x xs hi 0 r.1 in ground arith

get_or_mono :
    (lo : ℕ) (xs : List ℕ) (hi n m : ℕ)
    → IsRising lo xs hi
    → n ≤ m
    → get_or xs n hi ≤ get_or xs m hi
unfolding get_or
get_or_mono lo [] hi n m r h = omega arith
get_or_mono lo (x ∷ xs) hi n m r h =
    let le = get_or_mono x xs hi (n - 1) (m - 1) r.1 (omega arith) in
    let up = get_or_ge x xs hi (m - 1) r.1 in ground arith

-- The thread sleeps for 50 microseconds to 10 milliseconds, and never for less time when it has
-- slept more often since it last handled I/O.
delay_us_lem :
    (n m : ℕ) → n ≤ m → (50 ≤ delay_us n) × (delay_us n ≤ delay_us m) × (delay_us m ≤ 10000)
unfolding delay_us
delay_us_lem n m h =
    let xs : List ℕ = 50 ∷ 75 ∷ 100 ∷ 250 ∷ 500 ∷ 750 ∷ 1000 ∷ 2500 ∷ 5000 ∷ [] in
    let r : IsRising 50 xs 10000 = ground arith in
    (get_or_ge 50 xs 10000 n r, get_or_mono 50 xs 10000 n m r h, get_or_le 50 xs 10000 m r)

quiet_next :
    (s : MainLoop) (tick : ℕ) (seen : Glimpse)
    → IsQuiet tick seen
    → s.last_tick ≡ tick
    → s.sleeps + 1 < 2 ^ 64
    → ((main_iteration s seen).1 ≡ true)
      ⊎ ((s.sleeps < 10)
          × ((main_iteration s seen).0.last_tick ≡ tick)
          × ((main_iteration s seen).0.sleeps ≡ s.sleeps + 1))
unfolding main_iteration try_react back_off
quiet_next s tick seen q l h =
    let e : (s.sleeps + 1) % 2 ^ 64 ≡ s.sleeps + 1 = mod-eq_of_lt h in ground arith

quiet_first :
    (s : MainLoop) (tick : ℕ) (seen : Glimpse)
    → IsQuiet tick seen
    → s.sleeps + 1 < 2 ^ 64
    → ((main_iteration s seen).1 ≡ true)
      ⊎ (((main_iteration s seen).0.last_tick ≡ tick)
          × ((main_iteration s seen).0.sleeps ≡ s.sleeps + 1))
unfolding main_iteration try_react back_off
quiet_first s tick seen q h =
    let e : (s.sleeps + 1) % 2 ^ 64 ≡ s.sleeps + 1 = mod-eq_of_lt h in ground arith

main_reacts_now :
    (s : MainLoop) (seen : Glimpse) (rest : List Glimpse)
    → (main_iteration s seen).1 ≡ true
    → main_reacts s (seen ∷ rest) ≡ true
unfolding main_reacts
main_reacts_now s seen rest e = ground arith

main_reacts_later :
    (s : MainLoop) (seen : Glimpse) (rest : List Glimpse)
    → main_reacts (main_iteration s seen).0 rest ≡ true
    → main_reacts s (seen ∷ rest) ≡ true
unfolding main_reacts
main_reacts_later s seen rest e = ground arith

quiet_reacts :
    (s : MainLoop) (tick : ℕ) (seen : List Glimpse)
    → All (IsQuiet tick) seen
    → s.last_tick ≡ tick
    → s.sleeps + length seen < 2 ^ 64
    → 11 ≤ length seen + s.sleeps
    → 0 < length seen
    → main_reacts s seen ≡ true
quiet_reacts s tick [] q l h room left = absurd (omega arith)
quiet_reacts s tick (seen ∷ rest) q l h room left =
    elim (quiet_next s tick seen q.0 l (omega arith)) [
      | inl now ↦ main_reacts_now s seen rest now
      | inr (few, l', more) ↦ main_reacts_later s seen rest (
          quiet_reacts (main_iteration s seen).0 tick rest q.1 l' (omega arith) (omega arith)
            (omega arith))
    ]

-- If the ticker stands still while `block_on` is active, then within twelve iterations in which
-- nobody notifies it the "async-io" thread calls `react`, whether or not `try_lock` ever succeeds,
-- as long as its count of sleeps does not reach 2^64.
pub main_reacts_lem :
    (s : MainLoop) (tick : ℕ) (seen : List Glimpse)
    → All (IsQuiet tick) seen
    → s.sleeps + length seen < 2 ^ 64
    → 12 ≤ length seen
    → main_reacts s seen ≡ true
main_reacts_lem s tick [] q few many = absurd (omega arith)
main_reacts_lem s tick (seen ∷ rest) q few many = elim (quiet_first s tick seen q.0 (omega arith)) [
  | inl now ↦ main_reacts_now s seen rest now
  | inr (l', more) ↦ main_reacts_later s seen rest (
      quiet_reacts (main_iteration s seen).0 tick rest q.1 l' (omega arith) (omega arith)
        (omega arith))
]
