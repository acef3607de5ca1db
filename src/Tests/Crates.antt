-- ===== src/Tests/Crates.antt =====
-- Small implementations of the crates, on which the laws of `External` hold.
use async_io.Base.{
  ℕ, ◌+◌, ◌-◌, ◌≤◌, ◌<◌, ◌≡◌, refl, List, [], ◌∷◌, ◌++◌, Option, none, some, Bool, true, false, not,
  length, length-append, if◌then◌else◌, ◌==◌, arith,
}
use async_io.External.Queue.{BoundedQueue}
use async_io.External.Parker.{ParkerCrate}

module _ {A : Type 0} where
  -- A queue is the room left in it with what it holds.
  abbrev pub push : ℕ × List A → A → Option (ℕ × List A)
  push (room, items) a = if room == 0 then none else some (room - 1, items ++ a ∷ [])

  abbrev pub pop : ℕ × List A → Option (A × (ℕ × List A))
  pop (room, []) = none
  pop (room, a ∷ items) = some (a, (room + 1, items))

  pub push_full : (q : ℕ × List A) (a : A) → q.0 + length q.1 ≤ length q.1 → push q a ≡ none
  push_full (room, items) a h = ground arith

  pub push_room :
      (q : ℕ × List A) (a : A)
      → length q.1 < q.0 + length q.1
      → (q' : ℕ × List A) × (push q a ≡ some q')
        × (q'.1 ≡ q.1 ++ a ∷ [])
        × (q'.0 + length q'.1 ≡ q.0 + length q.1)
  push_room (room, items) a h = (
    (room - 1, items ++ a ∷ []),
    ground arith,
    refl,
    rw (length-append items (a ∷ [])) (omega arith),
  )

  pub pop_nil : (q : ℕ × List A) → q.1 ≡ [] → pop q ≡ none
  pop_nil (room, []) e = refl
  pop_nil (room, a ∷ items) e = cc

  pub pop_cons :
      (q : ℕ × List A) (a : A) (rest : List A)
      → q.1 ≡ a ∷ rest
      → (q' : ℕ × List A) × (pop q ≡ some (a, q'))
        × (q'.1 ≡ rest)
        × (q'.0 + length q'.1 ≡ q.0 + length q.1)
  pop_cons (room, []) a rest e = cc
  pop_cons (room, b ∷ items) a rest e = ((room + 1, items), cc, cc, omega arith)

abbrev pub list_queue : {A : Type 0} → BoundedQueue A
list_queue {A} = record {
  Queue = ℕ × List A;
  bounded = λ n. (n, []);
  push = push;
  pop = pop;
  capacity = λ q. q.0 + length q.1;
  contents = λ q. q.1;
  contents-bounded = λ n. refl;
  capacity-bounded = λ n. omega arith;
  length-contents-le = λ q. omega arith;
  push_full = push_full;
  push_room = push_room;
  pop_nil = pop_nil;
  pop_cons = pop_cons;
}

abbrev pub flag_parker : ParkerCrate
flag_parker = record {
  Parker = Bool;
  pair = false;
  unpark = λ p. (true, not p);
  park_now = λ p. (false, p);
  notified = λ p. p;
  notified-pair = refl;
  unpark_result = λ p. refl;
  notified-unpark = λ p. refl;
  park_now_result = λ p. refl;
  notified-park_now = λ p. refl;
}
