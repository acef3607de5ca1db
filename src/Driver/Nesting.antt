-- ===== src/Driver/Nesting.antt =====
-- `src/driver.rs`: the calls of `block_on` that are active on one thread, each inside the one before,
-- with `BLOCK_ON_COUNT` and the cached parker.
use async_io.Base.{
  ℕ, suc, ◌+◌, ◌%◌, ◌<◌, ◌≡◌, ◌≢◌, refl, Bool, true, false, List, [], ◌∷◌, All, arith, length,
  if◌then◌else◌, sym, subst, ◌∙◌, ◌-◌, ◌==◌,
}
use async_io.Reactor.{usize_mod}

-- The parker of a call: the thread's cached one, or a fresh one.
pub data ParkerId : Type 0 where
  cached : ParkerId
  fresh : ℕ → ParkerId

-- `count` is `BLOCK_ON_COUNT`, which all threads share; `borrowed` whether `CACHE` is borrowed; `made`
-- how many fresh parkers the thread has made; `stack` the parkers of its active calls, the
-- innermost first.
pub record Calls : Type 0 where
  pub count : ℕ
  pub borrowed : Bool
  pub made : ℕ
  pub stack : List ParkerId

abbrev pub no_calls : Calls
no_calls = record { count = 0; borrowed = false; made = 0; stack = [] }

-- `fetch_add(1)` and `fetch_sub(1)`.
abbrev pub add_one : ℕ → ℕ
add_one n = (n + 1) % usize_mod

abbrev pub sub_one : ℕ → ℕ
sub_one n = if n == 0 then usize_mod - 1 else n - 1

-- The parker that a call takes by `try_borrow_mut`.
unfoldable pub take_parker : Bool → Calls → Calls
take_parker false s = record s { borrowed = true; stack = cached ∷ s.stack }
take_parker true s = record s { made = suc s.made; stack = fresh s.made ∷ s.stack }

-- The beginning of `block_on`.
unfoldable pub enter_block_on : Calls → Calls
unfolding take_parker
enter_block_on s = take_parker s.borrowed (record s { count = add_one s.count })

-- The drop of the parker and of the borrow, as the innermost call returns.
unfoldable pub leave_stack : List ParkerId → Calls → Calls
leave_stack [] s = s
leave_stack (cached ∷ rest) s = record s { borrowed = false; stack = rest }
leave_stack (fresh i ∷ rest) s = record s { stack = rest }

-- The return from `block_on`, with its guard, which also unparks the "async-io" thread.
unfoldable pub leave_block_on : Calls → Calls
unfolding leave_stack
leave_block_on s = leave_stack s.stack (record s { count = sub_one s.count })

-- The calls of this thread and, in `count`, those of the others, of which `n` are active.
pub data CallsStep (s : Calls) : ℕ → ℕ → Calls → Type 0 where
  enters : {n : ℕ} → CallsStep s n n (enter_block_on s)
  leaves :
      {n : ℕ} (x : ParkerId) (rest : List ParkerId)
      → s.stack ≡ x ∷ rest
      → CallsStep s n n (leave_block_on s)
  other_enters : {n : ℕ} → CallsStep s n (suc n) (record s { count = add_one s.count })
  other_leaves : {n : ℕ} → CallsStep s (suc n) n (record s { count = sub_one s.count })

pub data CallsReach : ℕ → Calls → Type 0 where
  none_active : CallsReach 0 no_calls
  then_step : {n n' : ℕ} {s t : Calls} → CallsReach n s → CallsStep s n n' t → CallsReach n' t

abbrev pub IsDistinct : List ParkerId → Type 0
IsDistinct [] = Unit {0}
IsDistinct (x ∷ xs) = All (λ (y : ParkerId). x ≢ y) xs × IsDistinct xs

abbrev IsMade : ℕ → ParkerId → Type 0
IsMade m cached = Unit {0}
IsMade m (fresh i) = i < m

record CallsInv (n : ℕ) (s : Calls) : Type 0 where
  made : All (IsMade s.made) s.stack
  distinct : IsDistinct s.stack
  free : s.borrowed ≡ false → All (λ (y : ParkerId). cached ≢ y) s.stack
  counted : s.count ≡ (length s.stack + n) % usize_mod

made_later : (m : ℕ) (xs : List ParkerId) → All (IsMade m) xs → All (IsMade (suc m)) xs
made_later m [] h = tt
made_later m (cached ∷ xs) h = (tt, made_later m xs h.1)
made_later m (fresh i ∷ xs) h = (let z = h.0 in omega arith, made_later m xs h.1)

made_apart :
    (m : ℕ) (xs : List ParkerId) → All (IsMade m) xs → All (λ (y : ParkerId). fresh m ≢ y) xs
made_apart m [] h = tt
made_apart m (cached ∷ xs) h = (λ e. cc, made_apart m xs h.1)
made_apart m (fresh i ∷ xs) h =
    (λ e. let z = h.0 in let q : m ≡ i = cc in omega arith, made_apart m xs h.1)

add_one_lem : (c k k' : ℕ) → k' ≡ suc k → c ≡ k % usize_mod → add_one c ≡ k' % usize_mod
add_one_lem c k k' f e = omega arith

sub_one_lem : (c k k' : ℕ) → k' ≡ suc k → c ≡ k' % usize_mod → sub_one c ≡ k % usize_mod
sub_one_lem c k k' f e = ground arith

take_parker-CallsInv :
    (b : Bool) (n : ℕ) (s : Calls)
    → s.borrowed ≡ b
    → CallsInv n s
    → CallsInv n (take_parker b (record s { count = add_one s.count }))
unfolding take_parker
take_parker-CallsInv false n s e v = record {
  made = (tt, v.made);
  distinct = (v.free e, v.distinct);
  free = λ z. absurd (cc);
  counted = add_one_lem s.count (length s.stack + n) _ (omega arith) v.counted;
}
take_parker-CallsInv true n s e v = record {
  made = (omega arith, made_later s.made s.stack v.made);
  distinct = (made_apart s.made s.stack v.made, v.distinct);
  free = λ z. absurd (let q : true ≡ false = sym e ∙ z in cc);
  counted = add_one_lem s.count (length s.stack + n) _ (omega arith) v.counted;
}

leave_stack-CallsInv :
    (x : ParkerId) (rest : List ParkerId) (n : ℕ) (s : Calls)
    → s.stack ≡ x ∷ rest
    → CallsInv n s
    → CallsInv n (leave_stack (x ∷ rest) (record s { count = sub_one s.count }))
unfolding leave_stack
leave_stack-CallsInv cached rest n s e v =
    let made = subst (λ (l : List ParkerId). All (IsMade s.made) l) e v.made in
    let distinct = subst (λ (l : List ParkerId). IsDistinct l) e v.distinct in
    let counted = subst (λ (l : List ParkerId). s.count ≡ (length l + n) % usize_mod) e v.counted in
    record {
      made = made.1;
      distinct = distinct.1;
      free = λ _. distinct.0;
      counted = sub_one_lem s.count (length rest + n) _ (omega arith) counted;
    }
leave_stack-CallsInv (fresh i) rest n s e v =
    let made = subst (λ (l : List ParkerId). All (IsMade s.made) l) e v.made in
    let distinct = subst (λ (l : List ParkerId). IsDistinct l) e v.distinct in
    let counted = subst (λ (l : List ParkerId). s.count ≡ (length l + n) % usize_mod) e v.counted in
    record {
      made = made.1;
      distinct = distinct.1;
      free =
          λ z. (subst (λ (l : List ParkerId). All (λ (y : ParkerId). cached ≢ y) l) e (v.free z)).1;
      counted = sub_one_lem s.count (length rest + n) _ (omega arith) counted;
    }

CallsStep-CallsInv : {n n' : ℕ} {s t : Calls} → CallsStep s n n' t → CallsInv n s → CallsInv n' t
unfolding enter_block_on leave_block_on
CallsStep-CallsInv {n} {n'} {s} enters v = take_parker-CallsInv s.borrowed n s refl v
CallsStep-CallsInv {n} {n'} {s} (leaves x rest e) v =
    subst (λ (l : List ParkerId). CallsInv n (leave_stack l (record s { count = sub_one s.count })))
      (sym e) (leave_stack-CallsInv x rest n s e v)
CallsStep-CallsInv {n} {n'} {s} other_enters v = record {
  made = v.made;
  distinct = v.distinct;
  free = v.free;
  counted = add_one_lem s.count (length s.stack + n) _ (omega arith) v.counted;
}
CallsStep-CallsInv {n} {n'} {s} other_leaves v = record {
  made = v.made;
  distinct = v.distinct;
  free = v.free;
  counted = sub_one_lem s.count (length s.stack + n') _ (omega arith) v.counted;
}

CallsReach-CallsInv : {n : ℕ} {s : Calls} → CallsReach n s → CallsInv n s
CallsReach-CallsInv none_active = record {
  made = tt;
  distinct = tt;
  free = λ _. tt;
  counted = omega arith;
}
CallsReach-CallsInv (then_step path step) = CallsStep-CallsInv step (CallsReach-CallsInv path)

-- Whatever calls of `block_on` a thread makes inside one another and other threads make meanwhile:
-- no two active calls of the thread use the same parker, and `BLOCK_ON_COUNT` is the number of the
-- calls that are active on all threads, modulo 2^64.
pub CallsReach-IsDistinct :
    (n : ℕ) (s : Calls)
    → CallsReach n s
    → IsDistinct s.stack × (s.count ≡ (length s.stack + n) % usize_mod)
CallsReach-IsDistinct n s path = let v = CallsReach-CallsInv path in (v.distinct, v.counted)
