-- ===== src/Timer/Fired.antt =====
-- `Timer` while `Reactor::process_timers` fires timers: `src/lib.rs`, `src/reactor.rs`.
use async_io.Base.{
  ℕ, ◌+◌, ◌≤◌, ◌<◌, ◌≡◌, refl, ◌⊎◌, inl, inr, List, [], ◌∷◌, Option, none, some, arith,
}
use async_io.Timers.{Waker, Entry, split_off}
use async_io.Timers.Lookup.{lookup-split_off_now}
use async_io.Reactor.{Platform, Reactor}
use async_io.Reactor.TimerQueue.Laws.{IdsBelow}
use async_io.Reactor.TimerQueue.Schedule.{scheduled}
use async_io.Reactor.Fire.{process_timers}
use async_io.Reactor.Fire.Laws.{scheduled-process_timers, process_timers-Keeps}
use async_io.Timer.{Timer}
use async_io.Timer.Registered.{IsRegistered, IsValid, IsValidOrFired}
use native.Mathlib.Decide.{dec_le}

split_off-IdsBelow : (g w i : ℕ) (m : List Entry) → IdsBelow g m → IdsBelow g (split_off w i m)
unfolding split_off
split_off-IdsBelow g w i [] b = tt
split_off-IdsBelow g w i (x ∷ m) b = ground (arith, split_off-IdsBelow g w i m b.1)

-- A timer without an entry has none after the map is split.
split_off-IsFired :
    (idw : Option (ℕ × Waker)) (g now : ℕ) (m : List Entry)
    → IsRegistered none idw g m
    → IsRegistered none idw g (split_off (now + 1) 0 m)
split_off-IsFired none g now m h = tt
split_off-IsFired (some (id, k)) g now m h =
    (h.0, λ w. rw (lookup-split_off_now now w id m) (ground (arith, h.1 w)))

split_off-IsLater :
    (when : ℕ) (idw : Option (ℕ × Waker)) (g now : ℕ) (m : List Entry)
    → now < when
    → IsRegistered (some when) idw g m
    → IsRegistered (some when) idw g (split_off (now + 1) 0 m)
split_off-IsLater when none g now m lt h = tt
split_off-IsLater when (some (id, k)) g now m lt h = (
  h.0,
  rw (lookup-split_off_now now when id m) (ground (arith, h.1)),
  λ w ne. rw (lookup-split_off_now now w id m) (ground (arith, h.2 w ne)),
)

split_off-IsDue :
    (when : ℕ) (idw : Option (ℕ × Waker)) (g now : ℕ) (m : List Entry)
    → when ≤ now
    → IsRegistered (some when) idw g m
    → IsRegistered none idw g (split_off (now + 1) 0 m)
split_off-IsDue when none g now m le h = tt
split_off-IsDue when (some (id, k)) g now m le h =
    (h.0, λ w. rw (lookup-split_off_now now w id m) (ground (arith, h.2 w)))

split_off-IsRegistered :
    (when : Option ℕ) (idw : Option (ℕ × Waker)) (g now : ℕ) (m : List Entry)
    → IsRegistered when idw g m
    → IsRegistered when idw g (split_off (now + 1) 0 m)
      ⊎ IsRegistered none idw g (split_off (now + 1) 0 m)
split_off-IsRegistered none idw g now m h = inr (split_off-IsFired idw g now m h)
split_off-IsRegistered (some when) idw g now m h = elim (dec_le when now) [
  | yes due ↦ inr (split_off-IsDue when idw g now m due h)
  | no later ↦ inl (split_off-IsLater when idw g now m (omega arith) h)
]

split_off-StaysRegistered :
    (when : Option ℕ) (idw : Option (ℕ × Waker)) (g now : ℕ) (m : List Entry)
    → ((w : ℕ) → when ≡ some w → now < w)
    → IsRegistered when idw g m
    → IsRegistered when idw g (split_off (now + 1) 0 m)
split_off-StaysRegistered none idw g now m later h = split_off-IsFired idw g now m h
split_off-StaysRegistered (some when) idw g now m later h =
    split_off-IsLater when idw g now m (later when refl) h

split_off-IsGone :
    (when : Option ℕ) (idw : Option (ℕ × Waker)) (g now w : ℕ) (m : List Entry)
    → when ≡ some w
    → w ≤ now
    → IsRegistered when idw g m ⊎ IsRegistered none idw g m
    → IsRegistered none idw g (split_off (now + 1) 0 m)
split_off-IsGone when idw g now w m e le (inr h) = split_off-IsFired idw g now m h
split_off-IsGone none idw g now w m e le (inl h) = split_off-IsFired idw g now m h
split_off-IsGone (some when) idw g now w m e le (inl h) =
    split_off-IsDue when idw g now m (ground arith) h

module _ (X : Platform) where
  -- For a timer whose entry is still scheduled, or has been taken out of the map when it fired: so
  -- it is after `process_timers`. If the deadline has come, no entry is left under the timer's ID;
  -- if the timer was valid and its deadline is later, or it has none, it stays valid.
  pub process_timers-IsValidOrFired :
      (t : Timer) (r : Reactor X) (wakers : List Waker) (now : ℕ)
      → IsValidOrFired X t r
      → IsValidOrFired X t (process_timers X r wakers now).2
        × ((when : ℕ)
            → t.when ≡ some when
            → when ≤ now
            → IsRegistered none t.id_and_waker r.id_generator
                (scheduled X (process_timers X r wakers now).2))
        × (IsValid X t r
            → ((when : ℕ) → t.when ≡ some when → now < when)
            → IsValid X t (process_timers X r wakers now).2)
  process_timers-IsValidOrFired t r wakers now v =
      let s = scheduled-process_timers X r wakers now in
      let k = process_timers-Keeps X r wakers now in
      (
        record {
          room = rw k.capacity v.room;
          issued = rw (s, k.id_generator) (split_off-IdsBelow _ (now + 1) 0 _ v.issued);
          registered = elim v.registered [
            | inl h ↦
                rw (s, k.id_generator) (split_off-IsRegistered t.when t.id_and_waker _ now _ h)
            | inr h ↦ rw (s, k.id_generator) (inr (split_off-IsFired t.id_and_waker _ now _ h))
          ];
        },
        λ when e le. rw s (split_off-IsGone t.when t.id_and_waker _ now when _ e le v.registered),
        λ valid later. record {
          room = rw k.capacity v.room;
          issued = rw (s, k.id_generator) (split_off-IdsBelow _ (now + 1) 0 _ v.issued);
          registered =
              rw (s, k.id_generator)
                (split_off-StaysRegistered t.when t.id_and_waker _ now _ later valid.registered);
        },
      )
