-- ===== src/System/Wakes.antt =====
-- Whom a round has collected it wakes, whatever the other threads do meanwhile.
use async_io.Base.{
  ℕ, suc, arith, ◌≡◌, refl, ◌≤◌, subst, ◌⊎◌, inl, inr, true, List, [], ◌∷◌, Option, some, In,
  In-append_left, In-append_right, ok,
}
use async_io.Timers.{Waker, lookup}
use async_io.External.Poller.{Event}
use async_io.Reactor.{Platform, Dir}
use async_io.Reactor.TimerQueue.Schedule.{scheduled}
use async_io.Reactor.Fire.Laws.{process_timers-lookup, process_timers_wakers}
use async_io.Reactor.React.{begin_react, dispatch}
use async_io.Reactor.React.Delivery.{emits, WaitsAt}
use async_io.Reactor.React.Wakes.{dispatch_keeps, dispatch_wakes}
use async_io.System.{
  Phase, idle, waiting, firing, dispatching, after_wait, after_wait-no_events, System, began, Step,
  polls, polls_future, drops_future, inserts_io, removes_io, inserts_timer, removes_timer, notifies,
  begins, returns, fails, dispatches, breaks, fires, ends, Reach, here, next,
}

-- The wakers that the round under way has collected.
abbrev collected : Phase → List Waker
collected idle = []
collected (waiting now timeout tick wakers) = wakers
collected (firing tick wakers) = wakers
collected (dispatching evs tick wakers) = wakers

collected-after_wait :
    (evs : List Event) (timeout : Option ℕ) (tick : ℕ) (wakers : List Waker)
    → collected (after_wait evs timeout tick wakers) ≡ wakers
collected-after_wait [] timeout tick wakers = elim (after_wait-no_events timeout tick wakers) [
  | inl e ↦ rw e refl
  | inr e ↦ rw e refl
]
collected-after_wait (ev ∷ evs) timeout tick wakers = unfold after_wait in refl

same_collected :
    (k : Waker) {ph ph' : Phase} → ph ≡ ph' → In k (collected ph) → In k (collected ph')
same_collected k e h = subst (λ (x : Phase). In k (collected x)) e h

module _ (X : Platform) where
  -- The task has been woken, or the round under way will wake it.
  abbrev IsOwed : Waker → System X → Type 0
  IsOwed k s = In k s.woken ⊎ In k (collected s.phase)

  -- Only a round that fails forgets whom it has collected, and that is counted.
  Step-failures :
      {s t : System X} → Step X s t → (t.failures ≡ s.failures) ⊎ (t.failures ≡ suc s.failures)
  Step-failures (breaks ev evs tick wakers x e f) = inr refl
  Step-failures _ = inl refl

  Step-IsOwed :
      {s t : System X} (k : Waker) → Step X s t → t.failures ≡ s.failures → IsOwed k s → IsOwed k t
  Step-IsOwed {s} k (polls key dir w src out e f) q (inl h) = inl (In-append_left k s.woken _ h)
  Step-IsOwed {s} k (polls key dir w src out e f) q (inr h) = inr h
  Step-IsOwed k (polls_future key f w src out e g) q h = h
  Step-IsOwed k (drops_future key f src r e g) q h = h
  Step-IsOwed k (inserts_io raw) q h = h
  Step-IsOwed k (removes_io src e) q h = h
  Step-IsOwed k (inserts_timer when w) q h = h
  Step-IsOwed k (removes_timer when id) q h = h
  Step-IsOwed k notifies q h = h
  Step-IsOwed k (begins timeout now e) q (inl h) = inl h
  Step-IsOwed k (begins timeout now e) q (inr h) = absurd (same_collected k e h)
  Step-IsOwed k (returns now timeout tick wakers evs e f) q (inl h) = inl h
  Step-IsOwed k (returns now timeout tick wakers evs e f) q (inr h) =
      inr (rw (collected-after_wait evs timeout tick wakers) (same_collected k e h))
  Step-IsOwed {s} k (fails now timeout tick wakers x e f) q (inl h) =
      inl (In-append_left k s.woken wakers h)
  Step-IsOwed {s} k (fails now timeout tick wakers x e f) q (inr h) =
      inl (In-append_right k s.woken wakers (same_collected k e h))
  Step-IsOwed k (dispatches ev evs tick wakers e f) q (inl h) = inl h
  Step-IsOwed {s} k (dispatches ev evs tick wakers e f) q (inr h) =
      inr (dispatch_keeps X (ev ∷ []) tick s.reactor wakers k f (same_collected k e h))
  Step-IsOwed k (breaks ev evs tick wakers x e f) q h = absurd (omega arith)
  Step-IsOwed k (fires later tick wakers e) q (inl h) = inl h
  Step-IsOwed {s} k (fires later tick wakers e) q (inr h) = inr (
      rw (process_timers_wakers X s.reactor wakers later)
        (In-append_left k wakers _ (same_collected k e h)))
  Step-IsOwed {s} k (ends tick wakers e) q (inl h) = inl (In-append_left k s.woken wakers h)
  Step-IsOwed {s} k (ends tick wakers e) q (inr h) =
      inl (In-append_right k s.woken wakers (same_collected k e h))

  Reach-failures : {s t : System X} → Reach X s t → s.failures ≤ t.failures
  Reach-failures here = omega arith
  Reach-failures (next path step) =
      let before = Reach-failures path in
      elim (Step-failures step) [ inl e ↦ omega arith | inr e ↦ omega arith ]

  Reach-IsOwed :
      {s t : System X} (k : Waker) → Reach X s t → t.failures ≡ s.failures → IsOwed k s → IsOwed k t
  Reach-IsOwed k here q h = h
  Reach-IsOwed k (next path step) q h =
      let before = Reach-failures path in
      let now = Step-failures step in
      Step-IsOwed k step (ground arith) (Reach-IsOwed k path (ground arith) h)

  owed_idle : (k : Waker) (u : System X) → u.phase ≡ idle → IsOwed k u → In k u.woken
  owed_idle k u e (inl h) = h
  owed_idle k u e (inr h) = absurd (same_collected k e h)

  -- When a round begins at or after the deadline of a scheduled timer, its task has been woken by
  -- the time that no round is under way, if no re-registration in a round has failed until then,
  -- whatever steps the other threads take in between.
  pub Reach_wakes_timer :
      (s u : System X) (timeout : Option ℕ) (now when id : ℕ) (k : Waker)
      → lookup when id (scheduled X s.reactor) ≡ some k
      → when ≤ now
      → Reach X (began X s timeout now) u
      → u.failures ≡ s.failures
      → u.phase ≡ idle
      → In k u.woken
  unfolding begin_react
  Reach_wakes_timer s u timeout now when id k e due path fine rest =
      let fired = ((process_timers-lookup X s.reactor [] now when id k e).0 due).0 in
      owed_idle k u rest (Reach-IsOwed k path fine (inr fired))

  -- The round has dispatched an event.
  abbrev pub dispatched : System X → Event → List Event → ℕ → List Waker → System X
  dispatched s ev evs tick wakers = record s {
    reactor = (dispatch X (ev ∷ []) tick s.reactor wakers).0;
    phase = dispatching evs tick (dispatch X (ev ∷ []) tick s.reactor wakers).1;
  }

  -- When a round dispatches an event, without an error, every task that waits at that moment for a
  -- direction that the event reports has been woken by the time that no round is under way, if no
  -- re-registration in a round has failed until then, whatever steps the other threads take in
  -- between.
  pub Reach_wakes_io :
      (s u : System X) (ev : Event) (evs : List Event) (tick : ℕ) (wakers : List Waker) (dir : Dir)
      (k : Waker)
      → emits dir ev ≡ true
      → WaitsAt X s.reactor.sources ev.key dir k
      → (dispatch X (ev ∷ []) tick s.reactor wakers).2 ≡ ok tt
      → Reach X (dispatched s ev evs tick wakers) u
      → u.failures ≡ s.failures
      → u.phase ≡ idle
      → In k u.woken
  Reach_wakes_io s u ev evs tick wakers dir k reports waits good path fine rest =
      let woken =
        dispatch_wakes X (ev ∷ []) tick s.reactor wakers ev.key dir k good waits
          (inl (refl, reports)) in
      owed_idle k u rest (Reach-IsOwed k path fine (inr woken))
