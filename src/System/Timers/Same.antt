-- ===== src/System/Timers/Same.antt =====
-- Operations that do not concern the timers.
use async_io.Base.{
  ℕ, ◌≡◌, refl, ◌∙◌, subst, inl, inr, List, [], ◌∷◌, some, Option-cases, IoResult, Poll,
}
use async_io.Base.{none_apart, some_injective}
use async_io.Timers.{Waker}
use async_io.External.Poller.{Event}
use async_io.Reactor.{Platform, notify, Dir, Source, Reactor}
use async_io.Reactor.TimerQueue.Schedule.{scheduled}
use async_io.Reactor.Sources.{Ready}
use async_io.Reactor.Io.{insert_io, remove_io, poll_source, poll_ready_future, drop_ready_future}
use async_io.Reactor.React.{deliver, dispatch}
use async_io.Reactor.React.Events.{after_event, dispatch-none, dispatch_ok, dispatch_err}
use async_io.Reactor.Sources.Cover.{IoResult-cases}

module _ (X : Platform) where
  -- An operation that does not concern the timers.
  pub record SameTimers (r r' : Reactor X) : Type 0 where
    pub capacity : X.queue.capacity r'.timer_ops ≡ X.queue.capacity r.timer_ops
    pub same : scheduled X r' ≡ scheduled X r

  pub poll_source-SameTimers :
      (r : Reactor X) (key : ℕ) (dir : Dir) (k : Waker)
      (out : Poll (IoResult (Unit {0})) × Reactor X × List Waker)
      → poll_source X r key dir k ≡ some out
      → SameTimers r out.1
  unfolding poll_source scheduled
  poll_source-SameTimers r key dir k out e = elim (Option-cases (X.slab.get r.sources key)) [
    | inl f ↦ absurd (none_apart refl (rw (f, poll_source) at e))
    | inr (s, f) ↦
        subst (λ (o : Poll (IoResult (Unit {0})) × Reactor X × List Waker). SameTimers r o.1)
          (some_injective (rw (f, poll_source) at e)) (record { capacity = refl; same = refl })
  ]

  pub poll_ready_future-SameTimers :
      (r : Reactor X) (key : ℕ) (f : Ready) (k : Waker)
      (out : Poll (IoResult (Unit {0})) × Ready × Reactor X)
      → poll_ready_future X r key f k ≡ some out
      → SameTimers r out.2
  unfolding poll_ready_future scheduled
  poll_ready_future-SameTimers r key f k out e = elim (Option-cases (X.slab.get r.sources key)) [
    | inl g ↦ absurd (none_apart refl (rw (g, poll_ready_future) at e))
    | inr (s, g) ↦
        subst (λ (o : Poll (IoResult (Unit {0})) × Ready × Reactor X). SameTimers r o.2)
          (some_injective (rw (g, poll_ready_future) at e))
          (record { capacity = refl; same = refl })
  ]

  pub drop_ready_future-SameTimers :
      (r : Reactor X) (key : ℕ) (f : Ready) (r' : Reactor X)
      → drop_ready_future X r key f ≡ some r'
      → SameTimers r r'
  unfolding drop_ready_future scheduled
  drop_ready_future-SameTimers r key f r' e = elim (Option-cases (X.slab.get r.sources key)) [
    | inl g ↦ absurd (none_apart refl (rw (g, drop_ready_future) at e))
    | inr (s, g) ↦
        subst (λ (o : Reactor X). SameTimers r o) (some_injective (rw (g, drop_ready_future) at e))
          (record { capacity = refl; same = refl })
  ]

  pub insert_io-SameTimers :
      (r : Reactor X) (raw : X.poller.Registration) → SameTimers r (insert_io X r raw).1
  unfolding insert_io scheduled
  insert_io-SameTimers r raw =
      elim (IoResult-cases (X.poller.add raw r.poller (X.slab.vacant_key r.sources)).1) [
        | inl e ↦ rw (e, insert_io) (record { capacity = refl; same = refl })
        | inr (k, e) ↦ rw (e, insert_io) (record { capacity = refl; same = refl })
      ]

  pub notify-SameTimers : (r : Reactor X) → SameTimers r (notify X r)
  unfolding notify scheduled
  notify-SameTimers r = record { capacity = refl; same = refl }

  pub remove_io-SameTimers : (r : Reactor X) (s : Source X) → SameTimers r (remove_io X r s).1
  unfolding remove_io scheduled
  remove_io-SameTimers r s = record { capacity = refl; same = refl }

  SameTimers-trans : {r r' r2 : Reactor X} → SameTimers r r' → SameTimers r' r2 → SameTimers r r2
  SameTimers-trans j k = record { capacity = k.capacity ∙ j.capacity; same = k.same ∙ j.same }

  after_event-SameTimers :
      (ev : Event) (tick : ℕ) (s : Source X) (r : Reactor X) (wakers : List Waker)
      → SameTimers r (after_event X ev tick s r wakers)
  unfolding after_event scheduled
  after_event-SameTimers ev tick s r wakers = record { capacity = refl; same = refl }

  pub dispatch-SameTimers :
      (evs : List Event) (tick : ℕ) (r : Reactor X) (wakers : List Waker)
      → SameTimers r (dispatch X evs tick r wakers).0
  unfolding dispatch
  dispatch-SameTimers [] tick r wakers = record { capacity = refl; same = refl }
  dispatch-SameTimers (ev ∷ evs) tick r wakers = elim (Option-cases (X.slab.get r.sources ev.key)) [
    | inl e ↦ rw (dispatch-none X ev evs tick r wakers e) (dispatch-SameTimers evs tick r wakers)
    | inr (s, e) ↦ elim (IoResult-cases (deliver X ev tick s r.poller wakers).3) [
      | inl fine ↦
          let here = after_event-SameTimers ev tick s r wakers in
          rw (dispatch_ok X ev evs tick r wakers s e fine)
            (SameTimers-trans here (dispatch-SameTimers evs tick _ _))
      | inr (x, bad) ↦
          rw (dispatch_err X ev evs tick r wakers s x e bad)
            (after_event-SameTimers ev tick s r wakers)
    ]
  ]
