-- ===== src/Reactor/React/Ticks.antt =====
-- `src/reactor.rs`: what an event, the beginning of a round and a poll do to the ticks.
use async_io.Base.{
  ℕ, ◌≡◌, refl, ◌≢◌, ◌∙◌, ap, inl, inr, Bool, true, false, if◌then◌else◌, List, Option, none, some,
  Bool-cases, IoResult, ok, err, Poll, ==_iff, [], pending, ready,
}
use async_io.Timers.{Waker, will_wake}
use async_io.External.Poller.{Event}
use async_io.Reactor.{Platform, Dir, read, write, Source, Reactor}
use async_io.Reactor.Directions.{drain_into}
use async_io.Reactor.Sources.{
  delivered, direction, set_direction, settled, interest_event, update_interest, store_waker,
  enroll, poll_ready,
}
use async_io.Reactor.Sources.Cover.{IoResult-cases}
use async_io.Reactor.Sources.Errors.{direction-set_direction, enroll_again, enrolled}
use async_io.Reactor.Sources.Fresh.{next_tick}
use async_io.Reactor.Fire.Laws.{process_timers-Keeps}
use async_io.Reactor.React.{emit, deliver, begin_react}
use async_io.Reactor.React.Delivery.{emits}

module _ (X : Platform) where
  -- An event stamps a direction if it reports it, and never touches what polls remember.
  pub deliver_stamps :
      (dir : Dir) (ev : Event) (t : ℕ) (s : Source X) (p : X.poller.Poller) (wakers : List Waker)
      → ((direction X dir (deliver X ev t s p wakers).0).ticks ≡ (direction X dir s).ticks)
        × ((direction X dir (deliver X ev t s p wakers).0).tick
            ≡ (if emits dir ev then t else (direction X dir s).tick))
  unfolding deliver emit drain_into
  deliver_stamps dir ev t s p wakers = go dir ev.readable ev.writable
    where
      go :
          (d : Dir) (r w : Bool)
          → let e : Event = record { key = ev.key; readable = r; writable = w } in
            ((direction X d (deliver X e t s p wakers).0).ticks ≡ (direction X d s).ticks)
            × ((direction X d (deliver X e t s p wakers).0).tick
                ≡ (if emits d e then t else (direction X d s).tick))
      go read true true = (refl, refl)
      go read true false = (refl, refl)
      go read false true = (refl, refl)
      go read false false = (refl, refl)
      go write true true = (refl, refl)
      go write true false = (refl, refl)
      go write false true = (refl, refl)
      go write false false = (refl, refl)

  pub begin_react_ticks :
      (r : Reactor X) (timeout : Option ℕ) (now : ℕ)
      → ((begin_react X r timeout now).0.ticker ≡ next_tick r.ticker)
        × ((begin_react X r timeout now).3 ≡ next_tick r.ticker)
  unfolding begin_react
  begin_react_ticks r timeout now =
      let k = process_timers-Keeps X r [] now in (ap next_tick k.ticker, ap next_tick k.ticker)

  -- A poll that finds an event delivered.
  pub poll_ready-delivered :
      (s : Source X) (dir : Dir) (k : Waker) (t : ℕ) (p : X.poller.Poller)
      → delivered (direction X dir s).tick (direction X dir s).ticks ≡ true
      → poll_ready X s dir k t p ≡ (
        ready (ok tt),
        set_direction X dir (record (direction X dir s) { ticks = none }) s,
        p,
        [],
      )
  unfolding poll_ready
  poll_ready-delivered s dir k t p f = rw f refl

  -- A poll that does not, by the task that is stored in the direction.
  pub poll_ready-same :
      (s : Source X) (dir : Dir) (k : Waker) (t : ℕ) (p : X.poller.Poller)
      → delivered (direction X dir s).tick (direction X dir s).ticks ≡ false
      → (direction X dir s).waker ≡ some k
      → poll_ready X s dir k t p ≡ (pending, s, p, [])
  unfolding poll_ready
  poll_ready-same s dir k t p f e =
      rw f (ap (λ (o : Option Waker). enroll X o dir s k t p) e ∙ enroll_again X dir s k t p)

  enroll-stored :
      (o : Option Waker) (dir : Dir) (s : Source X) (k : Waker) (t : ℕ) (p : X.poller.Poller)
      → o ≢ some k
      → direction X dir (enroll X o dir s k t p).1 ≡ enrolled X (direction X dir s) k t
  unfolding enroll store_waker
  enroll-stored none dir s k t p ne = direction-set_direction X dir _ s
  enroll-stored (some w) dir s k t p ne = elim (Bool-cases (will_wake w k)) [
    | inl z ↦ absurd (ne (ap some ((==_iff w k).0 z)))
    | inr z ↦ rw z (direction-set_direction X dir _ s)
  ]

  -- The same, by another task.
  pub poll_ready-stored :
      (s : Source X) (dir : Dir) (k : Waker) (t : ℕ) (p : X.poller.Poller)
      → delivered (direction X dir s).tick (direction X dir s).ticks ≡ false
      → (direction X dir s).waker ≢ some k
      → direction X dir (poll_ready X s dir k t p).1 ≡ enrolled X (direction X dir s) k t
  unfolding poll_ready
  poll_ready-stored s dir k t p f ne = rw f (enroll-stored (direction X dir s).waker dir s k t p ne)

  update_interest-waits :
      (b : Bool) (s : Source X) (p : X.poller.Poller) → (update_interest X b s p).0 ≢ ready (ok tt)
  unfolding update_interest settled
  update_interest-waits false s p e = cc
  update_interest-waits true s p e =
      elim (IoResult-cases (X.poller.modify s.registration p (interest_event X s)).1) [
        | inl f ↦ let bad : pending ≡ ready (ok tt) = rw f at e in cc
        | inr (x, f) ↦
            let bad : ◌≡◌ {A = Poll (IoResult (Unit {0}))} (ready (err x)) (ready (ok tt)) =
              rw f at e in
            cc
      ]

  enroll-waits :
      (o : Option Waker) (dir : Dir) (s : Source X) (k : Waker) (t : ℕ) (p : X.poller.Poller)
      → (enroll X o dir s k t p).0 ≢ ready (ok tt)
  unfolding enroll store_waker
  enroll-waits none dir s k t p e = update_interest-waits _ _ p e
  enroll-waits (some w) dir s k t p e = elim (Bool-cases (will_wake w k)) [
    | inl z ↦ let bad : pending ≡ ready (ok tt) = rw z at e in cc
    | inr z ↦ update_interest-waits _ _ p (rw z at e)
  ]

  pub poll_ready-waits :
      (s : Source X) (dir : Dir) (k : Waker) (t : ℕ) (p : X.poller.Poller)
      → delivered (direction X dir s).tick (direction X dir s).ticks ≡ false
      → (poll_ready X s dir k t p).0 ≢ ready (ok tt)
  unfolding poll_ready
  poll_ready-waits s dir k t p f e = enroll-waits (direction X dir s).waker dir s k t p (rw f at e)
