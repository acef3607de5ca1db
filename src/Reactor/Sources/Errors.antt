-- ===== src/Reactor/Sources/Errors.antt =====
-- What `Source::poll_ready` leaves when the poller refuses the new interest.
use async_io.Base.{
  ℕ, ◌≡◌, refl, ◌∙◌, ap, inl, inr, true, false, [], Option, none, some, arith, Bool-cases,
  ErrorKind, ok, err, pending, ready,
}
use async_io.Timers.{Waker, will_wake}
use async_io.Reactor.{Platform, Dir, read, write, Direction, Source}
use async_io.Reactor.Sources.{delivered, direction, set_direction, store_waker, enroll, poll_ready}

delivered_stored : (a b : ℕ) → delivered b (some (a, b)) ≡ false
unfolding delivered
delivered_stored a b = ground arith

module _ (X : Platform) where
  pub direction-set_direction :
      (dir : Dir) (d : Direction X) (s : Source X) → direction X dir (set_direction X dir d s) ≡ d
  direction-set_direction read d s = refl
  direction-set_direction write d s = refl

  -- The direction after a waker has been stored.
  abbrev pub enrolled : Direction X → Waker → ℕ → Direction X
  enrolled d k t = record d { waker = some k; ticks = some (t, d.tick) }

  enroll-err :
      (o : Option Waker) (dir : Dir) (s : Source X) (k : Waker) (t : ℕ) (p : X.poller.Poller)
      (e : ErrorKind)
      → (enroll X o dir s k t p).0 ≡ ready (err e)
      → direction X dir (enroll X o dir s k t p).1 ≡ enrolled (direction X dir s) k t
  unfolding enroll store_waker
  enroll-err none dir s k t p e h = direction-set_direction dir _ s
  enroll-err (some w) dir s k t p e h = elim (Bool-cases (will_wake w k)) [
    | inl z ↦ absurd (let bad : pending ≡ ready (err e) = rw z at h in cc)
    | inr z ↦ rw z (direction-set_direction dir _ s)
  ]

  poll_ready-err :
      (s : Source X) (dir : Dir) (k : Waker) (t : ℕ) (p : X.poller.Poller) (e : ErrorKind)
      → (poll_ready X s dir k t p).0 ≡ ready (err e)
      → direction X dir (poll_ready X s dir k t p).1 ≡ enrolled (direction X dir s) k t
  unfolding poll_ready
  poll_ready-err s dir k t p e h =
      let d = direction X dir s in
      elim (Bool-cases (delivered d.tick d.ticks)) [
        | inl f ↦ absurd (let bad : ready (ok tt) ≡ ready (err e) = rw f at h in cc)
        | inr f ↦ rw f (enroll-err d.waker dir s k t p e (rw f at h))
      ]

  pub enroll_again :
      (dir : Dir) (s : Source X) (k : Waker) (t : ℕ) (p : X.poller.Poller)
      → enroll X (some k) dir s k t p ≡ (pending, s, p, [])
  unfolding enroll
  enroll_again dir s k t p = let z : will_wake k k ≡ true = ground arith in rw z refl

  poll_ready-enrolled :
      (s : Source X) (dir : Dir) (k : Waker) (d : Direction X) (t later : ℕ) (p : X.poller.Poller)
      → direction X dir s ≡ enrolled d k t
      → poll_ready X s dir k later p ≡ (pending, s, p, [])
  unfolding poll_ready
  poll_ready-enrolled s dir k d t later p e =
      let f : delivered (direction X dir s).tick (direction X dir s).ticks ≡ false =
        ap (λ (x : Direction X). delivered x.tick x.ticks) e ∙ delivered_stored t d.tick in
      rw f (
        ap (λ (x : Direction X). enroll X x.waker dir s k later p) e ∙ enroll_again dir s k later p)

  -- If `poll_ready` returns an error, the next poll for the same task, before an event is
  -- delivered, is pending and leaves the poller as it is: the interest that could not be registered
  -- is not tried again.
  pub poll_ready_forgets :
      (s : Source X) (dir : Dir) (k : Waker) (t later : ℕ) (p p' : X.poller.Poller) (e : ErrorKind)
      → (poll_ready X s dir k t p).0 ≡ ready (err e)
      → ((poll_ready X (poll_ready X s dir k t p).1 dir k later p').0 ≡ pending)
        × ((poll_ready X (poll_ready X s dir k t p).1 dir k later p').2 ≡ p')
  poll_ready_forgets s dir k t later p p' e h =
      let again =
        poll_ready-enrolled (poll_ready X s dir k t p).1 dir k (direction X dir s) t later p'
          (poll_ready-err s dir k t p e h) in
      (ap (λ x. x.0) again, ap (λ x. x.2) again)
