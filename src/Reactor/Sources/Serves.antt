-- ===== src/Reactor/Sources/Serves.antt =====
-- What `poll_ready`, the futures and their drop do to the interest of a source.
use async_io.Base.{
  ℕ, ◌≡◌, refl, ◌≢◌, ◌∙◌, sym, inl, inr, false, Option, none, some, arith, if◌then◌else◌,
  Bool-cases, Option-cases, IoResult, ok, Poll, pending, ready, ◌==◌,
}
use async_io.Timers.{Waker, will_wake}
use async_io.Reactor.{Platform, Dir, Direction, Source}
use async_io.Reactor.Directions.{is_empty}
use async_io.Reactor.Directions.Laws.{is_empty_slot, is_empty_waker, is_empty-false}
use async_io.Reactor.Sources.Cover.{NotErr, Covered, Known}
use async_io.Reactor.Sources.{
  Ready, delivered, direction, set_direction, update_interest, enroll, poll_ready, poll_future,
  drop_slot, drop_future,
}
use async_io.Reactor.Sources.Interest.{
  Keeps, update_interest-Covered, less_Covered, set_direction-Keeps, update_interest-Keeps,
  set_direction-Known, update_interest-Known,
}

module _ (X : Platform) where
  unticked_empty : (d : Direction X) → is_empty X (record d { ticks = none }) ≡ is_empty X d
  unfolding is_empty
  unticked_empty d = refl

  -- An operation on a source that returned `res`: it keeps the source's identity, touches the
  -- interest of no other descriptor, keeps the source known to the poller and, unless it returned an
  -- error, covered.
  pub record Serves (res : Poll (IoResult (Unit {0}))) (s s' : Source X) (p p' : X.poller.Poller)
      : Type 0 where
    pub keeps : Keeps X s s' p p'
    pub covers : Covered X s p → NotErr res → Covered X s' p'
    pub knows : Known X s p → Known X s' p'

  less-Serves :
      (res : Poll (IoResult (Unit {0}))) (dir : Dir) (s : Source X) (d : Direction X)
      (p : X.poller.Poller)
      → (is_empty X d ≡ false → is_empty X (direction X dir s) ≡ false)
      → Serves res s (set_direction X dir d s) p p
  less-Serves res dir s d p h = record {
    keeps = set_direction-Keeps X dir s d p p (λ fd ne. refl);
    covers = λ c _. less_Covered X dir s d p c h;
    knows = λ k. set_direction-Known X dir s d p k;
  }

  update_interest-Serves :
      (dir : Dir) (s : Source X) (d : Direction X) (p : X.poller.Poller)
      → Serves
          (update_interest X (is_empty X (direction X dir s)) (set_direction X dir d s) p).0
          s
          (set_direction X dir d s)
          p
          (update_interest X (is_empty X (direction X dir s)) (set_direction X dir d s) p).1
  update_interest-Serves dir s d p = record {
    keeps = update_interest-Keeps X (is_empty X (direction X dir s)) dir s d p;
    covers = update_interest-Covered X dir s d p;
    knows = update_interest-Known X (is_empty X (direction X dir s)) dir s d p;
  }

  same-Serves :
      (res : Poll (IoResult (Unit {0}))) (s : Source X) (p : X.poller.Poller) → Serves res s s p p
  same-Serves res s p = record {
    keeps = record { registration = refl; key = refl; others = λ fd ne. refl };
    covers = λ c _. c;
    knows = λ k. k;
  }

  enroll-Serves :
      (w : Option Waker) (s : Source X) (dir : Dir) (k : Waker) (ticker : ℕ) (p : X.poller.Poller)
      → Serves
          (enroll X w dir s k ticker p).0
          s
          (enroll X w dir s k ticker p).1
          p
          (enroll X w dir s k ticker p).2
  unfolding enroll
  enroll-Serves none s dir k ticker p = update_interest-Serves dir s _ p
  enroll-Serves (some w) s dir k ticker p = elim (Bool-cases (will_wake w k)) [
    | inl e ↦ rw (e, enroll) (same-Serves _ s p)
    | inr e ↦ rw (e, enroll) (update_interest-Serves dir s _ p)
  ]

  -- `poll_ready` keeps the source's identity, touches the interest of no other descriptor and,
  -- unless it returns an error, leaves an interest registered for each direction that has a waker.
  pub poll_ready-Serves :
      (s : Source X) (dir : Dir) (k : Waker) (ticker : ℕ) (p : X.poller.Poller)
      → Serves
          (poll_ready X s dir k ticker p).0
          s
          (poll_ready X s dir k ticker p).1
          p
          (poll_ready X s dir k ticker p).2
  unfolding poll_ready
  poll_ready-Serves s dir k ticker p =
      elim (Bool-cases (delivered (direction X dir s).tick (direction X dir s).ticks)) [
        | inl e ↦
            rw (e, poll_ready)
              (less-Serves (ready (ok tt)) dir s (record (direction X dir s) { ticks = none }) p
                (λ f. sym (unticked_empty (direction X dir s)) ∙ f))
        | inr e ↦ rw (e, poll_ready) (enroll-Serves (direction X dir s).waker s dir k ticker p)
      ]

  -- The future `Ready` does the same when it is polled.
  pub poll_future-Serves :
      (f : Ready) (s : Source X) (k : Waker) (ticker : ℕ) (p : X.poller.Poller)
      → Serves
          (poll_future X f s k ticker p).0
          s
          (poll_future X f s k ticker p).2
          p
          (poll_future X f s k ticker p).3
  unfolding poll_future
  poll_future-Serves f s k ticker p =
      elim (Bool-cases (delivered (direction X f.dir s).tick f.ticks)) [
        | inl e ↦ rw (e, poll_future) (same-Serves (ready (ok tt)) s p)
        | inr e ↦ rw (e, poll_future) (update_interest-Serves f.dir s _ p)
      ]

  removed_less :
      (d : Direction X) (i : ℕ)
      → X.slab.get d.wakers i ≢ none
      → is_empty X (record d { wakers = X.slab.remove d.wakers i }) ≡ false
      → is_empty X d ≡ false
  removed_less d i occ h =
      elim (is_empty-false X (record d { wakers = X.slab.remove d.wakers i }) h) [
        | inl (w, e) ↦ is_empty_waker X d w e
        | inr (j, w, e) ↦
            is_empty_slot X d j w (removed_get j (X.slab.get-remove d.wakers i j occ) e)
      ]
    where
      removed_get :
          (j : ℕ) {a b : Option (Option Waker)} {w : Waker}
          → a ≡ (if i == j then none else b)
          → a ≡ some (some w)
          → b ≡ some (some w)
      removed_get j e f = ground arith

  -- Dropping the future leaves the interest covered, and no other descriptor is concerned.
  pub drop_future-Serves :
      (f : Ready) (s : Source X) (p : X.poller.Poller) → Serves pending s (drop_future X f s) p p
  unfolding drop_future
  drop_future-Serves f s p = go f.index f.dir
    where
      go : (i : Option ℕ) (dir : Dir) → Serves pending s (drop_slot X i dir s) p p
      go none dir = unfold drop_slot in same-Serves pending s p
      go (some i) dir = elim (Option-cases (X.slab.get (direction X dir s).wakers i)) [
        | inl e ↦ unfold drop_slot in rw (e, drop_slot) (same-Serves pending s p)
        | inr (opt, e) ↦
            unfold drop_slot in
            rw (e, drop_slot)
              (less-Serves pending dir s _ p
                (removed_less (direction X dir s) i (λ z. ground arith)))
      ]
