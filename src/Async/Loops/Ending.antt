-- ===== src/Async/Loops/Ending.antt =====
-- A poll of `read_with` or `write_with` ends, and a task that it leaves pending waits for the
-- direction.
use async_io.Base.{
  ℕ, suc, ◌≡◌, refl, ◌∙◌, ap, inl, inr, true, List, [], ◌∷◌, Option, none, some, In,
  In-append_right, arith, Bool-cases, IoResult, ok, err, Poll, pending, ready,
}
use async_io.Timers.{Waker}
use async_io.Reactor.{Platform, Dir, read, write, Direction, Source, Reactor, get_ticker}
use async_io.Reactor.Directions.{push_taken}
use async_io.Reactor.Directions.Laws.{waiting, slot_wakers}
use async_io.Reactor.Sources.{
  Ready, new_ready, delivered, direction, claim_slot, poll_future, drop_future,
}
use async_io.Reactor.Io.{poll_ready_future, drop_ready_future}
use async_io.Reactor.React.Delivery.{WaitsAt}
use async_io.Async.{is_would_block}
use async_io.Async.Polls.{IsSettled, update_interest-IsSettled}
use async_io.Async.Loops.{
  Progress, trying, awaiting, finished, optimistic, poll_optimistic, Polled, poll_with,
}

slot_wakers-In :
    (i : ℕ) (k : Waker) (slots : List (ℕ × Option Waker))
    → In (i, some k) slots
    → In k (slot_wakers slots)
unfolding slot_wakers push_taken
slot_wakers-In i k [] m = elim m [ ]
slot_wakers-In i k ((j, none) ∷ slots) (inl e) =
    absurd (ground (arith, ap (λ (p : ℕ × Option Waker). p.1) e))
slot_wakers-In i k ((j, some w) ∷ slots) (inl e) =
    inl (ground (arith, ap (λ (p : ℕ × Option Waker). p.1) e))
slot_wakers-In i k ((j, o) ∷ slots) (inr m) =
    In-append_right k (push_taken o []) (slot_wakers slots) (slot_wakers-In i k slots m)

module _ (X : Platform) where
  -- A new slot with the waker in it.
  claimed_waits :
      (d : Direction X) (k : Waker)
      → In k (
          waiting X (record d {
            wakers = X.slab.set (X.slab.insert d.wakers none) (X.slab.vacant_key d.wakers) (some k);
          }))
  unfolding waiting
  claimed_waits d k =
      let i = X.slab.vacant_key d.wakers in
      let w = X.slab.insert d.wakers none in
      let new : X.slab.get w i ≡ some none = X.slab.get-insert d.wakers none i ∙ ground arith in
      let here : X.slab.get (X.slab.set w i (some k)) i ≡ some (some k) =
        X.slab.get-set w i (some k) i (λ z. cc) ∙ ground arith in
      In-append_right k (push_taken d.waker []) _
        (slot_wakers-In i k _ (X.slab.in-iter_of_get (X.slab.set w i (some k)) i (some k) here))

  poll_future_first :
      (dir : Dir) (s : Source X) (k : Waker) (t : ℕ) (p : X.poller.Poller)
      → IsSettled (poll_future X (new_ready dir) s k t p).0
        × In k (waiting X (direction X dir (poll_future X (new_ready dir) s k t p).2))
  unfolding poll_future new_ready delivered claim_slot
  poll_future_first read s k t p = (update_interest-IsSettled X _ _ p, claimed_waits s.reads k)
  poll_future_first write s k t p = (update_interest-IsSettled X _ _ p, claimed_waits s.writes k)

  ready_future_first :
      (r : Reactor X) (key : ℕ) (dir : Dir) (k : Waker) (s : Source X)
      → X.slab.get r.sources key ≡ some s
      → (out : Poll (IoResult (Unit {0})) × Ready × Reactor X) × (s' : Source X)
        × (poll_ready_future X r key (new_ready dir) k ≡ some out)
        × (X.slab.get out.2.sources key ≡ some s')
        × IsSettled out.0
        × WaitsAt X out.2.sources key dir k
  unfolding poll_ready_future get_ticker
  ready_future_first r key dir k s e =
      let out = poll_future X (new_ready dir) s k r.ticker r.poller in
      let (settles, waits) = poll_future_first dir s k r.ticker r.poller in
      let here : X.slab.get (X.slab.set r.sources key out.2) key ≡ some out.2 =
        X.slab.get-set r.sources key out.2 key (λ z. cc) ∙ ground arith in
      (
        (out.0, out.1, record r { poller = out.3; sources = X.slab.set r.sources key out.2 }),
        out.2,
        rw (e, poll_ready_future) refl,
        here,
        settles,
        (out.2, here, waits),
      )

  drop_present :
      (r : Reactor X) (key : ℕ) (f : Ready) (s : Source X)
      → X.slab.get r.sources key ≡ some s
      → (r' : Reactor X) × (s' : Source X) × (drop_ready_future X r key f ≡ some r')
        × (X.slab.get r'.sources key ≡ some s')
  unfolding drop_ready_future
  drop_present r key f s e = (
    record r { sources = X.slab.set r.sources key (drop_future X f s) },
    drop_future X f s,
    rw (e, drop_ready_future) refl,
    X.slab.get-set r.sources key (drop_future X f s) key (λ z. cc) ∙ ground arith,
  )

  optimistic_first :
      (r : Reactor X) (key : ℕ) (dir : Dir) (k : Waker) (s : Source X)
      → X.slab.get r.sources key ≡ some s
      → (res : Poll (IoResult (Unit {0}))) × (f : Ready) × (r' : Reactor X) × (s' : Source X)
        × (poll_optimistic X r key (optimistic dir) k
            ≡ some (res, record { polled = true; fut = f }, r'))
        × (X.slab.get r'.sources key ≡ some s')
        × IsSettled res
        × WaitsAt X r'.sources key dir k
  unfolding poll_optimistic optimistic
  optimistic_first r key dir k s e =
      let (out, s', f, g, h, w) = ready_future_first r key dir k s e in
      (out.0, out.1, out.2, s', rw (f, poll_optimistic) refl, g, h, w)

  optimistic_again :
      (r : Reactor X) (key : ℕ) (f : Ready) (k : Waker)
      → poll_optimistic X r key (record { polled = true; fut = f }) k
        ≡ some (ready (ok tt), record { polled = true; fut = f }, r)
  unfolding poll_optimistic
  optimistic_again r key f k = refl

module _ (X : Platform) (S R : Type 0) (dir : Dir) (op : S → IoResult R × S) (key : ℕ)
    (k : Waker) where
  -- What a poll returns with any fuel of a form: if it is pending, the task waits for the direction
  -- and the next poll will try the operation again.
  abbrev pub Returns : (ℕ → ℕ) → S → Reactor X → Progress → Type 0
  Returns enough st r at =
      (out : Polled X S R) × ((fuel : ℕ)
        → poll_with X S R (enough fuel) dir op st r key at k ≡ some out)
      × (out.0 ≡ pending
          → WaitsAt X out.3.sources key dir k
            × ((f : Ready) × (out.1 ≡ awaiting (record { polled = true; fut = f }))))

  Returns-settled :
      (st : S) (r r' : Reactor X) (res : Poll (IoResult (Unit {0}))) (f : Ready) (s' : Source X)
      → poll_optimistic X r key (optimistic dir) k
        ≡ some (res, record { polled = true; fut = f }, r')
      → X.slab.get r'.sources key ≡ some s'
      → IsSettled res
      → WaitsAt X r'.sources key dir k
      → Returns suc st r (awaiting (optimistic dir))
  unfolding poll_with
  Returns-settled st r r' pending f s' e g h w = (
    (pending, awaiting (record { polled = true; fut = f }), st, r'),
    λ fuel. rw (e, poll_with) refl,
    λ _. (w, (f, refl)),
  )
  Returns-settled st r r' (ready (err x)) f s' e g h w =
      let (r'', s'', d, _) = drop_present X r' key f s' g in
      ((ready (err x), finished, st, r''), λ fuel. rw (e, d, poll_with) refl, λ z. cc)
  Returns-settled st r r' (ready (ok a)) f s' e g h w = elim h [ ]

  Returns-trying :
      (st : S) (r : Reactor X) (s : Source X)
      → X.slab.get r.sources key ≡ some s
      → Returns (λ fuel. suc (suc fuel)) st r trying
  unfolding poll_with
  Returns-trying st r s e = elim (Bool-cases (is_would_block (op st).0)) [
    | inl b ↦
        let (res, f, r', s', g, h, settles, w) = optimistic_first X r key dir k s e in
        let (out, ends, waits) = Returns-settled (op st).1 r r' res f s' g h settles w in
        (out, λ fuel. rw (b, poll_with) (ends fuel), waits)
    | inr b ↦ ((ready (op st).0, finished, (op st).1, r), λ fuel. rw (b, poll_with) refl, λ z. cc)
  ]

  -- A poll of `read_with` or `write_with` on a source in the table, the first one or one after a
  -- pending poll, returns a result: any fuel from 3 on gives the same. If it is pending, the task
  -- of the context waits in the table for the direction, and the function stands where its next
  -- poll tries the operation again.
  pub poll_with_lem :
      (st : S) (r : Reactor X) (f : Ready) (s : Source X)
      → X.slab.get r.sources key ≡ some s
      → Returns (λ fuel. suc (suc (suc fuel))) st r trying
        × Returns (λ fuel. suc (suc (suc fuel))) st r (awaiting (record { polled = true; fut = f }))
  unfolding poll_with
  poll_with_lem st r f s e =
      let (out, ends, waits) = Returns-trying st r s e in
      let (r', s', d, e') = drop_present X r key f s e in
      let (out', ends', waits') = Returns-trying st r' s' e' in
      (
        (out, λ fuel. ends (suc fuel), waits),
        (out', λ fuel. rw (optimistic_again X r key f k, d, poll_with) (ends' fuel), waits'),
      )
