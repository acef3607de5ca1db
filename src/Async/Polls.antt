-- ===== src/Async/Polls.antt =====
-- The loops of `AsyncRead` and `AsyncWrite` end, and a task that they leave pending waits for the
-- direction.
use async_io.Base.{
  ℕ, suc, ◌≡◌, refl, ◌≢◌, ◌∙◌, ap, sym, ◌⊎◌, inl, inr, Bool, true, false, List, [], ◌++◌, Option,
  none, some, In, arith, Bool-cases, IoResult, ok, err, Poll, pending, ready,
}
use async_io.Timers.{Waker, will_wake}
use async_io.Reactor.{Platform, Dir, Direction, Source, Reactor, get_ticker}
use async_io.Reactor.Directions.{push_taken}
use async_io.Reactor.Directions.Laws.{waiting}
use async_io.Reactor.Sources.{
  delivered, settled, direction, update_interest, store_waker, enroll, poll_ready,
}
use async_io.Reactor.Sources.Errors.{direction-set_direction}
use async_io.Reactor.Io.{poll_source}
use async_io.Reactor.React.Delivery.{WaitsAt}
use async_io.Async.{is_would_block, Outcome, with_woken, poll_op}

-- A poll that is not ready without an error.
abbrev pub IsSettled : Poll (IoResult (Unit {0})) → Type 0
IsSettled pending = Unit {0}
IsSettled (ready (err e)) = Unit {0}
IsSettled (ready (ok a)) = ⊥

settled-IsSettled : (res : IoResult (Unit {0})) → IsSettled (settled res)
unfolding settled
settled-IsSettled (ok a) = tt
settled-IsSettled (err e) = tt

module _ (X : Platform) where
  pub update_interest-IsSettled :
      (b : Bool) (s : Source X) (p : X.poller.Poller) → IsSettled (update_interest X b s p).0
  unfolding update_interest
  update_interest-IsSettled false s p = tt
  update_interest-IsSettled true s p = settled-IsSettled _

  enroll-IsSettled :
      (o : Option Waker) (dir : Dir) (s : Source X) (k : Waker) (t : ℕ) (p : X.poller.Poller)
      → IsSettled (enroll X o dir s k t p).0
  unfolding enroll store_waker
  enroll-IsSettled none dir s k t p = update_interest-IsSettled _ _ p
  enroll-IsSettled (some w) dir s k t p = elim (Bool-cases (will_wake w k)) [
    | inl e ↦ rw e tt
    | inr e ↦ rw e (update_interest-IsSettled _ _ p)
  ]

  -- The waker of the context is stored.
  enroll-waker :
      (o : Option Waker) (dir : Dir) (s : Source X) (k : Waker) (t : ℕ) (p : X.poller.Poller)
      → o ≡ (direction X dir s).waker
      → (direction X dir (enroll X o dir s k t p).1).waker ≡ some k
  unfolding enroll store_waker
  enroll-waker none dir s k t p e = ap (λ d. d.waker) (direction-set_direction X dir _ s)
  enroll-waker (some w) dir s k t p e = elim (Bool-cases (will_wake w k)) [
    | inl z ↦ let same : w ≡ k = ground arith in rw z (sym e ∙ ap some same)
    | inr z ↦ rw z (ap (λ d. d.waker) (direction-set_direction X dir _ s))
  ]

  pub poll_ready_cases :
      (s : Source X) (dir : Dir) (k : Waker) (t : ℕ) (p : X.poller.Poller)
      → (((poll_ready X s dir k t p).0 ≡ ready (ok tt))
          × ((direction X dir (poll_ready X s dir k t p).1).ticks ≡ none)
          × ((direction X dir s).ticks ≢ none))
        ⊎ (IsSettled (poll_ready X s dir k t p).0
            × ((direction X dir (poll_ready X s dir k t p).1).waker ≡ some k))
  unfolding poll_ready
  poll_ready_cases s dir k t p =
      elim (Bool-cases (delivered (direction X dir s).tick (direction X dir s).ticks)) [
        | inl f ↦ rw f (
            inl (
              refl,
              ap (λ d. d.ticks) (direction-set_direction X dir _ s),
              λ z.
                  let g : delivered (direction X dir s).tick (direction X dir s).ticks ≡ false =
                    unfold delivered in rw z refl in
                  cc,
            ))
        | inr f ↦ rw f (
            inr (
              enroll-IsSettled (direction X dir s).waker dir s k t p,
              enroll-waker (direction X dir s).waker dir s k t p refl,
            ))
      ]

  In-waiting : (d : Direction X) (k : Waker) → d.waker ≡ some k → In k (waiting X d)
  unfolding waiting push_taken
  In-waiting d k e = rw e (inl refl)

  -- What a poll of a source in the table leaves: it is ready and its ticks are forgotten, or it is
  -- settled and the task waits for the direction.
  poll_source_cases :
      (r : Reactor X) (key : ℕ) (dir : Dir) (k : Waker) (s : Source X)
      → X.slab.get r.sources key ≡ some s
      → (out : Poll (IoResult (Unit {0})) × Reactor X × List Waker) × (s' : Source X) × (poll_source
            X r key dir k
          ≡ some out)
        × (X.slab.get out.1.sources key ≡ some s')
        × (((out.0 ≡ ready (ok tt))
              × ((direction X dir s').ticks ≡ none)
              × ((direction X dir s).ticks ≢ none))
            ⊎ (IsSettled out.0 × WaitsAt X out.1.sources key dir k))
  unfolding poll_source get_ticker
  poll_source_cases r key dir k s e =
      let out = poll_ready X s dir k r.ticker r.poller in
      let put_back : X.slab.get (X.slab.set r.sources key out.1) key ≡ some out.1 =
        X.slab.get-set r.sources key out.1 key (λ z. cc) ∙ ground arith in
      (
        (out.0, record r { poller = out.2; sources = X.slab.set r.sources key out.1 }, out.3),
        out.1,
        rw (e, poll_source) refl,
        put_back,
        elim (poll_ready_cases s dir k r.ticker r.poller) [
          | inl c ↦ inl c
          | inr (a, b) ↦ inr (a, (out.1, put_back, In-waiting (direction X dir out.1) k b))
        ],
      )

module _ (X : Platform) (S R : Type 0) where
  lift : Poll (IoResult (Unit {0})) → Poll (IoResult R)
  lift pending = pending
  lift (ready (err e)) = ready (err e)
  lift (ready (ok a)) = pending

  poll_op-done :
      (fuel : ℕ) (op : S → IoResult R × S) (st : S) (r : Reactor X) (key : ℕ) (dir : Dir)
      (k : Waker)
      → is_would_block (op st).0 ≡ false
      → poll_op X S R (suc fuel) op st r key dir k ≡ some (ready (op st).0, (op st).1, r, [])
  unfolding poll_op
  poll_op-done fuel op st r key dir k e = rw (e, poll_op) refl

  poll_op-settled :
      (fuel : ℕ) (op : S → IoResult R × S) (st : S) (r : Reactor X) (key : ℕ) (dir : Dir)
      (k : Waker) (res : Poll (IoResult (Unit {0}))) (r' : Reactor X) (woken : List Waker)
      → is_would_block (op st).0 ≡ true
      → poll_source X r key dir k ≡ some (res, r', woken)
      → IsSettled res
      → poll_op X S R (suc fuel) op st r key dir k ≡ some (lift res, (op st).1, r', woken)
  unfolding poll_op lift
  poll_op-settled fuel op st r key dir k pending r' woken e f h = rw (e, f, poll_op) refl
  poll_op-settled fuel op st r key dir k (ready (err x)) r' woken e f h = rw (e, f, poll_op) refl
  poll_op-settled fuel op st r key dir k (ready (ok a)) r' woken e f h = elim h [ ]

  poll_op-again :
      (fuel : ℕ) (op : S → IoResult R × S) (st : S) (r : Reactor X) (key : ℕ) (dir : Dir)
      (k : Waker) (r' : Reactor X) (woken : List Waker)
      → is_would_block (op st).0 ≡ true
      → poll_source X r key dir k ≡ some (ready (ok tt), r', woken)
      → poll_op X S R (suc fuel) op st r key dir k
        ≡ with_woken X S R woken (poll_op X S R fuel op (op st).1 r' key dir k)
  unfolding poll_op
  poll_op-again fuel op st r key dir k r' woken e f = rw (e, f, poll_op) refl

  -- What the loop returns with any fuel of a form, and what it leaves if that is pending.
  abbrev pub Ends : (ℕ → ℕ) → (S → IoResult R × S) → S → Reactor X → ℕ → Dir → Waker → Type 0
  Ends enough op st r key dir k =
      (out : Outcome X S R) × ((fuel : ℕ)
        → poll_op X S R (enough fuel) op st r key dir k ≡ some out)
      × (out.0 ≡ pending → WaitsAt X out.2.sources key dir k)

  Ends-settled :
      (op : S → IoResult R × S) (st : S) (r : Reactor X) (key : ℕ) (dir : Dir) (k : Waker)
      (out : Poll (IoResult (Unit {0})) × Reactor X × List Waker)
      → poll_source X r key dir k ≡ some out
      → is_would_block (op st).0 ≡ true
      → IsSettled out.0
      → WaitsAt X out.1.sources key dir k
      → Ends suc op st r key dir k
  Ends-settled op st r key dir k (res, r', woken) f e h w = (
    (lift res, (op st).1, r', woken),
    λ fuel. poll_op-settled fuel op st r key dir k res r' woken e f h,
    λ _. w,
  )

  Ends-done :
      (op : S → IoResult R × S) (st : S) (r : Reactor X) (key : ℕ) (dir : Dir) (k : Waker)
      → is_would_block (op st).0 ≡ false
      → Ends suc op st r key dir k
  Ends-done op st r key dir k e =
      ((ready (op st).0, (op st).1, r, []), λ fuel. poll_op-done fuel op st r key dir k e, λ z. cc)

  Ends-once :
      (op : S → IoResult R × S) (st : S) (r : Reactor X) (key : ℕ) (dir : Dir) (k : Waker)
      (s : Source X)
      → X.slab.get r.sources key ≡ some s
      → (direction X dir s).ticks ≡ none
      → Ends suc op st r key dir k
  Ends-once op st r key dir k s e n = elim (Bool-cases (is_would_block (op st).0)) [
    | inl b ↦
        let (out, s', f, g, c) = poll_source_cases X r key dir k s e in
        elim c [
          | inl (a, b', ne) ↦ absurd (ne n)
          | inr (a, w) ↦ Ends-settled op st r key dir k out f b a w
        ]
    | inr b ↦ Ends-done op st r key dir k b
  ]

  -- The loop of `poll_read`, `poll_write` and `poll_flush` on a source in the table ends: it tries
  -- the operation at most twice, so that any fuel from 2 on gives the same result; and if that is
  -- pending, the task of the context waits in the table for the direction.
  pub poll_op_lem :
      (op : S → IoResult R × S) (st : S) (r : Reactor X) (key : ℕ) (dir : Dir) (k : Waker)
      (s : Source X)
      → X.slab.get r.sources key ≡ some s
      → Ends (λ fuel. suc (suc fuel)) op st r key dir k
  unfolding with_woken
  poll_op_lem op st r key dir k s e = elim (Bool-cases (is_would_block (op st).0)) [
    | inl b ↦
        let (out, s', f, g, c) = poll_source_cases X r key dir k s e in
        elim c [
          | inl (a, n, _) ↦
              let f' : poll_source X r key dir k ≡ some (ready (ok tt), out.1, out.2) =
                ground (arith, f, a) in
              let (out', ends, waits) = Ends-once op (op st).1 out.1 key dir k s' g n in
              (
                (out'.0, out'.1, out'.2, out.2 ++ out'.3),
                λ fuel.
                    rw
                      (
                        poll_op-again (suc fuel) op st r key dir k out.1 out.2 b f',
                        ends fuel,
                        with_woken,
                      )
                      refl,
                waits,
              )
          | inr (a, w) ↦
              let (out', ends, waits) = Ends-settled op st r key dir k out f b a w in
              (out', λ fuel. ends (suc fuel), waits)
        ]
    | inr b ↦
        let (out, ends, waits) = Ends-done op st r key dir k b in
        (out, λ fuel. ends (suc fuel), waits)
  ]
