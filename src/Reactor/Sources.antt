-- ===== src/Reactor/Sources.antt =====
-- `src/reactor.rs`: `Source::poll_ready` and the future `Ready`. The waker of the context and the reactor's
-- ticker, which `Reactor::get().ticker()` reads, are arguments.
pub mod Cover
pub mod Interest
pub mod Serves
pub mod Fresh
pub mod Errors
use async_io.Base.{
  ℕ, Bool, true, false, not, ◌&&◌, List, [], ◌∷◌, Option, none, some, ◌==◌, if◌then◌else◌, IoResult,
  ok, err, Poll, pending, ready,
}
use async_io.Timers.{Waker, will_wake}
use async_io.External.Poller.{Event}
use async_io.Reactor.{Platform, Dir, read, write, Direction, Source}
use async_io.Reactor.Directions.{is_empty}

-- `Ready`: the handle stands for its source, which is an argument of the methods.
pub record Ready : Type 0 where
  pub dir : Dir
  pub ticks : Option (ℕ × ℕ)
  pub index : Option ℕ

-- `Source::ready`.
unfoldable pub new_ready : Dir → Ready
new_ready dir = record { dir = dir; ticks = none; index = none }

-- Whether an event has been delivered since the ticks were remembered.
unfoldable pub delivered : ℕ → Option (ℕ × ℕ) → Bool
delivered tick none = false
delivered tick (some (a, b)) = not (tick == a) && not (tick == b)

-- `…?; Poll::Pending`.
unfoldable pub settled : IoResult (Unit {0}) → Poll (IoResult (Unit {0}))
settled (ok a) = pending
settled (err e) = ready (err e)

module _ (X : Platform) where
  -- `state[dir]`.
  abbrev pub direction : Dir → Source X → Direction X
  direction read s = s.reads
  direction write s = s.writes

  abbrev pub set_direction : Dir → Direction X → Source X → Source X
  set_direction read d s = record s { reads = d }
  set_direction write d s = record s { writes = d }

  -- The event that says what the source waits for.
  unfoldable pub interest_event : Source X → Event
  interest_event s = record {
    key = s.key;
    readable = not (is_empty X s.reads);
    writable = not (is_empty X s.writes);
  }

  -- What follows a change of a source: interest is updated if the direction was empty before.
  unfoldable pub update_interest :
      Bool → Source X → X.poller.Poller → Poll (IoResult (Unit {0})) × X.poller.Poller
  unfolding interest_event settled
  update_interest false s p = (pending, p)
  update_interest true s p =
      let (p', res) = X.poller.modify s.registration p (interest_event s) in (settled res, p')

  -- Stores the waker and the ticks in `poll_ready`.
  unfoldable pub store_waker :
      Dir
      → Source X
      → Waker
      → ℕ
      → X.poller.Poller
      → Poll (IoResult (Unit {0})) × Source X × X.poller.Poller
  unfolding update_interest
  store_waker dir s k ticker p =
      let d = direction dir s in
      let d' : Direction X = record d { waker = some k; ticks = some (ticker, d.tick) } in
      let s' = set_direction dir d' s in
      let (res, p') = update_interest (is_empty X d) s' p in (res, s', p')

  -- The rest of `poll_ready` after the check of the ticks, by the waker stored before. The last
  -- part is what it wakes.
  unfoldable pub enroll :
      Option Waker
      → Dir
      → Source X
      → Waker
      → ℕ
      → X.poller.Poller
      → Poll (IoResult (Unit {0})) × Source X × X.poller.Poller × List Waker
  unfolding store_waker
  enroll none dir s k ticker p =
      let (res, s', p') = store_waker dir s k ticker p in (res, s', p', [])
  enroll (some w) dir s k ticker p =
      if will_wake w k
      then (pending, s, p, [])
      else (let (res, s', p') = store_waker dir s k ticker p in (res, s', p', w ∷ []))

  -- `Source::poll_ready`.
  unfoldable pub poll_ready :
      Source X
      → Dir
      → Waker
      → ℕ
      → X.poller.Poller
      → Poll (IoResult (Unit {0})) × Source X × X.poller.Poller × List Waker
  unfolding delivered enroll
  poll_ready s dir k ticker p =
      let d = direction dir s in
      if delivered d.tick d.ticks
      then (ready (ok tt), set_direction dir (record d { ticks = none }) s, p, [])
      else enroll d.waker dir s k ticker p

  -- The index of the future's slot, made on the first poll.
  unfoldable pub claim_slot : Ready → Direction X → ℕ → ℕ × Ready × Direction X
  claim_slot f d ticker = elim f.index [
    | some i ↦ (i, f, d)
    | none ↦ (
      X.slab.vacant_key d.wakers,
      record f { index = some (X.slab.vacant_key d.wakers); ticks = some (ticker, d.tick) },
      record d { wakers = X.slab.insert d.wakers none },
    )
  ]

  -- `Ready::poll`.
  unfoldable pub poll_future :
      Ready
      → Source X
      → Waker
      → ℕ
      → X.poller.Poller
      → Poll (IoResult (Unit {0})) × Ready × Source X × X.poller.Poller
  unfolding delivered claim_slot update_interest
  poll_future f s k ticker p =
      let d = direction f.dir s in
      if delivered d.tick f.ticks
      then (ready (ok tt), f, s, p)
      else (let (i, f', d') = claim_slot f d ticker in
          let s' = set_direction f.dir (record d' { wakers = X.slab.set d'.wakers i (some k) }) s in
          let (res, p') = update_interest (is_empty X d) s' p in (res, f', s', p'))

  -- `Drop for Ready`.
  unfoldable pub drop_slot : Option ℕ → Dir → Source X → Source X
  drop_slot none dir s = s
  drop_slot (some i) dir s =
      let d = direction dir s in
      elim (X.slab.get d.wakers i) [
        | none ↦ s
        | some _ ↦ set_direction dir (record d { wakers = X.slab.remove d.wakers i }) s
      ]

  unfoldable pub drop_future : Ready → Source X → Source X
  unfolding drop_slot
  drop_future f s = drop_slot f.index f.dir s
