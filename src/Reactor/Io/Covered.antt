-- ===== src/Reactor/Io/Covered.antt =====
-- Every source in the reactor's table is registered for whatever somebody waits for.
use async_io.Base.{
  ℕ, ◌≡◌, ◌≢◌, ◌⊎◌, inl, inr, [], List, none, some, arith, if◌then◌else◌, IoResult, Poll, ◌==◌,
}
use async_io.Timers.{Waker}
use async_io.Reactor.{Platform, Dir, Source, Reactor}
use async_io.Reactor.Sources.{Ready}
use async_io.Reactor.Sources.Cover.{NotErr, Covered, Known, Covered-Known}
use async_io.Reactor.Io.Tracked.{
  Tracked, insert_io-Tracked, remove_io-Tracked, poll_source-Tracked, poll_ready_future-Tracked,
  drop_ready_future-Tracked,
}
use async_io.Reactor.Io.{insert_io, remove_io, poll_source, poll_ready_future, drop_ready_future}

module _ (X : Platform) where
  -- Each source stands under its own key and is covered.
  abbrev pub AllCovered : X.slab.Slab (Source X) → X.poller.Poller → Type 0
  AllCovered sources p =
      (key : ℕ) (s : Source X) → X.slab.get sources key ≡ some s → (s.key ≡ key) × Covered X s p

  pub AllCovered-Tracked :
      (sources : X.slab.Slab (Source X)) (p : X.poller.Poller)
      → AllCovered sources p
      → Tracked X [] sources p
  AllCovered-Tracked sources p all j t f =
      let (k, c) = all j t f in (k, Covered-Known X t p c, inl c)

  -- With no event ahead, all are covered.
  pub Tracked-AllCovered :
      (sources : X.slab.Slab (Source X)) (p : X.poller.Poller)
      → Tracked X [] sources p
      → AllCovered sources p
  Tracked-AllCovered sources p all j t f = settled_one (all j t f)
    where
      settled_one : (t.key ≡ j) × Known X t p × (Covered X t p ⊎ ⊥) → (t.key ≡ j) × Covered X t p
      settled_one (k, _, inl c) = (k, c)
      settled_one (k, _, inr z) = elim z [ ]

  -- `insert_io` keeps all sources covered, also when the poller refuses the descriptor.
  pub insert_io-AllCovered :
      (r : Reactor X) (raw : X.poller.Registration)
      → AllCovered r.sources r.poller
      → AllCovered (insert_io X r raw).1.sources (insert_io X r raw).1.poller
  insert_io-AllCovered r raw all =
      Tracked-AllCovered _ _ (insert_io-Tracked X [] r raw (AllCovered-Tracked _ _ all))

  -- If all sources are covered, `remove_io` of a source in the table takes it out of the table,
  -- whatever the poller answers, and keeps the other sources covered and in their places.
  remove_io-AllCovered :
      (r : Reactor X) (s : Source X)
      → X.slab.get r.sources s.key ≡ some s
      → AllCovered r.sources r.poller
      → AllCovered (remove_io X r s).1.sources (remove_io X r s).1.poller
        × ((j : ℕ)
            → X.slab.get (remove_io X r s).1.sources j
              ≡ (if s.key == j then none else X.slab.get r.sources j))
  unfolding remove_io
  remove_io-AllCovered r s e all =
      let occupied : X.slab.get r.sources s.key ≢ none = λ z. ground arith in
      (
        Tracked-AllCovered _ _ (remove_io-Tracked X [] r s e (AllCovered-Tracked _ _ all)),
        λ j. X.slab.get-remove r.sources s.key j occupied,
      )

  -- If all sources are covered, a poll of a source in the table, for either direction, returns a
  -- result and, unless that is an error, keeps all sources covered.
  pub poll_source-AllCovered :
      (r : Reactor X) (key : ℕ) (dir : Dir) (k : Waker) (s : Source X)
      → X.slab.get r.sources key ≡ some s
      → AllCovered r.sources r.poller
      → (out : Poll (IoResult (Unit {0})) × Reactor X × List Waker) × (poll_source X r key dir k
          ≡ some out)
        × (NotErr out.0 → AllCovered out.1.sources out.1.poller)
  poll_source-AllCovered r key dir k s e all =
      let (out, eq, kept) = poll_source-Tracked X [] r key dir k s e (AllCovered-Tracked _ _ all) in
      (out, eq, λ good. Tracked-AllCovered _ _ (kept (inl good)))

  -- If all sources are covered, a poll of a `Readable` or `Writable` future on a source in the
  -- table returns a result and, unless that is an error, keeps all sources covered.
  poll_ready_future-AllCovered :
      (r : Reactor X) (key : ℕ) (f : Ready) (k : Waker) (s : Source X)
      → X.slab.get r.sources key ≡ some s
      → AllCovered r.sources r.poller
      → (out : Poll (IoResult (Unit {0})) × Ready × Reactor X) × (poll_ready_future X r key f k
          ≡ some out)
        × (NotErr out.0 → AllCovered out.2.sources out.2.poller)
  poll_ready_future-AllCovered r key f k s e all =
      let (out, eq, kept) =
        poll_ready_future-Tracked X [] r key f k s e (AllCovered-Tracked _ _ all) in
      (out, eq, λ good. Tracked-AllCovered _ _ (kept (inl good)))

  -- If all sources are covered, the drop of a `Readable` or `Writable` future on a source in the
  -- table keeps them covered.
  drop_ready_future-AllCovered :
      (r : Reactor X) (key : ℕ) (f : Ready) (s : Source X)
      → X.slab.get r.sources key ≡ some s
      → AllCovered r.sources r.poller
      → (r' : Reactor X) × (drop_ready_future X r key f ≡ some r') × AllCovered r'.sources r'.poller
  drop_ready_future-AllCovered r key f s e all =
      let (r', eq, kept) =
        drop_ready_future-Tracked X [] r key f s e (AllCovered-Tracked _ _ all) in
      (r', eq, Tracked-AllCovered _ _ kept)
