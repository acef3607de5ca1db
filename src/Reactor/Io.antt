-- ===== src/Reactor/Io.antt =====
-- `src/reactor.rs`: `insert_io` and `remove_io`, and the polls of a source that stands in the
-- table: a live handle's `Arc<Source>` and the table's entry under its key are one object.
pub mod Tracked
pub mod Covered
use async_io.Base.{ℕ, List, Option, none, some, IoResult, ok, err, Poll}
use async_io.Timers.{Waker}
use async_io.Reactor.{Platform, Dir, Source, Reactor, default_direction, get_ticker}
use async_io.Reactor.Sources.{Ready, poll_ready, poll_future, drop_future}

module _ (X : Platform) where
  -- The key of the new source, or the error of the poller.
  unfoldable pub insert_io : Reactor X → X.poller.Registration → IoResult ℕ × Reactor X
  unfolding default_direction
  insert_io r raw =
      let key = X.slab.vacant_key r.sources in
      let source : Source X = record {
        registration = raw;
        key = key;
        reads = default_direction X;
        writes = default_direction X;
      } in
      let sources = X.slab.insert r.sources source in
      let (p, res) = X.poller.add raw r.poller key in
      elim res [
        | ok _ ↦ (ok key, record r { poller = p; sources = sources })
        | err e ↦ (err e, record r { poller = p; sources = X.slab.remove sources key })
      ]

  unfoldable pub remove_io : Reactor X → Source X → IoResult (Unit {0}) × Reactor X
  remove_io r source =
      let sources = X.slab.remove r.sources source.key in
      let (p, res) = X.poller.delete source.registration r.poller in
      (res, record r { poller = p; sources = sources })

  -- The source in the table, after an operation on it.
  abbrev pub put : Reactor X → ℕ → Source X → X.poller.Poller → Reactor X
  put r key s p = record r { poller = p; sources = X.slab.set r.sources key s }

  -- `poll_readable` and `poll_writable` of the source under a key; `none` if there is no such
  -- source, which a live handle excludes.
  unfoldable pub poll_source :
      Reactor X → ℕ → Dir → Waker → Option (Poll (IoResult (Unit {0})) × Reactor X × List Waker)
  unfolding get_ticker
  poll_source r key dir k = elim (X.slab.get r.sources key) [
    | none ↦ none
    | some s ↦
        let (res, s', p, woken) = poll_ready X s dir k (get_ticker X r) r.poller in
        some (res, put r key s' p, woken)
  ]

  -- The poll of a `Readable` or `Writable` future on the source under a key.
  unfoldable pub poll_ready_future :
      Reactor X → ℕ → Ready → Waker → Option (Poll (IoResult (Unit {0})) × Ready × Reactor X)
  unfolding get_ticker
  poll_ready_future r key f k = elim (X.slab.get r.sources key) [
    | none ↦ none
    | some s ↦
        let (res, f', s', p) = poll_future X f s k (get_ticker X r) r.poller in
        some (res, f', put r key s' p)
  ]

  unfoldable pub drop_ready_future : Reactor X → ℕ → Ready → Option (Reactor X)
  drop_ready_future r key f = elim (X.slab.get r.sources key) [
    | none ↦ none
    | some s ↦ some (put r key (drop_future X f s) r.poller)
  ]
