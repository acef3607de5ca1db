-- ===== src/Async/Watches.antt =====
-- A pending poll of a source leaves the poller watching the source's object.
use async_io.Base.{
  ℕ, ◌≡◌, refl, ◌∙◌, ap, sym, inl, inr, true, List, some, IoResult, ok, Poll, pending, ready,
}
use async_io.Timers.{Waker}
use async_io.External.Poller.{Event}
use async_io.Reactor.{Platform, read, Source, Reactor, get_ticker}
use async_io.Reactor.Directions.Laws.{is_empty_waker}
use async_io.Reactor.Sources.{poll_ready}
use async_io.Reactor.Sources.Serves.{poll_ready-Serves}
use async_io.Reactor.Io.{poll_source}
use async_io.Reactor.Io.Covered.{AllCovered}
use async_io.Async.Polls.{poll_ready_cases}

module _ (X : Platform) where
  -- The poller reports the object under this key once it is readable.
  abbrev pub Watches : X.poller.Poller → X.poller.Registration → ℕ → Type 0
  Watches p reg key =
      (ev : Event) × (X.poller.interest p reg ≡ some ev) × (ev.key ≡ key) × (ev.readable ≡ true)

  pub poll_source-Watches :
      (r : Reactor X) (key : ℕ) (k : Waker) (s : Source X)
      → X.slab.get r.sources key ≡ some s
      → AllCovered X r.sources r.poller
      → (out : Poll (IoResult (Unit {0})) × Reactor X × List Waker) × (poll_source X r key read k
          ≡ some out)
        × (out.0 ≡ pending → Watches out.1.poller s.registration key)
  unfolding poll_source get_ticker
  poll_source-Watches r key k s e all =
      let out = poll_ready X s read k r.ticker r.poller in
      let serves = poll_ready-Serves X s read k r.ticker r.poller in
      let (same_key, c) = all key s e in
      (
        (out.0, record r { poller = out.2; sources = X.slab.set r.sources key out.1 }, out.3),
        rw (e, poll_source) refl,
        λ waits. elim (poll_ready_cases X s read k r.ticker r.poller) [
          | inl (z, _, _) ↦ absurd (let both : pending ≡ ready (ok tt) = sym waits ∙ z in cc)
          | inr (_, stored) ↦
              let now = serves.covers c (rw waits tt) in
              (
                now.event,
                ap (X.poller.interest out.2) (sym serves.keeps.registration) ∙ now.registered,
                now.same_key ∙ serves.keeps.key ∙ same_key,
                now.covers_reads (is_empty_waker X out.1.reads k stored),
              )
        ],
      )
