-- ===== src/Reactor/React/Covered.antt =====
-- A round of the reactor keeps all sources covered, although delivery ends the interest of the
-- descriptors it concerns.
use async_io.Base.{
  ℕ, ◌≡◌, refl, inl, inr, List, [], ◌∷◌, Option, Bool-cases, Option-cases, interrupted, would_block,
  other, IoResult, ok, err,
}
use async_io.Timers.{Waker}
use async_io.External.Poller.{Event}
use async_io.Reactor.{Platform, Source, Reactor}
use async_io.Reactor.Sources.Cover.{IoResult-cases, Covered-transport}
use async_io.Reactor.Io.Covered.{AllCovered, AllCovered-Tracked, Tracked-AllCovered}
use async_io.Reactor.Io.Tracked.{Tracked}
use async_io.Reactor.Fire.Laws.{process_timers-Keeps}
use async_io.Reactor.React.{deliver, dispatch, begin_react, finish_react, react, is_nonzero}
use async_io.Reactor.React.Events.{after_event, dispatch-none, dispatch_ok, dispatch_err}
use async_io.Reactor.React.Ahead.{keys, wait-Tracked, dispatch_step, skip_step}

module _ (X : Platform) where
  -- Every source is known to the poller, and covered unless an event for it is still ahead.
  abbrev pub CoveredUnless : List Event → X.slab.Slab (Source X) → X.poller.Poller → Type 0
  CoveredUnless evs sources p = Tracked X (keys evs) sources p

  wait-CoveredUnless :
      (sources : X.slab.Slab (Source X)) (p : X.poller.Poller) (timeout : Option ℕ)
      (evs : List Event)
      → (X.poller.wait p timeout).1 ≡ ok evs
      → AllCovered X sources p
      → CoveredUnless evs sources (X.poller.wait p timeout).0
  wait-CoveredUnless sources p timeout evs e all =
      wait-Tracked X [] (keys evs) sources p timeout evs e (λ j m. elim m [ ]) (λ j m. m)
        (AllCovered-Tracked X sources p all)

  dispatch-AllCovered :
      (evs : List Event) (tick : ℕ) (r : Reactor X) (wakers : List Waker)
      → CoveredUnless evs r.sources r.poller
      → (dispatch X evs tick r wakers).2 ≡ ok tt
      → AllCovered X
          (dispatch X evs tick r wakers).0.sources
          (dispatch X evs tick r wakers).0.poller
  dispatch-AllCovered [] tick r wakers all good =
      unfold dispatch in Tracked-AllCovered X r.sources r.poller all
  dispatch-AllCovered (ev ∷ evs) tick r wakers all good =
      elim (Option-cases (X.slab.get r.sources ev.key)) [
        | inl e ↦
            let eq = dispatch-none X ev evs tick r wakers e in
            rw eq (
              dispatch-AllCovered evs tick r wakers
                (skip_step X ev (keys evs) r.sources r.poller e all) (rw eq at good))
        | inr (s, e) ↦ elim (IoResult-cases (deliver X ev tick s r.poller wakers).3) [
          | inl fine ↦
              let eq = dispatch_ok X ev evs tick r wakers s e fine in
              rw eq (
                dispatch-AllCovered evs tick (after_event X ev tick s r wakers)
                  (deliver X ev tick s r.poller wakers).2
                  (unfold after_event in
                    dispatch_step X ev (keys evs) tick r.sources r.poller wakers s e fine all)
                  (rw eq at good))
          | inr (k, bad) ↦
              let eq = dispatch_err X ev evs tick r wakers s k e bad in
              let z : ◌≡◌ {A = IoResult (Unit {0})} (err k) (ok tt) = rw eq at good in absurd (cc)
        ]
      ]

  finish_react-AllCovered :
      (evs : List Event) (timeout : Option ℕ) (tick later : ℕ) (r : Reactor X) (wakers : List Waker)
      → CoveredUnless evs r.sources r.poller
      → (finish_react X (ok evs) timeout tick later r wakers).2 ≡ ok tt
      → AllCovered X
          (finish_react X (ok evs) timeout tick later r wakers).0.sources
          (finish_react X (ok evs) timeout tick later r wakers).0.poller
  unfolding finish_react
  finish_react-AllCovered [] timeout tick later r wakers all good =
      let k = process_timers-Keeps X r wakers later in
      elim (Bool-cases (is_nonzero timeout)) [
        | inl e ↦
            rw (e, finish_react)
              (rw (k.sources, k.poller) (Tracked-AllCovered X r.sources r.poller all))
        | inr e ↦ rw (e, finish_react) (Tracked-AllCovered X r.sources r.poller all)
      ]
  finish_react-AllCovered (ev ∷ evs) timeout tick later r wakers all good =
      dispatch-AllCovered (ev ∷ evs) tick r wakers all good

  -- The sources and the poller do not change until the poller waits.
  pub begin_react_keeps :
      (r : Reactor X) (timeout : Option ℕ) (now : ℕ)
      → ((begin_react X r timeout now).0.sources ≡ r.sources)
        × ((begin_react X r timeout now).0.poller ≡ r.poller)
  unfolding begin_react
  begin_react_keeps r timeout now = let k = process_timers-Keeps X r [] now in (k.sources, k.poller)

  -- After the poller has returned.
  after_wait-AllCovered :
      (r : Reactor X) (timeout : Option ℕ) (tick later : ℕ) (wakers : List Waker)
      (res : IoResult (List Event))
      → (X.poller.wait r.poller timeout).1 ≡ res
      → AllCovered X r.sources r.poller
      → let r' : Reactor X = record r { poller = (X.poller.wait r.poller timeout).0 } in
        (finish_react X res timeout tick later r' wakers).2 ≡ ok tt
        → AllCovered X
            (finish_react X res timeout tick later r' wakers).0.sources
            (finish_react X res timeout tick later r' wakers).0.poller
  after_wait-AllCovered r timeout tick later wakers (ok evs) e all good =
      finish_react-AllCovered evs timeout tick later _ wakers
        (wait-CoveredUnless r.sources r.poller timeout evs e all) good
  after_wait-AllCovered r timeout tick later wakers (err interrupted) e all good =
      unfold finish_react in
      λ j t f.
        let (k, c) = all j t f in
        (
          k,
          Covered-transport X t r.poller _
              (X.poller.wait_err r.poller timeout interrupted t.registration e) c,
        )
  after_wait-AllCovered r timeout tick later wakers (err would_block) e all good =
      absurd (unfold finish_react in cc)
  after_wait-AllCovered r timeout tick later wakers (err other) e all good =
      absurd (unfold finish_react in cc)

  -- If every source in the table is covered (it stands under its own key, and its object has an
  -- interest registered in the poller, under that key, for each direction in which somebody waits
  -- and which the object can have), then so it is after a round of the reactor that returns `Ok`.
  pub react-AllCovered :
      (r : Reactor X) (timeout : Option ℕ) (now later : ℕ)
      → AllCovered X r.sources r.poller
      → (react X r timeout now later).2 ≡ ok tt
      → AllCovered X (react X r timeout now later).0.sources (react X r timeout now later).0.poller
  unfolding react
  react-AllCovered r timeout now later all good =
      let b = begin_react X r timeout now in
      let k = begin_react_keeps r timeout now in
      after_wait-AllCovered b.0 b.2 b.3 later b.1 _ refl (rw (k.0, k.1) all) good
