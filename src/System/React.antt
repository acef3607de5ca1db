-- ===== src/System/React.antt =====
-- `ReactorLock::react` (`src/reactor.rs`) with no other thread in between is a path of the steps.
use async_io.Base.{
  none, some, zero, suc, arith, ◌==◌, ℕ, ◌≡◌, refl, inl, inr, Bool, false, List, [], ◌∷◌, ◌++◌,
  Option, Option-cases, ErrorKind, sym, ◌∙◌, IoResult, ok, err, interrupted, would_block, other,
}
use async_io.Timers.{Waker}
use async_io.External.Poller.{Event}
use async_io.Reactor.{Platform, Reactor}
use async_io.Reactor.Sources.Cover.{IoResult-cases}
use async_io.Reactor.React.{deliver, dispatch, begin_react, finish_react, react}
use async_io.Reactor.React.Events.{dispatch-none, dispatch_ok, dispatch_err}
use async_io.Reactor.Fire.{process_timers}
use async_io.System.{
  Phase, idle, waiting, firing, dispatching, after_wait, System, Step, began, with_poller, begins,
  returns, fails, dispatches, breaks, fires, ends, Reach, here, next,
}

module _ (X : Platform) where
  -- The steps with which the round under way goes on.
  abbrev pub IsRound : {s t : System X} → Step X s t → Type 0
  IsRound (returns now timeout tick wakers evs e f) = Unit {0}
  IsRound (fails now timeout tick wakers x e f) = Unit {0}
  IsRound (dispatches ev evs tick wakers e f) = Unit {0}
  IsRound (breaks ev evs tick wakers x e f) = Unit {0}
  IsRound (fires later tick wakers e) = Unit {0}
  IsRound (ends tick wakers e) = Unit {0}
  IsRound _ = ⊥

  -- No other step is on the path.
  abbrev pub IsAlone : {s t : System X} → Reach X s t → Type 0
  IsAlone here = Unit {0}
  IsAlone (next path step) = IsAlone path × IsRound step

  abbrev pub Goes : System X → System X → Type 0
  Goes s t = (path : Reach X s t) × IsAlone path

  Goes-trans : {s t u : System X} → Goes s t → Goes t u → Goes s u
  Goes-trans g (here, a) = g
  Goes-trans g (next rest step, (a, b)) =
      let (path, alone) = Goes-trans g (rest, a) in (next path step, (alone, b))

  -- The state `q`, but for what a round changes.
  abbrev at : System X → Reactor X → Phase → List Waker → Bool → System X
  at q r ph woken notified = record q {
    reactor = r;
    phase = ph;
    woken = woken;
    notified = notified;
  }

  -- The loop dispatches its first event and goes on with the others.
  dispatch-cons :
      (ev : Event) (evs : List Event) (tick : ℕ) (r : Reactor X) (wakers : List Waker)
      → (dispatch X (ev ∷ []) tick r wakers).2 ≡ ok tt
      → dispatch X (ev ∷ evs) tick r wakers
        ≡ dispatch X evs tick
            (dispatch X (ev ∷ []) tick r wakers).0
            (dispatch X (ev ∷ []) tick r wakers).1
  dispatch-cons ev evs tick r wakers good = elim (Option-cases (X.slab.get r.sources ev.key)) [
    | inl e ↦
        rw (dispatch-none X ev [] tick r wakers e)
          (unfold dispatch in dispatch-none X ev evs tick r wakers e)
    | inr (s, e) ↦ elim (IoResult-cases (deliver X ev tick s r.poller wakers).3) [
      | inl fine ↦
          rw (dispatch_ok X ev [] tick r wakers s e fine)
            (unfold dispatch in dispatch_ok X ev evs tick r wakers s e fine)
      | inr (k, bad) ↦
          let eq = dispatch_err X ev [] tick r wakers s k e bad in
          let z : ◌≡◌ {A = IoResult (Unit {0})} (err k) (ok tt) = rw eq at good in absurd (cc)
    ]
  ]

  -- It ends with the first event that fails.
  dispatch-cons_err :
      (ev : Event) (evs : List Event) (tick : ℕ) (r : Reactor X) (wakers : List Waker)
      (x : ErrorKind)
      → (dispatch X (ev ∷ []) tick r wakers).2 ≡ err x
      → dispatch X (ev ∷ evs) tick r wakers ≡ dispatch X (ev ∷ []) tick r wakers
  dispatch-cons_err ev evs tick r wakers x bad = elim (Option-cases (X.slab.get r.sources ev.key)) [
    | inl e ↦
        let eq = dispatch-none X ev [] tick r wakers e in
        let z : ◌≡◌ {A = IoResult (Unit {0})} (ok tt) (err x) = unfold dispatch in (rw eq at bad) in
        absurd (cc)
    | inr (s, e) ↦ elim (IoResult-cases (deliver X ev tick s r.poller wakers).3) [
      | inl fine ↦
          let eq = dispatch_ok X ev [] tick r wakers s e fine in
          let z : ◌≡◌ {A = IoResult (Unit {0})} (ok tt) (err x) =
            unfold dispatch in (rw eq at bad) in
          absurd (cc)
      | inr (k, failed) ↦
          dispatch_err X ev evs tick r wakers s k e failed
          ∙ sym (dispatch_err X ev [] tick r wakers s k e failed)
    ]
  ]

  -- How a round ends: no failure is counted and no source lost if it returned `Ok` or the poller
  -- failed.
  abbrev Ends :
      System X
      → Reactor X
      → Phase
      → List Waker
      → Bool
      → Reactor X × List Waker × IoResult (Unit {0})
      → Type 0
  Ends q r ph woken b out =
      (lost : List ℕ) × (failures : ℕ) × Goes (at q r ph woken b) (record q {
        reactor = out.0;
        phase = idle;
        woken = woken ++ out.1;
        notified = b;
        lost = lost;
        failures = failures;
      })
      × (out.2 ≡ ok tt → (lost ≡ q.lost) × (failures ≡ q.failures))

  dispatch-Ends :
      (q : System X) (evs : List Event) (tick : ℕ) (r : Reactor X) (wakers woken : List Waker)
      (b : Bool)
      → Ends q r (dispatching evs tick wakers) woken b (dispatch X evs tick r wakers)
  dispatch-Ends q [] tick r wakers woken b =
      unfold dispatch in
      (q.lost, q.failures, (next here (ends tick wakers refl), (tt, tt)), λ e. (refl, refl))
  dispatch-Ends q (ev ∷ evs) tick r wakers woken b =
      elim (IoResult-cases (dispatch X (ev ∷ []) tick r wakers).2) [
        | inl one ↦
            let eq = dispatch-cons ev evs tick r wakers one in
            let step = dispatches ev evs tick wakers refl one in
            let (lost, failures, path, same) =
              dispatch-Ends q evs tick (dispatch X (ev ∷ []) tick r wakers).0
                (dispatch X (ev ∷ []) tick r wakers).1 woken b in
            rw eq (lost, failures, Goes-trans (next here step, (tt, tt)) path, same)
        | inr (x, bad) ↦
            let eq = dispatch-cons_err ev evs tick r wakers x bad in
            let step = breaks ev evs tick wakers x refl bad in
            rw eq (
              _,
              _,
              (next here step, (tt, tt)),
              λ good.
                  absurd
                    (let z : ◌≡◌ {A = IoResult (Unit {0})} (ok tt) (err x) = sym good ∙ bad in cc),
            )
      ]

  -- The timers are processed again, and the round ends.
  fired-Ends :
      (q : System X) (tick later : ℕ) (r : Reactor X) (wakers woken : List Waker) (b : Bool)
      → let fired = process_timers X r wakers later in
        Ends q r (firing tick wakers) woken b (fired.2, fired.1, ok tt)
  fired-Ends q tick later r wakers woken b = (
    q.lost,
    q.failures,
    (next (next here (fires later tick wakers refl)) (ends tick _ refl), ((tt, tt), tt)),
    λ g. (refl, refl),
  )

  -- A round's last steps, after the poller has returned.
  finish_react-Ends :
      (q : System X) (evs : List Event) (timeout : Option ℕ) (tick later : ℕ) (r : Reactor X)
      (wakers woken : List Waker) (b : Bool)
      → Ends q r
          (after_wait evs timeout tick wakers)
          woken
          b
          (finish_react X (ok evs) timeout tick later r wakers)
  unfolding finish_react after_wait
  finish_react-Ends q [] none tick later r wakers woken b = fired-Ends q tick later r wakers woken b
  finish_react-Ends q [] (some zero) tick later r wakers woken b =
      (q.lost, q.failures, (next here (ends tick wakers refl), (tt, tt)), λ g. (refl, refl))
  finish_react-Ends q [] (some (suc d)) tick later r wakers woken b =
      let e : (suc d == 0) ≡ false = ground arith in
      rw (e, finish_react) (fired-Ends q tick later r wakers woken b)
  finish_react-Ends q (ev ∷ evs) timeout tick later r wakers woken b =
      dispatch-Ends q (ev ∷ evs) tick r wakers woken b

  waiting-Ends :
      (q : System X) (r : Reactor X) (now : ℕ) (timeout : Option ℕ) (tick later : ℕ)
      (wakers woken : List Waker) (b : Bool) (res : IoResult (List Event))
      → (X.poller.wait r.poller timeout).1 ≡ res
      → Ends q r (waiting now timeout tick wakers) woken b (
          finish_react X res timeout tick later
            (with_poller X r (X.poller.wait r.poller timeout).0)
            wakers)
  waiting-Ends q r now timeout tick later wakers woken b (ok evs) e =
      let (lost, failures, path, same) =
        finish_react-Ends q evs timeout tick later _ wakers woken b in
      (
        lost,
        failures,
        Goes-trans (next here (returns now timeout tick wakers evs refl e), (tt, tt)) path,
        same,
      )
  waiting-Ends q r now timeout tick later wakers woken b (err interrupted) e =
      unfold finish_react in
      (
        q.lost,
        q.failures,
        (next here (fails now timeout tick wakers interrupted refl e), (tt, tt)),
        λ g. (refl, refl),
      )
  waiting-Ends q r now timeout tick later wakers woken b (err would_block) e =
      unfold finish_react in
      (
        q.lost,
        q.failures,
        (next here (fails now timeout tick wakers would_block refl e), (tt, tt)),
        λ g. (refl, refl),
      )
  waiting-Ends q r now timeout tick later wakers woken b (err other) e =
      unfold finish_react in
      (
        q.lost,
        q.failures,
        (next here (fails now timeout tick wakers other refl e), (tt, tt)),
        λ g. (refl, refl),
      )

  -- `ReactorLock::react`, called when no round is under way, is one round of the shared reactor in
  -- which no other thread takes a step, whether it returns `Ok` or an error: a step begins the
  -- round, and the steps of that round alone lead from there to the state and the wakers that
  -- `react` gives. The wait returns or fails; if it returns events, they are dispatched one by one
  -- until one fails, and if it returns none, the timers are processed again exactly if the timeout
  -- was not 0. If `react` returns `Ok`, then no source is lost and no failure counted.
  pub react-Reach :
      (s : System X) (timeout : Option ℕ) (now later : ℕ)
      → s.phase ≡ idle
      → Step X s (began X s timeout now)
        × (lost : List ℕ) × (failures : ℕ) × Goes (began X s timeout now) (record s {
          reactor = (react X s.reactor timeout now later).0;
          phase = idle;
          woken = s.woken ++ (react X s.reactor timeout now later).1;
          notified = false;
          lost = lost;
          failures = failures;
        })
        × ((react X s.reactor timeout now later).2 ≡ ok tt
            → (lost ≡ s.lost) × (failures ≡ s.failures))
  unfolding react
  react-Reach s timeout now later e =
      let b = begin_react X s.reactor timeout now in
      let (lost, failures, goes, same) =
        waiting-Ends s b.0 now b.2 b.3 later b.1 s.woken false _ refl in
      (begins timeout now e, lost, failures, goes, same)
