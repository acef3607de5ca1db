-- ===== src/System/Sources.antt =====
-- In every interleaving, no source that somebody waits for is forgotten by the poller.
use async_io.Base.{
  ℕ, ◌≡◌, ◌≢◌, ◌⊎◌, refl, arith, ErrorKind, pending, ready, In, In-append_left, In-append_right,
  ◌++◌, ◌∙◌, sym, subst, inl, inr, List, [], ◌∷◌, none, some, Option-cases, IoResult, ok, err, Poll,
  Option,
}
use async_io.Timers.{Waker}
use async_io.Base.{some_injective}
use async_io.External.Poller.{Event}
use async_io.Reactor.{Platform, Source, Reactor, new_reactor, notify}
use async_io.Reactor.TimerQueue.Schedule.{HasRoom}
use async_io.Reactor.TimerQueue.Laws.{insert_timer_lem, remove_timer_lem}
use async_io.Reactor.Sources.{Ready}
use async_io.Reactor.Sources.Cover.{NotErr, IoResult-cases}
use async_io.Reactor.Io.Tracked.{
  Tracked, Tracked-mono, Tracked-transport, insert_io-Tracked, remove_io-Tracked,
  poll_source-Tracked, poll_ready_future-Tracked, drop_ready_future-Tracked,
}
use async_io.Reactor.Fire.Laws.{process_timers-Keeps}
use async_io.Reactor.React.Covered.{begin_react_keeps}
use async_io.Reactor.React.Ahead.{keys, wait-Tracked, dispatch_step, dispatch_lost, skip_step}
use async_io.Reactor.Io.{remove_io}
use async_io.Reactor.React.{dispatch, deliver}
use async_io.Reactor.React.Events.{dispatch-none, dispatch_ok, dispatch_err, after_event}
use async_io.System.{
  Phase, idle, waiting, firing, dispatching, after_wait, after_wait-no_events, System, initial,
  Step, polls, polls_future, drops_future, inserts_io, removes_io, inserts_timer, removes_timer,
  notifies, begins, returns, fails, dispatches, fires, ends, breaks, lost_by, without,
}

-- The events that the poller has delivered and the round has still to dispatch.
abbrev pub ahead : Phase → List Event
ahead idle = []
ahead (waiting now timeout tick wakers) = []
ahead (firing tick wakers) = []
ahead (dispatching evs tick wakers) = evs

ahead-after_wait :
    (evs : List Event) (timeout : Option ℕ) (tick : ℕ) (wakers : List Waker)
    → ahead (after_wait evs timeout tick wakers) ≡ evs
ahead-after_wait [] timeout tick wakers = elim (after_wait-no_events timeout tick wakers) [
  | inl e ↦ rw e refl
  | inr e ↦ rw e refl
]
ahead-after_wait (ev ∷ evs) timeout tick wakers = unfold after_wait in refl

module _ (X : Platform) where
  abbrev pub SourcesInv : System X → Type 0
  SourcesInv s = Tracked X (keys (ahead s.phase) ++ s.lost) s.reactor.sources s.reactor.poller

  -- The phase is known.
  phase_SourcesInv :
      (r : Reactor X) (lost : List ℕ) {ph ph' : Phase}
      → ph ≡ ph'
      → Tracked X (keys (ahead ph) ++ lost) r.sources r.poller
      → Tracked X (keys (ahead ph') ++ lost) r.sources r.poller
  phase_SourcesInv r lost e v =
      subst (λ (x : Phase). Tracked X (keys (ahead x) ++ lost) r.sources r.poller) e v

  -- Only the poller has changed, and it knows the interests as before.
  poller-Tracked :
      (evs : List ℕ) (sources : X.slab.Slab (Source X)) (p p' : X.poller.Poller)
      → ((reg : X.poller.Registration) → X.poller.interest p' reg ≡ X.poller.interest p reg)
      → Tracked X evs sources p
      → Tracked X evs sources p'
  poller-Tracked evs sources p p' same v key s f =
      Tracked-transport X s p p' (same s.registration) (v key s f)

  -- One event of the loop.
  dispatch_one :
      (ev : Event) (rest : List ℕ) (tick : ℕ) (r : Reactor X) (wakers : List Waker)
      → Tracked X (ev.key ∷ rest) r.sources r.poller
      → (dispatch X (ev ∷ []) tick r wakers).2 ≡ ok tt
      → Tracked X rest
          (dispatch X (ev ∷ []) tick r wakers).0.sources
          (dispatch X (ev ∷ []) tick r wakers).0.poller
  dispatch_one ev rest tick r wakers v good = elim (Option-cases (X.slab.get r.sources ev.key)) [
    | inl e ↦
        let eq = dispatch-none X ev [] tick r wakers e in
        rw eq (unfold dispatch in skip_step X ev rest r.sources r.poller e v)
    | inr (s, e) ↦ elim (IoResult-cases (deliver X ev tick s r.poller wakers).3) [
      | inl fine ↦
          let eq = dispatch_ok X ev [] tick r wakers s e fine in
          rw eq (
            unfold dispatch after_event in
            dispatch_step X ev rest tick r.sources r.poller wakers s e fine v)
      | inr (k, bad) ↦
          let eq = dispatch_err X ev [] tick r wakers s k e bad in
          let z : ◌≡◌ {A = IoResult (Unit {0})} (err k) (ok tt) = rw eq at good in absurd (cc)
    ]
  ]

  -- An event whose re-registration fails.
  dispatch_failed :
      (ev : Event) (rest : List ℕ) (tick : ℕ) (r : Reactor X) (wakers : List Waker) (x : ErrorKind)
      → Tracked X (ev.key ∷ rest) r.sources r.poller
      → (dispatch X (ev ∷ []) tick r wakers).2 ≡ err x
      → Tracked X
          (ev.key ∷ rest)
          (dispatch X (ev ∷ []) tick r wakers).0.sources
          (dispatch X (ev ∷ []) tick r wakers).0.poller
  dispatch_failed ev rest tick r wakers x v bad =
      elim (Option-cases (X.slab.get r.sources ev.key)) [
        | inl e ↦ rw (dispatch-none X ev [] tick r wakers e) (unfold dispatch in v)
        | inr (s, e) ↦ elim (IoResult-cases (deliver X ev tick s r.poller wakers).3) [
          | inl fine ↦
              let eq = dispatch_ok X ev [] tick r wakers s e fine in
              let z : ◌≡◌ {A = IoResult (Unit {0})} (ok tt) (err x) =
                unfold dispatch in (rw eq at bad) in
              absurd (cc)
          | inr (k, failed) ↦
              let eq = dispatch_err X ev [] tick r wakers s k e failed in
              rw eq
                (unfold after_event in dispatch_lost X ev rest tick r.sources r.poller wakers s e v)
        ]
      ]

  -- A poll that failed has made its key exempt; one that did not has kept the source covered.
  lost_by-NotErr :
      (res : Poll (IoResult (Unit {0}))) (key : ℕ) (ahead lost : List ℕ)
      → NotErr res ⊎ In key (ahead ++ lost_by res key lost)
  lost_by-NotErr (ready (err e)) key ahead lost =
      inr (In-append_right key ahead (key ∷ lost) (inl refl))
  lost_by-NotErr (ready (ok a)) key ahead lost = inl tt
  lost_by-NotErr pending key ahead lost = inl tt

  In-lost_by :
      (res : Poll (IoResult (Unit {0}))) (key : ℕ) (ahead lost : List ℕ) (j : ℕ)
      → In j (ahead ++ lost)
      → In j (ahead ++ lost_by res key lost)
  In-lost_by (ready (ok a)) key ahead lost j m = m
  In-lost_by pending key ahead lost j m = m
  In-lost_by (ready (err e)) key [] lost j m = inr m
  In-lost_by (ready (err e)) key (i ∷ ahead) lost j (inl m) = inl m
  In-lost_by (ready (err e)) key (i ∷ ahead) lost j (inr m) =
      inr (In-lost_by (ready (err e)) key ahead lost j m)

  In-without :
      (key : ℕ) (ahead lost : List ℕ) (j : ℕ)
      → key ≢ j
      → In j (ahead ++ lost)
      → In j (ahead ++ without key lost)
  In-without key [] [] j ne m = m
  In-without key [] (i ∷ lost) j ne m = ground (arith, In-without key [] lost j ne)
  In-without key (i ∷ ahead) lost j ne (inl m) = inl m
  In-without key (i ∷ ahead) lost j ne (inr m) = inr (In-without key ahead lost j ne m)

  -- A source that is removed is exempt no more, whatever stands under its key later.
  removed_Tracked :
      (s : System X) (src : Source X)
      → X.slab.get s.reactor.sources src.key ≡ some src
      → SourcesInv s
      → Tracked X
          (keys (ahead s.phase) ++ without src.key s.lost)
          (remove_io X s.reactor src).1.sources
          (remove_io X s.reactor src).1.poller
  unfolding remove_io
  removed_Tracked s src e v j t f =
      let occupied : X.slab.get s.reactor.sources src.key ≢ none = λ z. ground arith in
      let gone = X.slab.get-remove s.reactor.sources src.key j occupied in
      let ne : src.key ≢ j = λ z. absurd (ground arith) in
      let old = remove_io-Tracked X (keys (ahead s.phase) ++ s.lost) s.reactor src e v j t f in
      (old.0, old.1, exempt ne old.2)
    where
      exempt :
          {A : Type 0}
          → src.key ≢ j
          → A ⊎ In j (keys (ahead s.phase) ++ s.lost)
          → A ⊎ In j (keys (ahead s.phase) ++ without src.key s.lost)
      exempt ne (inl c) = inl c
      exempt ne (inr m) = inr (In-without src.key (keys (ahead s.phase)) s.lost j ne m)

  pub Step-SourcesInv :
      {s t : System X} → HasRoom X s.reactor → Step X s t → SourcesInv s → SourcesInv t
  Step-SourcesInv {s} room (polls key dir k src out e f) v =
      let more =
        Tracked-mono X _ _ s.reactor.sources s.reactor.poller
          (In-lost_by out.0 key (keys (ahead s.phase)) s.lost) v in
      let (out', f', kept) = poll_source-Tracked X _ s.reactor key dir k src e more in
      subst
        (λ (o : Poll (IoResult (Unit {0})) × Reactor X × List Waker).
          NotErr o.0 ⊎ In key (keys (ahead s.phase) ++ lost_by out.0 key s.lost)
          → Tracked X (keys (ahead s.phase) ++ lost_by out.0 key s.lost) o.1.sources o.1.poller)
        (some_injective (sym f' ∙ f)) kept (lost_by-NotErr out.0 key (keys (ahead s.phase)) s.lost)
  Step-SourcesInv {s} room (polls_future key f k src out e g) v =
      let more =
        Tracked-mono X _ _ s.reactor.sources s.reactor.poller
          (In-lost_by out.0 key (keys (ahead s.phase)) s.lost) v in
      let (out', g', kept) = poll_ready_future-Tracked X _ s.reactor key f k src e more in
      subst
        (λ (o : Poll (IoResult (Unit {0})) × Ready × Reactor X).
          NotErr o.0 ⊎ In key (keys (ahead s.phase) ++ lost_by out.0 key s.lost)
          → Tracked X (keys (ahead s.phase) ++ lost_by out.0 key s.lost) o.2.sources o.2.poller)
        (some_injective (sym g' ∙ g)) kept (lost_by-NotErr out.0 key (keys (ahead s.phase)) s.lost)
  Step-SourcesInv {s} room (drops_future key f src r e g) v =
      let (r', g', kept) = drop_ready_future-Tracked X _ s.reactor key f src e v in
      subst (λ (o : Reactor X). Tracked X (keys (ahead s.phase) ++ s.lost) o.sources o.poller)
        (some_injective (sym g' ∙ g)) kept
  Step-SourcesInv {s} room (inserts_io raw) v = insert_io-Tracked X _ s.reactor raw v
  Step-SourcesInv {s} room (removes_io src e) v = removed_Tracked s src e v
  Step-SourcesInv {s} room (inserts_timer when k) v =
      let kept = insert_timer_lem X s.reactor when k room in
      rw (kept.4, kept.6)
        (poller-Tracked _ s.reactor.sources s.reactor.poller _
          (X.poller.interest-notify s.reactor.poller) v)
  Step-SourcesInv {s} room (removes_timer when id) v =
      let kept = (remove_timer_lem X s.reactor when id room).1 in rw (kept.sources, kept.poller) v
  Step-SourcesInv {s} room notifies v =
      unfold notify in
      poller-Tracked _ s.reactor.sources s.reactor.poller _
        (X.poller.interest-notify s.reactor.poller) v
  Step-SourcesInv {s} room (begins timeout now e) v =
      let kept = begin_react_keeps X s.reactor timeout now in
      rw (kept.0, kept.1) (phase_SourcesInv s.reactor s.lost e v)
  Step-SourcesInv {s} room (returns now timeout tick wakers evs e f) v =
      rw (ahead-after_wait evs timeout tick wakers) (
        wait-Tracked X s.lost (keys evs ++ s.lost) s.reactor.sources s.reactor.poller timeout evs f
          (λ j m. In-append_right j (keys evs) s.lost m)
          (λ j m. In-append_left j (keys evs) s.lost m) (phase_SourcesInv s.reactor s.lost e v))
  Step-SourcesInv {s} room (fails now timeout tick wakers x e f) v =
      poller-Tracked s.lost s.reactor.sources s.reactor.poller _
        (λ reg. X.poller.wait_err s.reactor.poller timeout x reg f)
        (phase_SourcesInv s.reactor s.lost e v)
  Step-SourcesInv {s} room (dispatches ev evs tick wakers e f) v =
      dispatch_one ev (keys evs ++ s.lost) tick s.reactor wakers
        (phase_SourcesInv s.reactor s.lost e v) f
  Step-SourcesInv {s} room (breaks ev evs tick wakers x e f) v =
      dispatch_failed ev (keys evs ++ s.lost) tick s.reactor wakers x
        (phase_SourcesInv s.reactor s.lost e v) f
  Step-SourcesInv {s} room (fires later tick wakers e) v =
      let kept = process_timers-Keeps X s.reactor wakers later in
      rw (kept.sources, kept.poller) (phase_SourcesInv s.reactor s.lost e v)
  Step-SourcesInv {s} room (ends tick wakers e) v = phase_SourcesInv s.reactor s.lost e v

  pub start-SourcesInv : (p : X.poller.Poller) → SourcesInv (initial X p)
  unfolding new_reactor
  start-SourcesInv p key src e = absurd (no_source (sym (X.slab.get-new (Source X) key) ∙ e))
    where
      no_source : {src : Source X} → none ≡ some src → ⊥
      no_source f = cc
