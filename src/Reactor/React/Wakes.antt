-- ===== src/Reactor/React/Wakes.antt =====
-- Whom a round of the reactor wakes.
use async_io.Base.{
  ℕ, ◌≡◌, refl, ◌∙◌, ◌≤◌, ap, subst, ◌⊎◌, inl, inr, true, List, [], ◌∷◌, Option, none, some, In,
  In-append_left, arith, Bool-cases, Option-cases, interrupted, would_block, other, IoResult, ok,
  err, ◌==◌, ==_iff,
}
use async_io.Timers.{Waker, lookup}
use async_io.External.Poller.{Event}
use async_io.Reactor.{Platform, Dir, Source, Reactor}
use async_io.Reactor.TimerQueue.Schedule.{scheduled}
use async_io.Reactor.Sources.{direction}
use async_io.Reactor.Directions.Laws.{waiting}
use async_io.Reactor.Sources.Cover.{IoResult-cases}
use async_io.Reactor.Fire.Laws.{process_timers-lookup, process_timers_wakers}
use async_io.Reactor.React.{deliver, dispatch, begin_react, finish_react, react, is_nonzero}
use async_io.Reactor.React.Covered.{begin_react_keeps}
use async_io.Reactor.React.Events.{after_event, dispatch-none, dispatch_ok, dispatch_err}
use async_io.Reactor.React.Delivery.{emits, WaitsAt, deliver_wakes, deliver_keeps, deliver_waits}

module _ (X : Platform) where
  -- After an event the task waits as before, or is among those to wake.
  step_waits :
      (ev : Event) (tick : ℕ) (sources : X.slab.Slab (Source X)) (p : X.poller.Poller)
      (wakers : List Waker) (s : Source X) (key : ℕ) (dir : Dir) (w : Waker)
      → X.slab.get sources ev.key ≡ some s
      → WaitsAt X sources key dir w
      → WaitsAt X (X.slab.set sources ev.key (deliver X ev tick s p wakers).0) key dir w
        ⊎ In w (deliver X ev tick s p wakers).2
  step_waits ev tick sources p wakers s key dir w e (t, f, m) =
      let set_at =
        X.slab.get-set sources ev.key (deliver X ev tick s p wakers).0 key (λ z. ground arith) in
      elim (Bool-cases (ev.key == key)) [
        | inr apart ↦ inl (t, set_at ∙ ground arith, m)
        | inl same ↦
            let eq : t ≡ s = ground (arith, ap (X.slab.get sources) ((==_iff ev.key key).0 same)) in
            let m' = subst (λ (x : Source X). In w (waiting X (direction X dir x))) eq m in
            elim (Bool-cases (emits dir ev)) [
              | inl yes_dir ↦ inr (deliver_wakes X ev tick s p wakers dir w yes_dir m')
              | inr no_dir ↦ inl (
                (deliver X ev tick s p wakers).0,
                set_at ∙ ground arith,
                deliver_waits X ev tick s p wakers dir w no_dir m',
              )
            ]
      ]

  pub dispatch_keeps :
      (evs : List Event) (tick : ℕ) (r : Reactor X) (wakers : List Waker) (w : Waker)
      → (dispatch X evs tick r wakers).2 ≡ ok tt
      → In w wakers
      → In w (dispatch X evs tick r wakers).1
  dispatch_keeps [] tick r wakers w good h = unfold dispatch in h
  dispatch_keeps (ev ∷ evs) tick r wakers w good h =
      elim (Option-cases (X.slab.get r.sources ev.key)) [
        | inl e ↦
            let eq = dispatch-none X ev evs tick r wakers e in
            rw eq (dispatch_keeps evs tick r wakers w (rw eq at good) h)
        | inr (s, e) ↦ elim (IoResult-cases (deliver X ev tick s r.poller wakers).3) [
          | inl fine ↦
              let eq = dispatch_ok X ev evs tick r wakers s e fine in
              rw eq (
                dispatch_keeps evs tick _ _ w (rw eq at good)
                  (deliver_keeps X ev tick s r.poller wakers w h))
          | inr (k, bad) ↦
              let eq = dispatch_err X ev evs tick r wakers s k e bad in
              let z : ◌≡◌ {A = IoResult (Unit {0})} (err k) (ok tt) = rw eq at good in absurd (cc)
        ]
      ]

  -- Some event of the list is for the key and reports the direction.
  abbrev pub Reported : List Event → ℕ → Dir → Type 0
  Reported [] key dir = ⊥
  Reported (ev ∷ evs) key dir = ((ev.key ≡ key) × (emits dir ev ≡ true)) ⊎ Reported evs key dir

  step-Reported :
      (ev : Event) (evs : List Event) (tick : ℕ) (sources : X.slab.Slab (Source X))
      (p : X.poller.Poller) (wakers : List Waker) (s : Source X) (key : ℕ) (dir : Dir) (w : Waker)
      → X.slab.get sources ev.key ≡ some s
      → WaitsAt X sources key dir w
      → Reported (ev ∷ evs) key dir
      → (WaitsAt X (X.slab.set sources ev.key (deliver X ev tick s p wakers).0) key dir w
          × Reported evs key dir)
        ⊎ In w (deliver X ev tick s p wakers).2
  step-Reported ev evs tick sources p wakers s key dir w e (t, f, m) (inl (k, em)) =
      let eq : t ≡ s = ground (arith, ap (X.slab.get sources) k) in
      inr (
        deliver_wakes X ev tick s p wakers dir w em
          (subst (λ (x : Source X). In w (waiting X (direction X dir x))) eq m))
  step-Reported ev evs tick sources p wakers s key dir w e h (inr m) =
      elim (step_waits ev tick sources p wakers s key dir w e h) [
        | inl h' ↦ inl (h', m)
        | inr woken ↦ inr woken
      ]

  -- If the loop runs to its end, every task that waits for a reported direction is woken.
  pub dispatch_wakes :
      (evs : List Event) (tick : ℕ) (r : Reactor X) (wakers : List Waker) (key : ℕ) (dir : Dir)
      (w : Waker)
      → (dispatch X evs tick r wakers).2 ≡ ok tt
      → WaitsAt X r.sources key dir w
      → Reported evs key dir
      → In w (dispatch X evs tick r wakers).1
  dispatch_wakes [] tick r wakers key dir w good h rep = elim rep [ ]
  dispatch_wakes (ev ∷ evs) tick r wakers key dir w good h rep =
      elim (Option-cases (X.slab.get r.sources ev.key)) [
        | inl e ↦
            let eq = dispatch-none X ev evs tick r wakers e in
            rw eq (dispatch_wakes evs tick r wakers key dir w (rw eq at good) h (elsewhere e rep))
        | inr (s, e) ↦ elim (IoResult-cases (deliver X ev tick s r.poller wakers).3) [
          | inl fine ↦
              let eq = dispatch_ok X ev evs tick r wakers s e fine in
              let good' = rw eq at good in
              rw eq
                (elim (step-Reported ev evs tick r.sources r.poller wakers s key dir w e h rep) [
                  | inl (h', m) ↦
                      dispatch_wakes evs tick (after_event X ev tick s r wakers)
                        (deliver X ev tick s r.poller wakers).2 key dir w good'
                        (unfold after_event in h') m
                  | inr woken ↦
                      dispatch_keeps evs tick (after_event X ev tick s r wakers)
                        (deliver X ev tick s r.poller wakers).2 w good' woken
                ])
          | inr (k, bad) ↦
              let eq = dispatch_err X ev evs tick r wakers s k e bad in
              let z : ◌≡◌ {A = IoResult (Unit {0})} (err k) (ok tt) = rw eq at good in absurd (cc)
        ]
      ]
    where
      elsewhere :
          X.slab.get r.sources ev.key ≡ none → Reported (ev ∷ evs) key dir → Reported evs key dir
      elsewhere e (inl (k, _)) = absurd (ground (arith, h.1, ap (X.slab.get r.sources) k))
      elsewhere e (inr m) = m

  -- The wakers that `finish_react` was given are woken if it returns `Ok`.
  finish_react_keeps :
      (res : IoResult (List Event)) (timeout : Option ℕ) (tick later : ℕ) (r : Reactor X)
      (wakers : List Waker) (w : Waker)
      → (finish_react X res timeout tick later r wakers).2 ≡ ok tt
      → In w wakers
      → In w (finish_react X res timeout tick later r wakers).1
  unfolding finish_react
  finish_react_keeps (ok []) timeout tick later r wakers w good h =
      elim (Bool-cases (is_nonzero timeout)) [
        | inl e ↦
            rw (e, finish_react, process_timers_wakers X r wakers later)
              (In-append_left w wakers _ h)
        | inr e ↦ rw (e, finish_react) h
      ]
  finish_react_keeps (ok (ev ∷ evs)) timeout tick later r wakers w good h =
      dispatch_keeps (ev ∷ evs) tick r wakers w good h
  finish_react_keeps (err interrupted) timeout tick later r wakers w good h = h
  finish_react_keeps (err would_block) timeout tick later r wakers w good h = absurd (cc)
  finish_react_keeps (err other) timeout tick later r wakers w good h = absurd (cc)

  -- The state in which `wait` returns.
  abbrev pub waited : Reactor X → Option ℕ → ℕ → Reactor X
  waited r timeout now =
      let b = begin_react X r timeout now in
      record b.0 { poller = (X.poller.wait b.0.poller b.2).0 }

  -- What `wait` returns.
  abbrev pub wait_result : Reactor X → Option ℕ → ℕ → IoResult (List Event)
  wait_result r timeout now =
      let b = begin_react X r timeout now in (X.poller.wait b.0.poller b.2).1

  pub react_eq :
      (r : Reactor X) (timeout : Option ℕ) (now later : ℕ) (res : IoResult (List Event))
      → wait_result r timeout now ≡ res
      → react X r timeout now later
        ≡ finish_react X res
            (begin_react X r timeout now).2
            (begin_react X r timeout now).3
            later
            (waited r timeout now)
            (begin_react X r timeout now).1
  unfolding react
  react_eq r timeout now later res e =
      ap
        (λ (x : IoResult (List Event)).
          finish_react X x (begin_react X r timeout now).2 (begin_react X r timeout now).3 later
            (waited r timeout now) (begin_react X r timeout now).1)
        e

  due_collected :
      (r : Reactor X) (timeout : Option ℕ) (now when id : ℕ) (w : Waker)
      → lookup when id (scheduled X r) ≡ some w
      → when ≤ now
      → In w (begin_react X r timeout now).1
  unfolding begin_react
  due_collected r timeout now when id w e h = ((process_timers-lookup X r [] now when id w e).0 h).0

  -- A round that returns `Ok` wakes the task of every scheduled timer that is due when the round
  -- begins, whatever the poller reports.
  pub react_wakes_timer :
      (r : Reactor X) (timeout : Option ℕ) (now later when id : ℕ) (w : Waker)
      → lookup when id (scheduled X r) ≡ some w
      → when ≤ now
      → (react X r timeout now later).2 ≡ ok tt
      → In w (react X r timeout now later).1
  react_wakes_timer r timeout now later when id w e h good =
      let eq = react_eq r timeout now later (wait_result r timeout now) refl in
      rw eq (
        finish_react_keeps (wait_result r timeout now) (begin_react X r timeout now).2
          (begin_react X r timeout now).3 later (waited r timeout now)
          (begin_react X r timeout now).1 w (rw eq at good)
          (due_collected r timeout now when id w e h))

  finish_react_wakes :
      (evs : List Event) (timeout : Option ℕ) (tick later : ℕ) (r : Reactor X) (wakers : List Waker)
      (key : ℕ) (dir : Dir) (w : Waker)
      → (finish_react X (ok evs) timeout tick later r wakers).2 ≡ ok tt
      → WaitsAt X r.sources key dir w
      → Reported evs key dir
      → In w (finish_react X (ok evs) timeout tick later r wakers).1
  unfolding finish_react
  finish_react_wakes [] timeout tick later r wakers key dir w good h rep = elim rep [ ]
  finish_react_wakes (ev ∷ evs) timeout tick later r wakers key dir w good h rep =
      dispatch_wakes (ev ∷ evs) tick r wakers key dir w good h rep

  -- A round that returns `Ok` wakes every task that waited, when the round began, for a direction
  -- of a source for which the poller reports that direction.
  pub react_wakes_io :
      (r : Reactor X) (timeout : Option ℕ) (now later : ℕ) (evs : List Event) (key : ℕ) (dir : Dir)
      (w : Waker)
      → wait_result r timeout now ≡ ok evs
      → Reported evs key dir
      → WaitsAt X r.sources key dir w
      → (react X r timeout now later).2 ≡ ok tt
      → In w (react X r timeout now later).1
  react_wakes_io r timeout now later evs key dir w e rep h good =
      let eq = react_eq r timeout now later (ok evs) e in
      rw eq (
        finish_react_wakes evs (begin_react X r timeout now).2 (begin_react X r timeout now).3 later
          (waited r timeout now) (begin_react X r timeout now).1 key dir w (rw eq at good)
          (rw (begin_react_keeps X r timeout now).0 h) rep)
