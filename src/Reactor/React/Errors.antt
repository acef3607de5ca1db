-- ===== src/Reactor/React/Errors.antt =====
-- What a round of the reactor does when it returns an error.
use async_io.Base.{
  ℕ, ◌≡◌, refl, ◌∙◌, ◌≤◌, ap, inl, inr, List, [], ◌∷◌, Option, none, some, arith, Option-cases,
  ErrorKind, ok, err,
}
use async_io.Timers.{Waker, lookup}
use async_io.External.Poller.{Event}
use async_io.Reactor.{Platform, Reactor}
use async_io.Reactor.TimerQueue.Schedule.{scheduled}
use async_io.Reactor.Sources.Cover.{IoResult-cases}
use async_io.Reactor.Fire.Laws.{process_timers-lookup}
use async_io.Reactor.React.{deliver, dispatch, begin_react, finish_react, react}
use async_io.Reactor.React.Events.{after_event, dispatch-none, dispatch_ok, dispatch_err}
use async_io.Reactor.React.Wakes.{waited, wait_result, react_eq}

module _ (X : Platform) where
  dispatch_error :
      (evs : List Event) (tick : ℕ) (r : Reactor X) (wakers : List Waker) (k : ErrorKind)
      → (dispatch X evs tick r wakers).2 ≡ err k
      → (dispatch X evs tick r wakers).1 ≡ []
  dispatch_error [] tick r wakers k bad = absurd (unfold dispatch in cc)
  dispatch_error (ev ∷ evs) tick r wakers k bad =
      elim (Option-cases (X.slab.get r.sources ev.key)) [
        | inl e ↦
            let eq = dispatch-none X ev evs tick r wakers e in
            rw eq (dispatch_error evs tick r wakers k (rw eq at bad))
        | inr (s, e) ↦ elim (IoResult-cases (deliver X ev tick s r.poller wakers).3) [
          | inl fine ↦
              let eq = dispatch_ok X ev evs tick r wakers s e fine in
              rw eq (
                dispatch_error evs tick (after_event X ev tick s r wakers)
                  (deliver X ev tick s r.poller wakers).2 k (rw eq at bad))
          | inr (j, f) ↦ rw (dispatch_err X ev evs tick r wakers s j e f) refl
        ]
      ]

  dispatch_timers :
      (evs : List Event) (tick : ℕ) (r : Reactor X) (wakers : List Waker)
      → scheduled X (dispatch X evs tick r wakers).0 ≡ scheduled X r
  dispatch_timers [] tick r wakers = unfold dispatch in refl
  dispatch_timers (ev ∷ evs) tick r wakers = elim (Option-cases (X.slab.get r.sources ev.key)) [
    | inl e ↦ rw (dispatch-none X ev evs tick r wakers e) (dispatch_timers evs tick r wakers)
    | inr (s, e) ↦ elim (IoResult-cases (deliver X ev tick s r.poller wakers).3) [
      | inl fine ↦ rw (dispatch_ok X ev evs tick r wakers s e fine) (
          dispatch_timers evs tick (after_event X ev tick s r wakers)
            (deliver X ev tick s r.poller wakers).2
          ∙ unfold scheduled after_event in refl)
      | inr (j, f) ↦
          rw (dispatch_err X ev evs tick r wakers s j e f) (unfold scheduled after_event in refl)
    ]
  ]

  finish_react_error :
      (evs : List Event) (timeout : Option ℕ) (tick later : ℕ) (r : Reactor X) (wakers : List Waker)
      (k : ErrorKind)
      → (finish_react X (ok evs) timeout tick later r wakers).2 ≡ err k
      → ((finish_react X (ok evs) timeout tick later r wakers).1 ≡ [])
        × (scheduled X (finish_react X (ok evs) timeout tick later r wakers).0 ≡ scheduled X r)
  unfolding finish_react
  finish_react_error [] timeout tick later r wakers k bad = absurd (ground arith)
  finish_react_error (ev ∷ evs) timeout tick later r wakers k bad =
      (dispatch_error (ev ∷ evs) tick r wakers k bad, dispatch_timers (ev ∷ evs) tick r wakers)

  due_gone :
      (r : Reactor X) (timeout : Option ℕ) (now when id : ℕ) (w : Waker)
      → lookup when id (scheduled X r) ≡ some w
      → when ≤ now
      → lookup when id (scheduled X (waited X r timeout now)) ≡ none
  unfolding begin_react scheduled
  due_gone r timeout now when id w e h = ((process_timers-lookup X r [] now when id w e).0 h).1

  -- If the poller reported events and the round returns an error, which only a failing
  -- re-registration can cause then, the round wakes nobody, although a timer that was due is no
  -- longer scheduled: its task is not woken later either.
  pub react_error_forgets :
      (r : Reactor X) (timeout : Option ℕ) (now later when id : ℕ) (w : Waker) (evs : List Event)
      (k : ErrorKind)
      → lookup when id (scheduled X r) ≡ some w
      → when ≤ now
      → wait_result X r timeout now ≡ ok evs
      → (react X r timeout now later).2 ≡ err k
      → ((react X r timeout now later).1 ≡ [])
        × (lookup when id (scheduled X (react X r timeout now later).0) ≡ none)
  react_error_forgets r timeout now later when id w evs k e h res bad =
      let eq = react_eq X r timeout now later (ok evs) res in
      let b = begin_react X r timeout now in
      let (nobody, same) =
        finish_react_error evs b.2 b.3 later (waited X r timeout now) b.1 k (rw eq at bad) in
      rw eq (nobody, ap (lookup when id) same ∙ due_gone r timeout now when id w e h)
