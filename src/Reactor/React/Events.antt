-- ===== src/Reactor/React/Events.antt =====
-- What one event does to its source.
use async_io.Base.{
  ℕ, ◌≡◌, refl, ◌≢◌, ◌∙◌, ap, inl, inr, Bool, true, false, not, ◌||◌, List, [], ◌∷◌, ◌++◌,
  append-nil, none, some, arith, Bool-cases, ErrorKind, ok, err,
}
use async_io.Timers.{Waker}
use async_io.External.Poller.{Event}
use async_io.Reactor.{Platform, Direction, Source, Reactor}
use async_io.Reactor.Directions.{is_empty, drain_into}
use async_io.Reactor.Directions.Laws.{waiting, drain_into_wakers, drain_into-is_empty}
use async_io.Reactor.Sources.{interest_event}
use async_io.Reactor.Sources.Cover.{modified_Covered, modified_Known, Covered, Known}
use async_io.Reactor.React.{emit, reregister_source, deliver, dispatch}

module _ (X : Platform) where
  unticked_waiting :
      (d : Direction X) (tick : ℕ) → waiting X (record d { tick = tick }) ≡ waiting X d
  unfolding waiting
  unticked_waiting d tick = refl

  -- An emitted direction has the new tick, is empty, and all who waited are to be woken, in order.
  drained_lem :
      (d : Direction X) (tick : ℕ) (wakers : List Waker)
      → ((drain_into X (record d { tick = tick }) wakers).0.tick ≡ tick)
        × (is_empty X (drain_into X (record d { tick = tick }) wakers).0 ≡ true)
        × ((drain_into X (record d { tick = tick }) wakers).1 ≡ wakers ++ waiting X d)
  drained_lem d tick wakers = (
    unfold drain_into in refl,
    drain_into-is_empty X _ wakers,
    drain_into_wakers X (record d { tick = tick }) wakers
        ∙ ap (◌++◌ wakers) (unticked_waiting d tick),
  )

  -- The directions and the wakers after one event, and before the re-registration.
  abbrev pub IsEmitted : Bool → Direction X → Direction X → ℕ → Type 0
  IsEmitted true d d' tick = (d'.tick ≡ tick) × (is_empty X d' ≡ true)
  IsEmitted false d d' tick = d' ≡ d

  abbrev pub woken_by : Bool → Direction X → List Waker
  woken_by true d = waiting X d
  woken_by false d = []

  -- One event for a source: each emitted direction is stamped with the tick and emptied, the other
  -- stays as it was; those who waited for an emitted direction, and no others, are added to the
  -- wakers, writers first; key and descriptor stay.
  pub deliver_lem :
      (ev : Event) (tick : ℕ) (s : Source X) (p : X.poller.Poller) (wakers : List Waker)
      → IsEmitted ev.readable s.reads (deliver X ev tick s p wakers).0.reads tick
        × IsEmitted ev.writable s.writes (deliver X ev tick s p wakers).0.writes tick
        × ((deliver X ev tick s p wakers).2
            ≡ (wakers ++ woken_by ev.writable s.writes) ++ woken_by ev.readable s.reads)
        × ((deliver X ev tick s p wakers).0.key ≡ s.key)
        × ((deliver X ev tick s p wakers).0.registration ≡ s.registration)
  unfolding deliver emit
  deliver_lem ev tick s p wakers = go ev.readable ev.writable
    where
      go :
          (r w : Bool)
          → let e : Event = record { key = ev.key; readable = r; writable = w } in
            IsEmitted r s.reads (deliver X e tick s p wakers).0.reads tick
            × IsEmitted w s.writes (deliver X e tick s p wakers).0.writes tick
            × ((deliver X e tick s p wakers).2
                ≡ (wakers ++ woken_by w s.writes) ++ woken_by r s.reads)
            × ((deliver X e tick s p wakers).0.key ≡ s.key)
            × ((deliver X e tick s p wakers).0.registration ≡ s.registration)
      go false false = (refl, refl, simp append-nil, refl, refl)
      go true false =
          let (t, e, w) = drained_lem s.reads tick wakers in
          ((t, e), refl, rw append-nil w, refl, refl)
      go false true =
          let (t, e, w) = drained_lem s.writes tick wakers in
          (refl, (t, e), rw append-nil w, refl, refl)
      go true true =
          let (t, e, w) = drained_lem s.writes tick wakers in
          let (t', e', w') =
            drained_lem s.reads tick (drain_into X (record s.writes { tick = tick }) wakers).1 in
          ((t', e'), (t, e), w' ∙ ap (λ (l : List Waker). l ++ waiting X s.reads) w, refl, refl)

  -- After the re-registration a source that the poller knows is covered.
  pub reregister-Covered :
      (s : Source X) (p : X.poller.Poller)
      → Known X s p
      → (reregister_source X s p).1 ≡ ok tt
      → Covered X s (reregister_source X s p).0
  unfolding reregister_source
  reregister-Covered s p k e =
      elim (Bool-cases (not (is_empty X s.reads) || not (is_empty X s.writes))) [
        | inl some_wait ↦
            rw (some_wait, reregister_source)
              (modified_Covered X s p (rw (some_wait, reregister_source) at e))
        | inr nobody ↦
            rw (nobody, reregister_source)
              (record {
                event = k.event;
                registered = k.registered;
                same_key = k.same_key;
                covers_reads = λ f. absurd (ground arith);
                covers_writes = λ _ f. absurd (ground arith);
              })
      ]

  pub reregister-Known :
      (s : Source X) (p : X.poller.Poller) → Known X s p → Known X s (reregister_source X s p).0
  unfolding reregister_source
  reregister-Known s p k =
      elim (Bool-cases (not (is_empty X s.reads) || not (is_empty X s.writes))) [
        | inl e ↦ rw (e, reregister_source) (modified_Known X s p k)
        | inr e ↦ rw (e, reregister_source) k
      ]

  pub reregister_ne :
      (s : Source X) (p : X.poller.Poller) (fd : X.poller.Registration)
      → s.registration ≢ fd
      → X.poller.interest (reregister_source X s p).0 fd ≡ X.poller.interest p fd
  unfolding reregister_source
  reregister_ne s p fd ne =
      elim (Bool-cases (not (is_empty X s.reads) || not (is_empty X s.writes))) [
        | inl e ↦
            rw (e, reregister_source)
              (X.poller.modify_ne s.registration p (interest_event X s) fd ne)
        | inr e ↦ rw (e, reregister_source) refl
      ]

  -- The three ways in which the loop goes on after an event.
  unfoldable pub after_event : Event → ℕ → Source X → Reactor X → List Waker → Reactor X
  after_event ev tick s r wakers = record r {
    poller = (deliver X ev tick s r.poller wakers).1;
    sources = X.slab.set r.sources ev.key (deliver X ev tick s r.poller wakers).0;
  }

  pub dispatch-none :
      (ev : Event) (evs : List Event) (tick : ℕ) (r : Reactor X) (wakers : List Waker)
      → X.slab.get r.sources ev.key ≡ none
      → dispatch X (ev ∷ evs) tick r wakers ≡ dispatch X evs tick r wakers
  unfolding dispatch
  dispatch-none ev evs tick r wakers e = rw (e, dispatch) refl

  pub dispatch_ok :
      (ev : Event) (evs : List Event) (tick : ℕ) (r : Reactor X) (wakers : List Waker)
      (s : Source X)
      → X.slab.get r.sources ev.key ≡ some s
      → (deliver X ev tick s r.poller wakers).3 ≡ ok tt
      → dispatch X (ev ∷ evs) tick r wakers
        ≡ dispatch X evs tick
            (after_event ev tick s r wakers)
            (deliver X ev tick s r.poller wakers).2
  unfolding dispatch after_event
  dispatch_ok ev evs tick r wakers s e good = rw (e, dispatch) (rw (good, dispatch) refl)

  pub dispatch_err :
      (ev : Event) (evs : List Event) (tick : ℕ) (r : Reactor X) (wakers : List Waker)
      (s : Source X) (k : ErrorKind)
      → X.slab.get r.sources ev.key ≡ some s
      → (deliver X ev tick s r.poller wakers).3 ≡ err k
      → dispatch X (ev ∷ evs) tick r wakers ≡ (after_event ev tick s r wakers, [], err k)
  unfolding dispatch after_event
  dispatch_err ev evs tick r wakers s k e bad = rw (e, dispatch) (rw (bad, dispatch) refl)
