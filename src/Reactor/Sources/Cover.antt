-- ===== src/Reactor/Sources/Cover.antt =====
-- What the poller must know of a source: that it is registered, and for what.
use async_io.Base.{
  ◌≡◌, refl, ◌≢◌, ◌∙◌, sym, ◌⊎◌, inl, inr, true, false, not, ap, some, arith, ErrorKind, IoResult,
  ok, err, Poll, pending, ready,
}
use async_io.External.Poller.{Event}
use async_io.Reactor.{Platform, Source}
use async_io.Reactor.Directions.{is_empty}
use async_io.Reactor.Sources.{interest_event}

-- The poll did not return an error.
abbrev pub NotErr : Poll (IoResult (Unit {0})) → Type 0
NotErr (ready (err e)) = ⊥
NotErr pending = Unit {0}
NotErr (ready (ok a)) = Unit {0}

pub IoResult-cases : (x : IoResult (Unit {0})) → (x ≡ ok tt) ⊎ ((e : ErrorKind) × (x ≡ err e))
IoResult-cases (ok tt) = inl refl
IoResult-cases (err e) = inr (e, refl)

module _ (X : Platform) where
  pub record Covered (s : Source X) (p : X.poller.Poller) : Type 0 where
    pub event : Event
    pub registered : X.poller.interest p s.registration ≡ some event
    pub same_key : event.key ≡ s.key
    pub covers_reads : is_empty X s.reads ≡ false → event.readable ≡ true
    pub covers_writes :
        X.poller.can_write s.registration ≡ true
        → is_empty X s.writes ≡ false
        → event.writable ≡ true

  -- The source stands in the poller under its key, with whatever interest.
  pub record Known (s : Source X) (p : X.poller.Poller) : Type 0 where
    pub event : Event
    pub registered : X.poller.interest p s.registration ≡ some event
    pub same_key : event.key ≡ s.key

  -- A modified interest covers what it was made from.
  pub modified_Covered :
      (s : Source X) (p : X.poller.Poller)
      → (X.poller.modify s.registration p (interest_event X s)).1 ≡ ok tt
      → Covered s (X.poller.modify s.registration p (interest_event X s)).0
  unfolding interest_event
  modified_Covered s p e =
      let (now, at, key, reads, writes) =
        X.poller.modify_ok s.registration p (interest_event X s) e in
      record {
        event = now;
        registered = at;
        same_key = key;
        covers_reads = λ f. reads (ap not f);
        covers_writes = λ can f. writes can (ap not f);
      }

  pub Covered-transport :
      (s : Source X) (p p' : X.poller.Poller)
      → X.poller.interest p' s.registration ≡ X.poller.interest p s.registration
      → Covered s p
      → Covered s p'
  Covered-transport s p p' e c = record {
    event = c.event;
    registered = e ∙ c.registered;
    same_key = c.same_key;
    covers_reads = c.covers_reads;
    covers_writes = c.covers_writes;
  }

  pub Known-transport :
      (s : Source X) (p p' : X.poller.Poller)
      → X.poller.interest p' s.registration ≡ X.poller.interest p s.registration
      → Known s p
      → Known s p'
  Known-transport s p p' e k = record {
    event = k.event;
    registered = e ∙ k.registered;
    same_key = k.same_key;
  }

  pub Covered-Known : (s : Source X) (p : X.poller.Poller) → Covered s p → Known s p
  Covered-Known s p c = record { event = c.event; registered = c.registered; same_key = c.same_key }

  -- A source that is known stays known when its interest is modified, also if that fails.
  pub modified_Known :
      (s : Source X) (p : X.poller.Poller)
      → Known s p
      → Known s (X.poller.modify s.registration p (interest_event X s)).0
  unfolding interest_event
  modified_Known s p k =
      elim (IoResult-cases (X.poller.modify s.registration p (interest_event X s)).1) [
        | inl e ↦ Covered-Known s _ (modified_Covered s p e)
        | inr (x, e) ↦
            let (now, at, key) =
              X.poller.modify_err s.registration p (interest_event X s) x k.event k.registered e in
            record {
              event = now;
              registered = at;
              same_key = elim key [ inl old ↦ old ∙ k.same_key | inr new ↦ new ];
            }
      ]

  pub Known-key :
      (s t : Source X) (p : X.poller.Poller)
      → Known s p
      → Known t p
      → s.key ≢ t.key
      → s.registration ≢ t.registration
  Known-key s t p c d ne e =
      let same : some c.event ≡ some d.event =
        sym c.registered ∙ ap (X.poller.interest p) e ∙ d.registered in
      ne (sym c.same_key ∙ ground arith)
