-- ===== src/Reactor/Sources/Interest.antt =====
-- The interest registered in the poller covers every direction of a source that somebody waits for.
use async_io.Base.{◌≡◌, refl, ◌≢◌, subst, inl, inr, Bool, true, false, Bool-cases, IoResult}
use async_io.Reactor.{Platform, Dir, read, write, Direction, Source}
use async_io.Reactor.Directions.{is_empty}
use async_io.Reactor.Sources.Cover.{
  NotErr, IoResult-cases, Covered, Known, modified_Covered, modified_Known,
}
use async_io.Reactor.Sources.{direction, set_direction, settled, interest_event, update_interest}

module _ (X : Platform) where
  -- What an operation on a source may do: it keeps the source's identity and touches the interest
  -- of no other descriptor.
  pub record Keeps (s s' : Source X) (p p' : X.poller.Poller) : Type 0 where
    pub registration : s'.registration ≡ s.registration
    pub key : s'.key ≡ s.key
    pub others :
        (fd : X.poller.Registration)
        → s.registration ≢ fd
        → X.poller.interest p' fd ≡ X.poller.interest p fd

  update_interest_ne :
      (b : Bool) (s : Source X) (p : X.poller.Poller) (fd : X.poller.Registration)
      → s.registration ≢ fd
      → X.poller.interest (update_interest X b s p).1 fd ≡ X.poller.interest p fd
  unfolding update_interest
  update_interest_ne false s p fd ne = refl
  update_interest_ne true s p fd ne = X.poller.modify_ne s.registration p (interest_event X s) fd ne

  update_Covered :
      (s : Source X) (p : X.poller.Poller)
      → NotErr (update_interest X true s p).0
      → Covered X s (update_interest X true s p).1
  unfolding update_interest
  update_Covered s p h =
      elim (IoResult-cases (X.poller.modify s.registration p (interest_event X s)).1) [
        | inl e ↦ modified_Covered X s p e
        | inr (e, f) ↦ absurd (subst (λ (x : IoResult (Unit {0})). NotErr (settled x)) f h)
      ]

  -- Where the direction was not empty, the interest that is registered serves the change.
  stays_Covered :
      (dir : Dir) (s : Source X) (d : Direction X) (p : X.poller.Poller)
      → Covered X s p
      → is_empty X (direction X dir s) ≡ false
      → Covered X (set_direction X dir d s) (update_interest X false (set_direction X dir d s) p).1
  unfolding update_interest
  stays_Covered read s d p c e = record {
    event = c.event;
    registered = c.registered;
    same_key = c.same_key;
    covers_reads = λ _. c.covers_reads e;
    covers_writes = c.covers_writes;
  }
  stays_Covered write s d p c e = record {
    event = c.event;
    registered = c.registered;
    same_key = c.same_key;
    covers_reads = c.covers_reads;
    covers_writes = λ can _. c.covers_writes can e;
  }

  pub update_interest-Covered :
      (dir : Dir) (s : Source X) (d : Direction X) (p : X.poller.Poller)
      → Covered X s p
      → NotErr (update_interest X (is_empty X (direction X dir s)) (set_direction X dir d s) p).0
      → Covered X
          (set_direction X dir d s)
          (update_interest X (is_empty X (direction X dir s)) (set_direction X dir d s) p).1
  update_interest-Covered dir s d p c h = elim (Bool-cases (is_empty X (direction X dir s))) [
    | inl e ↦ rw e (update_Covered (set_direction X dir d s) p (rw e at h))
    | inr e ↦ rw e (stays_Covered dir s d p c e)
  ]

  -- A change that leaves a direction no fuller needs no new interest.
  pub less_Covered :
      (dir : Dir) (s : Source X) (d : Direction X) (p : X.poller.Poller)
      → Covered X s p
      → (is_empty X d ≡ false → is_empty X (direction X dir s) ≡ false)
      → Covered X (set_direction X dir d s) p
  less_Covered read s d p c h = record {
    event = c.event;
    registered = c.registered;
    same_key = c.same_key;
    covers_reads = λ e. c.covers_reads (h e);
    covers_writes = c.covers_writes;
  }
  less_Covered write s d p c h = record {
    event = c.event;
    registered = c.registered;
    same_key = c.same_key;
    covers_reads = c.covers_reads;
    covers_writes = λ can e. c.covers_writes can (h e);
  }

  pub set_direction-Keeps :
      (dir : Dir) (s : Source X) (d : Direction X) (p p' : X.poller.Poller)
      → ((fd : X.poller.Registration)
          → s.registration ≢ fd
          → X.poller.interest p' fd ≡ X.poller.interest p fd)
      → Keeps s (set_direction X dir d s) p p'
  set_direction-Keeps read s d p p' h = record { registration = refl; key = refl; others = h }
  set_direction-Keeps write s d p p' h = record { registration = refl; key = refl; others = h }

  pub update_interest-Keeps :
      (b : Bool) (dir : Dir) (s : Source X) (d : Direction X) (p : X.poller.Poller)
      → Keeps s (set_direction X dir d s) p (update_interest X b (set_direction X dir d s) p).1
  update_interest-Keeps b dir s d p =
      set_direction-Keeps dir s d p _
        λ fd ne. update_interest_ne b (set_direction X dir d s) p fd (same_registration dir ne)
    where
      same_registration :
          {fd : X.poller.Registration} (u : Dir)
          → s.registration ≢ fd
          → (set_direction X u d s).registration ≢ fd
      same_registration read ne = ne
      same_registration write ne = ne

  pub set_direction-Known :
      (dir : Dir) (s : Source X) (d : Direction X) (p : X.poller.Poller)
      → Known X s p
      → Known X (set_direction X dir d s) p
  set_direction-Known read s d p k = record {
    event = k.event;
    registered = k.registered;
    same_key = k.same_key;
  }
  set_direction-Known write s d p k = record {
    event = k.event;
    registered = k.registered;
    same_key = k.same_key;
  }

  pub update_interest-Known :
      (b : Bool) (dir : Dir) (s : Source X) (d : Direction X) (p : X.poller.Poller)
      → Known X s p
      → Known X (set_direction X dir d s) (update_interest X b (set_direction X dir d s) p).1
  unfolding update_interest
  update_interest-Known false dir s d p k = set_direction-Known dir s d p k
  update_interest-Known true dir s d p k =
      modified_Known X (set_direction X dir d s) p (set_direction-Known dir s d p k)
