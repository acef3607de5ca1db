-- ===== src/Reactor/React/Ahead.antt =====
-- What `react` (`src/reactor.rs`) keeps of the sources, event by event, while events are ahead.
use async_io.Base.{
  ℕ, ◌≡◌, ◌≢◌, ◌∙◌, ap, sym, subst, ◌⊎◌, inl, inr, false, List, ◌∷◌, map, Option, none, some, In,
  arith, Bool-cases, ok, ◌==◌, ==_iff,
}
use async_io.Timers.{Waker}
use async_io.External.Poller.{Event, no_event}
use async_io.Reactor.{Platform, Source}
use async_io.Reactor.Sources.Cover.{
  Covered, Known, Known-key, Covered-transport, Known-transport, Covered-Known,
}
use async_io.Reactor.Io.Tracked.{Tracked, Tracked-transport}
use async_io.Reactor.React.{deliver}
use async_io.Reactor.React.Events.{deliver_lem, reregister-Covered, reregister-Known, reregister_ne}

abbrev pub keys : List Event → List ℕ
keys evs = map (λ (ev : Event). ev.key) evs

module _ (X : Platform) where
  -- The events that the poller has just delivered account for every interest that ended. Sources
  -- that were exempt before stay so.
  pub wait-Tracked :
      (lost exempt : List ℕ) (sources : X.slab.Slab (Source X)) (p : X.poller.Poller)
      (timeout : Option ℕ) (evs : List Event)
      → (X.poller.wait p timeout).1 ≡ ok evs
      → ((j : ℕ) → In j lost → In j exempt)
      → ((j : ℕ) → In j (keys evs) → In j exempt)
      → Tracked X lost sources p
      → Tracked X exempt sources (X.poller.wait p timeout).0
  wait-Tracked lost exempt sources p timeout evs e more heard all key s f =
      let (k, c, covered) = all key s f in
      elim (X.poller.wait_ok p timeout evs s.registration e) [
        | inl same ↦ (k, Known-transport X s p _ same c, still same covered)
        | inr (v, was, among, now) ↦
            let v_key : v.key ≡ s.key =
              ap event_key (some_path (sym was ∙ c.registered)) ∙ c.same_key in
            (
              k,
              record { event = no_event v.key; registered = now; same_key = v_key },
              inr (heard key (subst (λ (j : ℕ). In j (keys evs)) (v_key ∙ k) among)),
            )
      ]
    where
      event_key : Event → ℕ
      event_key v = v.key

      some_path : {a b : Event} → some a ≡ some b → a ≡ b
      some_path h = cc

      still :
          {p' : X.poller.Poller}
          → X.poller.interest p' s.registration ≡ X.poller.interest p s.registration
          → Covered X s p ⊎ In key lost
          → Covered X s p' ⊎ In key exempt
      still same (inl d) = inl (Covered-transport X s p _ same d)
      still same (inr m) = inr (more key m)

  deliver-Known :
      (ev : Event) (tick : ℕ) (s : Source X) (p : X.poller.Poller) (wakers : List Waker)
      → Known X s p
      → Known X (deliver X ev tick s p wakers).0 p
  deliver-Known ev tick s p wakers k =
      let (_, _, _, key, reg) = deliver_lem X ev tick s p wakers in
      record {
        event = k.event;
        registered = ap (X.poller.interest p) reg ∙ k.registered;
        same_key = k.same_key ∙ sym key;
      }

  -- One round of the loop.
  pub dispatch_step :
      (ev : Event) (rest : List ℕ) (tick : ℕ) (sources : X.slab.Slab (Source X))
      (p : X.poller.Poller) (wakers : List Waker) (s : Source X)
      → X.slab.get sources ev.key ≡ some s
      → (deliver X ev tick s p wakers).3 ≡ ok tt
      → Tracked X (ev.key ∷ rest) sources p
      → Tracked X rest
          (X.slab.set sources ev.key (deliver X ev tick s p wakers).0)
          (deliver X ev tick s p wakers).1
  unfolding deliver
  dispatch_step ev rest tick sources p wakers s e good all j t f =
      let here = all ev.key s e in
      let s' = (deliver X ev tick s p wakers).0 in
      let facts = deliver_lem X ev tick s p wakers in
      let known = deliver-Known ev tick s p wakers here.1 in
      let found = sym (X.slab.get-set sources ev.key s' j (λ z. ground arith)) ∙ f in
      elim (Bool-cases (ev.key == j)) [
        | inl same ↦
            let eq : s' ≡ t = ground arith in
            let c = reregister-Covered X s' p known good in
            rw (← eq) (facts.3 ∙ here.0 ∙ (==_iff ev.key j).0 same, Covered-Known X s' _ c, inl c)
        | inr different ↦
            let old = all j t (ground arith) in
            let apart : s'.registration ≢ t.registration =
              Known-key X s' t p known old.1 (ground (arith, here.0, old.0, facts.3)) in
            let unchanged = reregister_ne X s' p t.registration apart in
            (old.0, Known-transport X t p _ unchanged old.1, ahead unchanged different old.2)
      ]
    where
      ahead :
          {t : Source X} {j : ℕ} {p' : X.poller.Poller}
          → X.poller.interest p' t.registration ≡ X.poller.interest p t.registration
          → (ev.key == j) ≡ false
          → Covered X t p ⊎ ((j ≡ ev.key) ⊎ In j rest)
          → Covered X t p' ⊎ In j rest
      ahead u d (inl c) = inl (Covered-transport X _ p _ u c)
      ahead u d (inr (inl z)) = absurd (ground arith)
      ahead u d (inr (inr m)) = inr m

  -- If the re-registration fails, the key of the event stays exempt.
  pub dispatch_lost :
      (ev : Event) (rest : List ℕ) (tick : ℕ) (sources : X.slab.Slab (Source X))
      (p : X.poller.Poller) (wakers : List Waker) (s : Source X)
      → X.slab.get sources ev.key ≡ some s
      → Tracked X (ev.key ∷ rest) sources p
      → Tracked X
          (ev.key ∷ rest)
          (X.slab.set sources ev.key (deliver X ev tick s p wakers).0)
          (deliver X ev tick s p wakers).1
  unfolding deliver
  dispatch_lost ev rest tick sources p wakers s e all j t f =
      let here = all ev.key s e in
      let s' = (deliver X ev tick s p wakers).0 in
      let facts = deliver_lem X ev tick s p wakers in
      let known = deliver-Known ev tick s p wakers here.1 in
      let found = sym (X.slab.get-set sources ev.key s' j (λ z. ground arith)) ∙ f in
      elim (Bool-cases (ev.key == j)) [
        | inl same ↦
            let eq : s' ≡ t = ground arith in
            let at = (==_iff ev.key j).0 same in
            rw (← eq) (facts.3 ∙ here.0 ∙ at, reregister-Known X s' p known, inr (inl (sym at)))
        | inr different ↦
            let old = all j t (ground arith) in
            let apart : s'.registration ≢ t.registration =
              Known-key X s' t p known old.1 (ground (arith, here.0, old.0, facts.3)) in
            Tracked-transport X t p _ (reregister_ne X s' p t.registration apart) old
      ]

  pub skip_step :
      (ev : Event) (rest : List ℕ) (sources : X.slab.Slab (Source X)) (p : X.poller.Poller)
      → X.slab.get sources ev.key ≡ none
      → Tracked X (ev.key ∷ rest) sources p
      → Tracked X rest sources p
  skip_step ev rest sources p e all j t f = let old = all j t f in (old.0, old.1, ahead old.2)
    where
      ahead : Covered X t p ⊎ ((j ≡ ev.key) ⊎ In j rest) → Covered X t p ⊎ In j rest
      ahead (inl c) = inl c
      ahead (inr (inl z)) = absurd (ground (arith, ap (X.slab.get sources) z))
      ahead (inr (inr m)) = inr m
