-- ===== src/Reactor/Io/Tracked.antt =====
-- What every step keeps of the sources in the table (`src/reactor.rs`), also while events that the
-- poller has delivered are still to be dispatched.
use async_io.Base.{
  none_apart, ℕ, ◌≡◌, refl, ◌≢◌, ◌∙◌, ap, sym, ◌⊎◌, inl, inr, subst, In, pending, true, false, List,
  Option, none, some, arith, Bool-cases, ErrorKind, IoResult, ok, err, Poll, ◌==◌, ==_iff,
}
use async_io.Timers.{Waker}
use async_io.Reactor.{Platform, Dir, Source, Reactor, default_direction, get_ticker}
use async_io.Reactor.Directions.{is_empty}
use async_io.Reactor.Directions.Laws.{is_empty-false}
use async_io.Reactor.Sources.{Ready, poll_ready, poll_future, drop_future}
use async_io.Reactor.Sources.Serves.{
  Serves, poll_ready-Serves, poll_future-Serves, drop_future-Serves,
}
use async_io.Reactor.Io.{
  insert_io, remove_io, put, poll_source, poll_ready_future, drop_ready_future,
}
use async_io.Reactor.Sources.Cover.{
  NotErr, IoResult-cases, Covered, Known, Covered-transport, Known-transport, Covered-Known,
  Known-key,
}

module _ (X : Platform) where
  -- Each source stands under its own key and is known to the poller, and it is covered unless its
  -- key is exempt: an event with it is still ahead, or its registration has failed.
  abbrev pub Tracked : List ℕ → X.slab.Slab (Source X) → X.poller.Poller → Type 0
  Tracked ahead sources p =
      (key : ℕ) (s : Source X)
      → X.slab.get sources key ≡ some s
      → (s.key ≡ key) × Known X s p × (Covered X s p ⊎ In key ahead)

  pub Tracked-transport :
      (s : Source X) (p p' : X.poller.Poller) {A B : Type 0}
      → X.poller.interest p' s.registration ≡ X.poller.interest p s.registration
      → A × Known X s p × (Covered X s p ⊎ B)
      → A × Known X s p' × (Covered X s p' ⊎ B)
  Tracked-transport s p p' e (a, k, inl c) =
      (a, Known-transport X s p p' e k, inl (Covered-transport X s p p' e c))
  Tracked-transport s p p' e (a, k, inr m) = (a, Known-transport X s p p' e k, inr m)

  -- More keys are exempt.
  pub Tracked-mono :
      (ahead ahead' : List ℕ) (sources : X.slab.Slab (Source X)) (p : X.poller.Poller)
      → ((j : ℕ) → In j ahead → In j ahead')
      → Tracked ahead sources p
      → Tracked ahead' sources p
  Tracked-mono ahead ahead' sources p more all j t f =
      let old = all j t f in (old.0, old.1, exempt old.2)
    where
      exempt : Covered X t p ⊎ In j ahead → Covered X t p ⊎ In j ahead'
      exempt (inl c) = inl c
      exempt (inr m) = inr (more j m)

  -- An operation on one source of the table. After an error the source is to be exempt.
  set-Tracked :
      (ahead : List ℕ) (sources : X.slab.Slab (Source X)) (p p' : X.poller.Poller) (key : ℕ)
      (s s' : Source X) (res : Poll (IoResult (Unit {0})))
      → Tracked ahead sources p
      → X.slab.get sources key ≡ some s
      → Serves X res s s' p p'
      → NotErr res ⊎ In key ahead
      → Tracked ahead (X.slab.set sources key s') p'
  set-Tracked ahead sources p p' key s s' res all e v good j t f =
      let here = all key s e in
      let found = sym (X.slab.get-set sources key s' j (λ z. ground arith)) ∙ f in
      elim (Bool-cases (key == j)) [
        | inl same ↦
            let eq : s' ≡ t = ground arith in
            let at : key ≡ j = (==_iff key j).0 same in
            rw (← eq) (v.keeps.key ∙ here.0 ∙ at, v.knows here.1, served at good here.2)
        | inr other ↦
            let old = all j t (ground arith) in
            Tracked-transport t p p'
              (v.keeps.others t.registration
                (Known-key X s t p here.1 old.1 (ground (arith, here.0, old.0))))
              old
      ]
    where
      served :
          {j : ℕ}
          → key ≡ j
          → NotErr res ⊎ In key ahead
          → Covered X s p ⊎ In key ahead
          → Covered X s' p' ⊎ In j ahead
      served at (inl fine) (inl c) = inl (v.covers c fine)
      served at _ (inr m) = inr (subst (λ (i : ℕ). In i ahead) at m)
      served at (inr m) _ = inr (subst (λ (i : ℕ). In i ahead) at m)

  default_empty : is_empty X (default_direction X) ≡ true
  unfolding default_direction
  default_empty = elim (Bool-cases (is_empty X (default_direction X))) [
    | inl e ↦ e
    | inr e ↦ absurd (elim (is_empty-false X (default_direction X) e) [
      | inl (w, f) ↦ cc
      | inr (i, w, f) ↦ none_apart (X.slab.get-new (Option Waker) i) f
    ])
  ]

  fresh_source : X.poller.Registration → ℕ → Source X
  fresh_source raw key = record {
    registration = raw;
    key = key;
    reads = default_direction X;
    writes = default_direction X;
  }

  insert_ok :
      (ahead : List ℕ) (r : Reactor X) (raw : X.poller.Registration)
      → (X.poller.add raw r.poller (X.slab.vacant_key r.sources)).1 ≡ ok tt
      → Tracked ahead r.sources r.poller
      → Tracked ahead
          (X.slab.insert r.sources (fresh_source raw (X.slab.vacant_key r.sources)))
          (X.poller.add raw r.poller (X.slab.vacant_key r.sources)).0
  unfolding fresh_source
  insert_ok ahead r raw e all j t f =
      let key = X.slab.vacant_key r.sources in
      let (unused, (event, added, token)) = X.poller.add_ok raw r.poller key e in
      let found = sym (X.slab.get-insert r.sources (fresh_source raw key) j) ∙ f in
      elim (Bool-cases (key == j)) [
        | inl same ↦
            let eq : fresh_source raw key ≡ t = ground arith in
            let c : Covered X (fresh_source raw key) (X.poller.add raw r.poller key).0 = record {
              event = event;
              registered = added;
              same_key = token;
              covers_reads = λ g. absurd (ground (arith, default_empty));
              covers_writes = λ _ g. absurd (ground (arith, default_empty));
            } in
            rw (← eq) ((==_iff key j).0 same, Covered-Known X _ _ c, inl c)
        | inr other ↦
            let old = all j t (ground arith) in
            Tracked-transport t r.poller _
              (X.poller.add_ne raw r.poller key t.registration (λ z.
                none_apart (ap (X.poller.interest r.poller) (sym z) ∙ unused) old.1.registered))
              old
      ]

  insert_err :
      (ahead : List ℕ) (r : Reactor X) (raw : X.poller.Registration) (e : ErrorKind)
      → (X.poller.add raw r.poller (X.slab.vacant_key r.sources)).1 ≡ err e
      → Tracked ahead r.sources r.poller
      → Tracked ahead
          (X.slab.remove
            (X.slab.insert r.sources (fresh_source raw (X.slab.vacant_key r.sources)))
            (X.slab.vacant_key r.sources))
          (X.poller.add raw r.poller (X.slab.vacant_key r.sources)).0
  unfolding fresh_source
  insert_err ahead r raw e failed all j t f =
      let key = X.slab.vacant_key r.sources in
      let table = X.slab.insert r.sources (fresh_source raw key) in
      let inserted = X.slab.get-insert r.sources (fresh_source raw key) in
      let occupied : X.slab.get table key ≢ none = λ z. ground (arith, inserted key) in
      let back : X.slab.get r.sources j ≡ some t =
        ground (arith, inserted j, X.slab.get-remove table key j occupied) in
      let old = all j t back in
      Tracked-transport t r.poller _ (X.poller.add_err raw r.poller key e t.registration failed) old

  pub insert_io-Tracked :
      (ahead : List ℕ) (r : Reactor X) (raw : X.poller.Registration)
      → Tracked ahead r.sources r.poller
      → Tracked ahead (insert_io X r raw).1.sources (insert_io X r raw).1.poller
  unfolding insert_io fresh_source
  insert_io-Tracked ahead r raw all =
      elim (IoResult-cases (X.poller.add raw r.poller (X.slab.vacant_key r.sources)).1) [
        | inl e ↦ rw (e, insert_io) (insert_ok ahead r raw e all)
        | inr (k, e) ↦ rw (e, insert_io) (insert_err ahead r raw k e all)
      ]

  pub remove_io-Tracked :
      (ahead : List ℕ) (r : Reactor X) (s : Source X)
      → X.slab.get r.sources s.key ≡ some s
      → Tracked ahead r.sources r.poller
      → Tracked ahead (remove_io X r s).1.sources (remove_io X r s).1.poller
  unfolding remove_io
  remove_io-Tracked ahead r s e all j t f =
      let occupied : X.slab.get r.sources s.key ≢ none = λ z. ground arith in
      let found = sym (X.slab.get-remove r.sources s.key j occupied) ∙ f in
      let other : (s.key == j) ≡ false = ground arith in
      let old = all j t (ground arith) in
      Tracked-transport t r.poller _
        (X.poller.delete_ne s.registration r.poller t.registration
          (Known-key X s t r.poller (all s.key s e).1 old.1 (ground (arith, old.0))))
        old

  pub poll_source-Tracked :
      (ahead : List ℕ) (r : Reactor X) (key : ℕ) (dir : Dir) (k : Waker) (s : Source X)
      → X.slab.get r.sources key ≡ some s
      → Tracked ahead r.sources r.poller
      → (out : Poll (IoResult (Unit {0})) × Reactor X × List Waker) × (poll_source X r key dir k
          ≡ some out)
        × (NotErr out.0 ⊎ In key ahead → Tracked ahead out.1.sources out.1.poller)
  unfolding poll_source get_ticker
  poll_source-Tracked ahead r key dir k s e all =
      let out = poll_ready X s dir k r.ticker r.poller in
      (
        (out.0, put X r key out.1 out.2, out.3),
        rw (e, poll_source) refl,
        λ good.
            set-Tracked ahead r.sources r.poller out.2 key s out.1 out.0 all e
              (poll_ready-Serves X s dir k r.ticker r.poller) good,
      )

  pub poll_ready_future-Tracked :
      (ahead : List ℕ) (r : Reactor X) (key : ℕ) (f : Ready) (k : Waker) (s : Source X)
      → X.slab.get r.sources key ≡ some s
      → Tracked ahead r.sources r.poller
      → (out : Poll (IoResult (Unit {0})) × Ready × Reactor X) × (poll_ready_future X r key f k
          ≡ some out)
        × (NotErr out.0 ⊎ In key ahead → Tracked ahead out.2.sources out.2.poller)
  unfolding poll_ready_future get_ticker
  poll_ready_future-Tracked ahead r key f k s e all =
      let out = poll_future X f s k r.ticker r.poller in
      (
        (out.0, out.1, put X r key out.2 out.3),
        rw (e, poll_ready_future) refl,
        λ good.
            set-Tracked ahead r.sources r.poller out.3 key s out.2 out.0 all e
              (poll_future-Serves X f s k r.ticker r.poller) good,
      )

  pub drop_ready_future-Tracked :
      (ahead : List ℕ) (r : Reactor X) (key : ℕ) (f : Ready) (s : Source X)
      → X.slab.get r.sources key ≡ some s
      → Tracked ahead r.sources r.poller
      → (r' : Reactor X) × (drop_ready_future X r key f ≡ some r')
        × Tracked ahead r'.sources r'.poller
  unfolding drop_ready_future
  drop_ready_future-Tracked ahead r key f s e all = (
    put X r key (drop_future X f s) r.poller,
    rw (e, drop_ready_future) refl,
    set-Tracked ahead r.sources r.poller r.poller key s (drop_future X f s) pending all e
        (drop_future-Serves X f s r.poller) (inl tt),
  )
