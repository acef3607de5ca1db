-- ===== src/Async/Handles.antt =====
-- What creating and dropping a handle does to the reactor's table.
use async_io.Base.{
  ℕ, ◌≡◌, refl, ◌∙◌, ap, sym, subst, inl, inr, ErrorKind, none, some, arith, ◌==◌, if◌then◌else◌,
  Bool-cases, IoResult, ok, err,
}
use async_io.Reactor.{Platform, Source, Reactor, default_direction}
use async_io.Reactor.Sources.Cover.{IoResult-cases}
use async_io.Reactor.Io.{insert_io, remove_io}
use async_io.Async.{Async, new_nonblocking, deregister_io, drop}

module _ (X : Platform) (T : Type 0) where
  abbrev pub new_source : Reactor X → X.poller.Registration → Source X
  new_source r raw = record {
    registration = raw;
    key = X.slab.vacant_key r.sources;
    reads = default_direction X;
    writes = default_direction X;
  }

  -- The reactor that a registration leaves.
  abbrev pub inserted : Reactor X → X.poller.Registration → Reactor X
  inserted r raw = record r {
    poller = (X.poller.add raw r.poller (X.slab.vacant_key r.sources)).0;
    sources = X.slab.insert r.sources (new_source r raw);
  }

  pub insert_io_ok :
      (r : Reactor X) (raw : X.poller.Registration)
      → (X.poller.add raw r.poller (X.slab.vacant_key r.sources)).1 ≡ ok tt
      → insert_io X r raw ≡ (ok (X.slab.vacant_key r.sources), inserted r raw)
  unfolding insert_io
  insert_io_ok r raw e = rw (e, insert_io) refl

  pub insert_io_err :
      (r : Reactor X) (raw : X.poller.Registration) (k : ErrorKind)
      → (X.poller.add raw r.poller (X.slab.vacant_key r.sources)).1 ≡ err k
      → (insert_io X r raw).0 ≡ err k
  unfolding insert_io
  insert_io_err r raw k e = rw (e, insert_io) refl

  -- What `new_nonblocking` makes of the result of `insert_io`.
  wrap : T → IoResult ℕ → IoResult (Async X T)
  wrap io (ok key) = ok (record { source = key; io = some io })
  wrap io (err e) = err e

  new_nonblocking_lem :
      (register : T → X.poller.Registration) (io : T) (r : Reactor X)
      → new_nonblocking X T register io r
        ≡ (wrap io (insert_io X r (register io)).0, (insert_io X r (register io)).1)
  unfolding new_nonblocking wrap
  new_nonblocking_lem register io r = go (insert_io X r (register io)).0 refl
    where
      go :
          (x : IoResult ℕ)
          → (insert_io X r (register io)).0 ≡ x
          → new_nonblocking X T register io r
            ≡ (wrap io (insert_io X r (register io)).0, (insert_io X r (register io)).1)
      go (ok key) e = rw (e, new_nonblocking) refl
      go (err k) e = rw (e, new_nonblocking) refl

  pub get-inserted :
      (r : Reactor X) (raw : X.poller.Registration) (j : ℕ)
      → X.slab.get (inserted r raw).sources j ≡ (
          if X.slab.vacant_key r.sources == j
          then some (new_source r raw)
          else X.slab.get r.sources j)
  get-inserted r raw j = X.slab.get-insert r.sources (new_source r raw) j

  drop_lem_inserted :
      (io : T) (r : Reactor X) (raw : X.poller.Registration)
      → drop X T (record { source = X.slab.vacant_key r.sources; io = some io }) (inserted r raw)
        ≡ some (remove_io X (inserted r raw) (new_source r raw)).1
  unfolding drop deregister_io
  drop_lem_inserted io r raw =
      let here : X.slab.get (inserted r raw).sources (X.slab.vacant_key r.sources)
          ≡ some (new_source r raw) =
        get-inserted r raw (X.slab.vacant_key r.sources) ∙ ground arith in
      rw (here, drop) refl

  pub removed_again :
      (r : Reactor X) (raw : X.poller.Registration) (j : ℕ)
      → X.slab.get (remove_io X (inserted r raw) (new_source r raw)).1.sources j
        ≡ X.slab.get r.sources j
  unfolding remove_io
  removed_again r raw j =
      let key = X.slab.vacant_key r.sources in
      let here : X.slab.get (inserted r raw).sources key ≡ some (new_source r raw) =
        get-inserted r raw key ∙ ground arith in
      let gone = X.slab.get-remove (inserted r raw).sources key j (λ z. cc) in
      let vacant = X.slab.get-vacant_key r.sources in
      elim (Bool-cases (key == j)) [
        | inl z ↦
            let same : key ≡ j = ground arith in
            gone ∙ rw z (sym vacant ∙ ap (X.slab.get r.sources) same)
        | inr z ↦ gone ∙ rw z (get-inserted r raw j ∙ rw z refl)
      ]

  -- The handle holds the I/O object on a new source in the table, and its drop puts the table back.
  abbrev pub IsUndone : T → X.poller.Registration → Reactor X → Async X T → Reactor X → Type 0
  IsUndone io raw r a r1 =
      (a.io ≡ some io)
      × (X.slab.get r.sources a.source ≡ none)
      × ((s : Source X) × (X.slab.get r1.sources a.source ≡ some s) × (s.registration ≡ raw))
      × ((r' : Reactor X) × (drop X T a r1 ≡ some r')
          × ((j : ℕ) → X.slab.get r'.sources j ≡ X.slab.get r.sources j))

  inserted-IsUndone :
      (io : T) (r : Reactor X) (raw : X.poller.Registration)
      → IsUndone io raw r
          (record { source = X.slab.vacant_key r.sources; io = some io })
          (inserted r raw)
  inserted-IsUndone io r raw = (
    refl,
    X.slab.get-vacant_key r.sources,
    (new_source r raw, get-inserted r raw (X.slab.vacant_key r.sources) ∙ ground arith, refl),
    (
      (remove_io X (inserted r raw) (new_source r raw)).1,
      drop_lem_inserted io r raw,
      removed_again r raw,
    ),
  )

  ok_injective : (a b : Async X T) → ok a ≡ ok b → a ≡ b
  ok_injective a b e = cc

  pub new_nonblocking_ok :
      (register : T → X.poller.Registration) (io : T) (r : Reactor X)
      → (X.poller.add (register io) r.poller (X.slab.vacant_key r.sources)).1 ≡ ok tt
      → new_nonblocking X T register io r ≡ (
        ok (record { source = X.slab.vacant_key r.sources; io = some io }),
        inserted r (register io),
      )
  unfolding wrap
  new_nonblocking_ok register io r fine =
      new_nonblocking_lem register io r
      ∙ ap (λ (x : IoResult ℕ × Reactor X). (wrap io x.0, x.1)) (insert_io_ok r (register io) fine)

  -- A failing registration leaves the table as it was.
  pub new_nonblocking_err :
      (register : T → X.poller.Registration) (io : T) (r : Reactor X) (k : ErrorKind)
      → (X.poller.add (register io) r.poller (X.slab.vacant_key r.sources)).1 ≡ err k
      → (r' : Reactor X) × (new_nonblocking X T register io r ≡ (err k, r'))
        × ((j : ℕ) → X.slab.get r'.sources j ≡ X.slab.get r.sources j)
  unfolding wrap insert_io remove_io
  new_nonblocking_err register io r k bad =
      let whole = new_nonblocking_lem register io r in
      let key = X.slab.vacant_key r.sources in
      (
        record r {
          poller = (X.poller.add (register io) r.poller key).0;
          sources = X.slab.remove (inserted r (register io)).sources key;
        },
        whole ∙ rw (bad, insert_io) refl,
        removed_again r (register io),
      )

  -- If `new_nonblocking` succeeds, the handle holds the I/O object and a source of its descriptor,
  -- under a key that was free before; dropping the handle then succeeds, whatever the poller
  -- answers, and leaves the table as it was before.
  pub drop-new_nonblocking :
      (register : T → X.poller.Registration) (io : T) (r : Reactor X) (a : Async X T)
      → (new_nonblocking X T register io r).0 ≡ ok a
      → IsUndone io (register io) r a (new_nonblocking X T register io r).1
  drop-new_nonblocking register io r a e =
      let eq = new_nonblocking_lem register io r in
      elim (IoResult-cases (X.poller.add (register io) r.poller (X.slab.vacant_key r.sources)).1) [
        | inl fine ↦
            let whole = new_nonblocking_ok register io r fine in
            let same = ok_injective _ a (sym (ap (λ x. x.0) whole) ∙ e) in
            rw whole (
              subst (λ (b : Async X T). IsUndone io (register io) r b (inserted r (register io)))
                same (inserted-IsUndone io r (register io)))
        | inr (k, bad) ↦
            let (r', whole, _) = new_nonblocking_err register io r k bad in
            absurd (let both : err k ≡ ok a = sym (ap (λ x. x.0) whole) ∙ e in cc)
      ]
