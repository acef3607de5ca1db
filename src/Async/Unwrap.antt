-- ===== src/Async/Unwrap.antt =====
-- A handle that has just been made, and is taken apart again.
use async_io.Base.{ℕ, ◌≡◌, refl, ◌∙◌, inl, inr, ErrorKind, Option, some, arith, IoResult, ok, err}
use async_io.Reactor.{Platform, Reactor}
use async_io.Reactor.Sources.Cover.{IoResult-cases}
use async_io.Reactor.Io.{remove_io}
use async_io.Async.{deregister_io, into_inner}
use async_io.Async.Handles.{new_source, inserted, get-inserted, removed_again}

module _ (X : Platform) (T : Type 0) where
  -- The I/O object comes back if the poller `p` deletes it, and the poller's error if it refuses;
  -- in both cases the table is as it was before the handle was made.
  abbrev pub Unwraps :
      T
      → Reactor X
      → X.poller.Registration
      → X.poller.Poller
      → Option (IoResult T × Reactor X)
      → Type 0
  Unwraps io r raw p x =
      (res : IoResult T) × (r' : Reactor X) × (x ≡ some (res, r'))
      × ((X.poller.delete raw p).1 ≡ ok tt → res ≡ ok io)
      × ((e : ErrorKind) → (X.poller.delete raw p).1 ≡ err e → res ≡ err e)
      × (r'.poller ≡ (X.poller.delete raw p).0)
      × ((j : ℕ) → X.slab.get r'.sources j ≡ X.slab.get r.sources j)

  pub into_inner-inserted :
      (io : T) (r : Reactor X) (raw : X.poller.Registration)
      → Unwraps io r raw (inserted X T r raw).poller (
          into_inner X T
            (record { source = X.slab.vacant_key r.sources; io = some io })
            (inserted X T r raw))
  unfolding into_inner deregister_io remove_io
  into_inner-inserted io r raw =
      let here : X.slab.get (inserted X T r raw).sources (X.slab.vacant_key r.sources)
          ≡ some (new_source X T r raw) =
        get-inserted X T r raw (X.slab.vacant_key r.sources) ∙ ground arith in
      let after = (remove_io X (inserted X T r raw) (new_source X T r raw)).1 in
      elim (IoResult-cases (X.poller.delete raw (inserted X T r raw).poller).1) [
        | inl e ↦ (
          ok io,
          after,
          rw (here, into_inner, deregister_io) (rw (e, into_inner, deregister_io) refl),
          λ _. refl,
          λ k bad. absurd (cc),
          refl,
          removed_again X T r raw,
        )
        | inr (k, e) ↦ (
          err k,
          after,
          rw (here, into_inner, deregister_io) (rw (e, into_inner, deregister_io) refl),
          λ fine. absurd (cc),
          λ j bad. cc,
          refl,
          removed_again X T r raw,
        )
      ]
