-- ===== src/Os/Windows/Laws.antt =====
-- What a waitable handle does: it is watched, and comes back.
use async_io.Base.{
  ℕ, ◌≡◌, ◌∙◌, ap, sym, subst, inl, inr, true, List, some, arith, ErrorKind, IoResult, ok, err,
  Poll, pending,
}
use async_io.External.Poller.{Event}
use async_io.External.Queue.{BoundedQueue}
use async_io.External.Slab.{SlabCrate}
use async_io.External.Iocp.{IocpCrate}
use async_io.Registration.Windows.{handle, object}
use async_io.Timers.{Waker, TimerOp}
use async_io.Reactor.{Reactor}
use async_io.Reactor.Io.{insert_io}
use async_io.Reactor.Io.Covered.{AllCovered, insert_io-AllCovered}
use async_io.Reactor.Sources.Cover.{IoResult-cases}
use async_io.Async.Handles.{new_source, inserted, insert_io_ok, insert_io_err, get-inserted}
use async_io.Async.Unwrap.{Unwraps, into_inner-inserted}
use async_io.Async.Watches.{poll_source-Watches}
use async_io.Os.Windows.{
  windows, Waitable, made_waitable, new_waitable, unwrap_waitable, poll_waitable,
}

module _ (Q : BoundedQueue TimerOp) (L : SlabCrate) (P : IocpCrate) (latest : ℕ) {T : Type 0}
    (as_handle : T → ℕ) where
  ok_injective : {a b : Waitable Q L P latest T} → ok a ≡ ok b → a ≡ b
  ok_injective e = cc

  failed_made :
      (f : T) (x : IoResult ℕ × Reactor (windows Q L P latest)) (k : ErrorKind)
      → x.0 ≡ err k
      → (made_waitable Q L P latest f x).0 ≡ err k
  unfolding made_waitable
  failed_made f (ok key, r) k e = absurd (cc)
  failed_made f (err j, r) k e = let same : j ≡ k = cc in ap err same

  -- What has been made stands in the table and owns what it was made of.
  new_waitable_cases :
      (f : T) (r : Reactor (windows Q L P latest)) (fl : Waitable Q L P latest T)
      → (new_waitable Q L P latest as_handle f r).0 ≡ ok fl
      → (◌≡◌ {A = Waitable Q L P latest T × Reactor (windows Q L P latest)}
          (fl, (new_waitable Q L P latest as_handle f r).1)
          (
            record { inner = record { source = L.vacant_key r.sources; io = some f } },
            inserted (windows Q L P latest) T r (handle (as_handle f)),
          ))
        × ((insert_io (windows Q L P latest) r (handle (as_handle f))).1
            ≡ inserted (windows Q L P latest) T r (handle (as_handle f)))
  unfolding new_waitable made_waitable
  new_waitable_cases f r fl e =
      let X = windows Q L P latest in
      let raw = handle (as_handle f) in
      elim (IoResult-cases (X.poller.add raw r.poller (L.vacant_key r.sources)).1) [
        | inl fine ↦
            let io = insert_io_ok X T r raw fine in
            let whole = ap (made_waitable Q L P latest f) io in
            let same = ok_injective (sym e ∙ ap (λ x. x.0) whole) in
            (
              ap (λ x. (x, (made_waitable Q L P latest f (insert_io X r raw)).1)) same
                  ∙ ap
                      (λ (x : Reactor (windows Q L P latest)). (
                        record { inner = record { source = L.vacant_key r.sources; io = some f } },
                        x,
                      ))
                      (ap (λ x. x.1) whole),
              ap (λ x. x.1) io,
            )
        | inr (k, bad) ↦
            let failed = failed_made f (insert_io X r raw) k (insert_io_err X T r raw k bad) in
            absurd (let both : ok fl ≡ err k = sym e ∙ failed in cc)
      ]

  unwrap_inserted :
      (f : T) (r : Reactor (windows Q L P latest))
      → Unwraps
          (windows Q L P latest)
          T
          f
          r
          (handle (as_handle f))
          (inserted (windows Q L P latest) T r (handle (as_handle f))).poller
          (unwrap_waitable Q L P latest
            (record { inner = record { source = L.vacant_key r.sources; io = some f } })
            (inserted (windows Q L P latest) T r (handle (as_handle f))))
  unfolding unwrap_waitable
  unwrap_inserted f r = into_inner-inserted (windows Q L P latest) T f r (handle (as_handle f))

  pub unwrap_waitable_lem :
      (f : T) (r : Reactor (windows Q L P latest)) (fl : Waitable Q L P latest T)
      → (new_waitable Q L P latest as_handle f r).0 ≡ ok fl
      → Unwraps
          (windows Q L P latest)
          T
          f
          r
          (handle (as_handle f))
          (new_waitable Q L P latest as_handle f r).1.poller
          (unwrap_waitable Q L P latest fl (new_waitable Q L P latest as_handle f r).1)
  unwrap_waitable_lem f r fl e =
      subst
        (λ (x : Waitable Q L P latest T × Reactor (windows Q L P latest)).
          Unwraps (windows Q L P latest) T f r (handle (as_handle f)) x.1.poller
            (unwrap_waitable Q L P latest x.0 x.1))
        (sym (new_waitable_cases f r fl e).0) (unwrap_inserted f r)

  -- A poll that is pending leaves `fl` watched, for `f`.
  abbrev pub PollWatches :
      T → Waitable Q L P latest T → Reactor (windows Q L P latest) → Waker → Type 0
  PollWatches f fl r k =
      (out : Poll (IoResult (Unit {0})) × Reactor (windows Q L P latest) × List Waker)
      × (poll_waitable Q L P latest fl r k ≡ some out)
      × (out.0 ≡ pending
          → (ev : Event) × (P.interest out.1.poller (object (handle (as_handle f))) ≡ some ev)
            × (ev.key ≡ fl.inner.source)
            × (ev.readable ≡ true))

  inserted-PollWatches :
      (f : T) (r : Reactor (windows Q L P latest)) (k : Waker)
      → AllCovered
          (windows Q L P latest)
          (inserted (windows Q L P latest) T r (handle (as_handle f))).sources
          (inserted (windows Q L P latest) T r (handle (as_handle f))).poller
      → PollWatches f
          (record { inner = record { source = L.vacant_key r.sources; io = some f } })
          (inserted (windows Q L P latest) T r (handle (as_handle f)))
          k
  unfolding poll_waitable
  inserted-PollWatches f r k covered =
      let X = windows Q L P latest in
      let at = get-inserted X T r (handle (as_handle f)) (L.vacant_key r.sources) in
      poll_source-Watches X (inserted X T r (handle (as_handle f))) (L.vacant_key r.sources) k
        (new_source X T r (handle (as_handle f))) (at ∙ ground arith) covered

  pub poll_waitable-watched :
      (f : T) (r : Reactor (windows Q L P latest)) (fl : Waitable Q L P latest T) (k : Waker)
      → (new_waitable Q L P latest as_handle f r).0 ≡ ok fl
      → AllCovered (windows Q L P latest) r.sources r.poller
      → PollWatches f fl (new_waitable Q L P latest as_handle f r).1 k
  poll_waitable-watched f r fl k e all =
      let X = windows Q L P latest in
      let (made, io) = new_waitable_cases f r fl e in
      let covered =
        subst (λ (x : Reactor X). AllCovered X x.sources x.poller) io
          (insert_io-AllCovered X r (handle (as_handle f)) all) in
      subst
        (λ (x : Waitable Q L P latest T × Reactor (windows Q L P latest)). PollWatches f x.0 x.1 k)
        (sym made) (inserted-PollWatches f r k covered)
