-- ===== src/Os/Kqueue/Laws.antt =====
-- What a filter does: it is watched under its own number, and comes back.
use async_io.Base.{
  ℕ, ◌^◌, ◌<◌, ◌≤◌, ◌≡◌, refl, ◌∙◌, ap, sym, subst, ◌⊎◌, inl, inr, true, List, none, some, arith,
  ErrorKind, IoResult, ok, err, Poll, pending, ltb, ◌==◌, Bool-cases,
}
use async_io.External.Poller.{Event}
use async_io.External.Queue.{BoundedQueue}
use async_io.External.Slab.{SlabCrate}
use async_io.External.Kqueue.{KqueueCrate}
use async_io.Registration.Kqueue.{object}
use async_io.Timers.{Waker, TimerOp}
use async_io.Reactor.{Reactor}
use async_io.Reactor.Io.{insert_io}
use async_io.Reactor.Io.Covered.{AllCovered, insert_io-AllCovered}
use async_io.Reactor.Sources.Cover.{IoResult-cases}
use async_io.Async.Handles.{new_source, inserted, insert_io_ok, insert_io_err, get-inserted}
use async_io.Async.Unwrap.{Unwraps, into_inner-inserted}
use async_io.Async.Watches.{poll_source-Watches}
use async_io.Os.Kqueue.{
  to_i32, non_zero, new_exit, Queueable, kqueue, Filter, made_filter, new_filter, unwrap_filter,
  poll_filter,
}

new_exit_lem :
    (id : ℕ)
    → (0 < id → id < 2 ^ 31 → new_exit id ≡ some (record { pid = id }))
      × ((id ≡ 0) ⊎ (2 ^ 31 ≤ id) → new_exit id ≡ none)
unfolding new_exit to_i32 non_zero
new_exit_lem id = elim (Bool-cases (ltb id (2 ^ 31))) [
  | inl small ↦ elim (Bool-cases (id == 0)) [
    | inl z ↦ (
      λ pos. absurd (ground arith),
      λ _. rw (small, new_exit, to_i32) (rw (z, new_exit, non_zero) refl),
    )
    | inr z ↦ (
      λ _ _. rw (small, new_exit, to_i32) (rw (z, new_exit, non_zero) refl),
      λ bad. absurd (ground arith),
    )
  ]
  | inr large ↦ (λ _ less. absurd (ground arith), λ _. rw (large, new_exit, to_i32) refl)
]

module _ (Q : BoundedQueue TimerOp) (L : SlabCrate) (P : KqueueCrate) (latest : ℕ) {T : Type 0}
    (q : Queueable T) where
  ok_injective : {a b : Filter Q L P latest T} → ok a ≡ ok b → a ≡ b
  ok_injective e = cc

  failed_made :
      (f : T) (x : IoResult ℕ × Reactor (kqueue Q L P latest)) (k : ErrorKind)
      → x.0 ≡ err k
      → (made_filter Q L P latest f x).0 ≡ err k
  unfolding made_filter
  failed_made f (ok key, r) k e = absurd (cc)
  failed_made f (err j, r) k e = let same : j ≡ k = cc in ap err same

  -- What has been made stands in the table and owns what it was made of.
  new_filter_cases :
      (f : T) (r : Reactor (kqueue Q L P latest)) (fl : Filter Q L P latest T)
      → (new_filter Q L P latest ⦃q = q⦄ f r).0 ≡ ok fl
      → (◌≡◌ {A = Filter Q L P latest T × Reactor (kqueue Q L P latest)}
          (fl, (new_filter Q L P latest ⦃q = q⦄ f r).1)
          (
            record { inner = record { source = L.vacant_key r.sources; io = some f } },
            inserted (kqueue Q L P latest) T r (q.registration f),
          ))
        × ((insert_io (kqueue Q L P latest) r (q.registration f)).1
            ≡ inserted (kqueue Q L P latest) T r (q.registration f))
  unfolding new_filter made_filter
  new_filter_cases f r fl e =
      let X = kqueue Q L P latest in
      let raw = q.registration f in
      elim (IoResult-cases (X.poller.add raw r.poller (L.vacant_key r.sources)).1) [
        | inl fine ↦
            let io = insert_io_ok X T r raw fine in
            let whole = ap (made_filter Q L P latest f) io in
            let same = ok_injective (sym e ∙ ap (λ x. x.0) whole) in
            (
              ap (λ x. (x, (made_filter Q L P latest f (insert_io X r raw)).1)) same
                  ∙ ap
                      (λ (x : Reactor (kqueue Q L P latest)). (
                        record { inner = record { source = L.vacant_key r.sources; io = some f } },
                        x,
                      ))
                      (ap (λ x. x.1) whole),
              ap (λ x. x.1) io,
            )
        | inr (k, bad) ↦
            let failed = failed_made f (insert_io X r raw) k (insert_io_err X T r raw k bad) in
            absurd (let both : ok fl ≡ err k = sym e ∙ failed in cc)
      ]

  unwrap_inserted :
      (f : T) (r : Reactor (kqueue Q L P latest))
      → Unwraps
          (kqueue Q L P latest)
          T
          f
          r
          (q.registration f)
          (inserted (kqueue Q L P latest) T r (q.registration f)).poller
          (unwrap_filter Q L P latest
            (record { inner = record { source = L.vacant_key r.sources; io = some f } })
            (inserted (kqueue Q L P latest) T r (q.registration f)))
  unfolding unwrap_filter
  unwrap_inserted f r = into_inner-inserted (kqueue Q L P latest) T f r (q.registration f)

  -- A filter that `Filter::new` has made and `into_inner` takes apart again gives back what it was
  -- made of if the poller deletes it, and returns the poller's error if it refuses; in both cases
  -- the reactor's table is as it was before, and the poller as the deletion leaves it.
  pub unwrap_filter_lem :
      (f : T) (r : Reactor (kqueue Q L P latest)) (fl : Filter Q L P latest T)
      → (new_filter Q L P latest ⦃q = q⦄ f r).0 ≡ ok fl
      → Unwraps
          (kqueue Q L P latest)
          T
          f
          r
          (q.registration f)
          (new_filter Q L P latest ⦃q = q⦄ f r).1.poller
          (unwrap_filter Q L P latest fl (new_filter Q L P latest ⦃q = q⦄ f r).1)
  unwrap_filter_lem f r fl e =
      subst
        (λ (x : Filter Q L P latest T × Reactor (kqueue Q L P latest)).
          Unwraps (kqueue Q L P latest) T f r (q.registration f) x.1.poller
            (unwrap_filter Q L P latest x.0 x.1))
        (sym (new_filter_cases f r fl e).0) (unwrap_inserted f r)

  -- A poll that is pending leaves `fl` watched, for `f`.
  abbrev pub PollWatches :
      T → Filter Q L P latest T → Reactor (kqueue Q L P latest) → Waker → Type 0
  PollWatches f fl r k =
      (out : Poll (IoResult (Unit {0})) × Reactor (kqueue Q L P latest) × List Waker) × (poll_filter
          Q L P latest fl r k
        ≡ some out)
      × (out.0 ≡ pending
          → (ev : Event) × (P.interest out.1.poller (object (q.registration f)) ≡ some ev)
            × (ev.key ≡ fl.inner.source)
            × (ev.readable ≡ true))

  inserted-PollWatches :
      (f : T) (r : Reactor (kqueue Q L P latest)) (k : Waker)
      → AllCovered
          (kqueue Q L P latest)
          (inserted (kqueue Q L P latest) T r (q.registration f)).sources
          (inserted (kqueue Q L P latest) T r (q.registration f)).poller
      → PollWatches f
          (record { inner = record { source = L.vacant_key r.sources; io = some f } })
          (inserted (kqueue Q L P latest) T r (q.registration f))
          k
  unfolding poll_filter
  inserted-PollWatches f r k covered =
      let X = kqueue Q L P latest in
      let at = get-inserted X T r (q.registration f) (L.vacant_key r.sources) in
      poll_source-Watches X (inserted X T r (q.registration f)) (L.vacant_key r.sources) k
        (new_source X T r (q.registration f)) (at ∙ ground arith) covered

  -- If `Filter::new` makes a filter in a reactor whose sources are all covered, then a poll of the
  -- filter returns a result, and if it is pending, the kernel's queue watches the signal or the
  -- process of the filter itself, readable and under the filter's key.
  pub poll_filter-watched :
      (f : T) (r : Reactor (kqueue Q L P latest)) (fl : Filter Q L P latest T) (k : Waker)
      → (new_filter Q L P latest ⦃q = q⦄ f r).0 ≡ ok fl
      → AllCovered (kqueue Q L P latest) r.sources r.poller
      → PollWatches f fl (new_filter Q L P latest ⦃q = q⦄ f r).1 k
  poll_filter-watched f r fl k e all =
      let X = kqueue Q L P latest in
      let (made, io) = new_filter_cases f r fl e in
      let covered =
        subst (λ (x : Reactor X). AllCovered X x.sources x.poller) io
          (insert_io-AllCovered X r (q.registration f) all) in
      subst (λ (x : Filter Q L P latest T × Reactor (kqueue Q L P latest)). PollWatches f x.0 x.1 k)
        (sym made) (inserted-PollWatches f r k covered)
