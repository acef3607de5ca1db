-- ===== src/Net/Pair.antt =====
-- `pair` makes two streams or, on every error path, leaves nothing behind.
use async_io.Base.{
  ℕ, ◌≡◌, refl, ◌∙◌, ap, sym, inl, inr, true, false, some, IoResult, ok, err, arith, Bool-cases,
  if◌then◌else◌, ◌==◌,
}
use async_io.External.Sockets.{Sockets}
use async_io.Reactor.{Platform, Reactor}
use async_io.Net.Opens.{IsNew, closed-SameOpen}
use async_io.Net.Placed.{
  Live, MadeResult, Placed, SameTable, Undone, drop_stream_lem, later_Live, new_stream_lem,
}
use async_io.Net.Streams.{
  Made, Paired, Stream, new_stream, pair, pair_created, pair_dropped, pair_first, pair_second,
}

module _ (X : Platform) (S : Sockets) (register : ℕ → X.poller.Registration) where
  -- An open socket is new in view of the state without it.
  without_IsNew : (o : S.Os) (s : ℕ) → S.is_open o s ≡ true → IsNew S (S.close o s) o s
  without_IsNew o s e = (
    S.is_open-close o s s ∙ ground arith,
    λ fd.
        let c = S.is_open-close o s fd in
        elim (Bool-cases (s == fd)) [
          | inl z ↦ let same : s ≡ fd = ground arith in ground (arith, e, ap (S.is_open o) same)
          | inr z ↦ ground arith
        ],
  )

  -- The two sockets are open and were not before.
  abbrev BothNew : S.Os → S.Os → ℕ → ℕ → Type 0
  BothNew o o' s t =
      ((s == t) ≡ false)
      × (S.is_open o s ≡ false)
      × (S.is_open o t ≡ false)
      × ((fd : ℕ)
          → S.is_open o' fd
            ≡ (if s == fd then true else (if t == fd then true else S.is_open o fd)))

  BothNew-open : (o o' : S.Os) (s t : ℕ) → BothNew o o' s t → S.is_open o' s ≡ true
  BothNew-open o o' s t (ne, a, b, now) = now s ∙ ground arith

  -- Without either of them there is the other.
  without_first : (o o1 : S.Os) (s t : ℕ) → BothNew o o1 s t → IsNew S o (S.close o1 s) t
  without_first o o1 s t (ne, a, b, now) = (
    b,
    λ fd.
        let c = S.is_open-close o1 s fd in
        let n = now fd in
        elim (Bool-cases (s == fd)) [
          | inl z ↦ let same : s ≡ fd = ground arith in ground (arith, a, ne, ap (S.is_open o) same)
          | inr z ↦ ground arith
        ],
  )

  -- Of two new sockets the first one is closed.
  first_IsNew :
      (o m o2 : S.Os) (t s : ℕ) → IsNew S o m t → IsNew S m o2 s → IsNew S o (S.close o2 t) s
  first_IsNew o m o2 t s (b, mid) (a, now) =
      let apart : (t == s) ≡ false = ground (arith, mid s, a) in
      (
        ground (arith, mid s, a),
        λ fd.
            let c = S.is_open-close o2 t fd in
            let n = now fd in
            let l = mid fd in
            elim (Bool-cases (t == fd)) [
              | inl z ↦
                  let same : t ≡ fd = ground arith in
                  ground (arith, b, apart, ap (S.is_open o) same)
              | inr z ↦ ground arith
            ],
      )

  still_open : (o m o2 : S.Os) (t s : ℕ) → IsNew S o m t → IsNew S m o2 s → S.is_open o2 t ≡ true
  still_open o m o2 t s (b, mid) (a, now) = ground (arith, mid t, now t)

  -- What `pair` may leave: two streams, each with a socket and a source of its own, or nothing.
  abbrev pub PairResult :
      S.Os
      → Reactor X
      → IoResult (Stream X S register × Stream X S register) × S.Os × Reactor X
      → Type 0
  PairResult o r (ok (a, b), o', r') =
      (om : S.Os) × (rm : Reactor X) × Live X S register o r a om rm
      × Live X S register om rm b o' r'
  PairResult o r (err e, o', r') = Undone X S register o r o' r'

  abbrev pub Pairs : S.Os → Reactor X → Paired X S register → Type 0
  Pairs o r x =
      (out : IoResult (Stream X S register × Stream X S register) × S.Os × Reactor X) × (x
        ≡ some out)
      × PairResult o r out

  moved_Placed :
      (key : ℕ) (r r1 r2 : Reactor X) → Placed X key r r1 → SameTable X r1 r2 → Placed X key r r2
  moved_Placed key r r1 r2 v same = record {
    source = v.source;
    here = same key ∙ v.here;
    same_key = v.same_key;
    others = λ j ne. same j ∙ v.others j ne;
  }

  pair_second_lem :
      (o om : S.Os) (r r1 : Reactor X) (a : Stream X S register) (m : Made X S register)
      → Live X S register o r a om r1
      → MadeResult X S register om r1 m
      → Pairs o r (pair_second X S register a m)
  unfolding pair_second pair_dropped
  pair_second_lem o om r r1 a (ok b, o', r') v w = ((ok (a, b), o', r'), refl, (om, r1, v, w))
  pair_second_lem o om r r1 a (err e, o', r') v (same, table) =
      let (out, dropped, undone) = drop_stream_lem X S register o r a o' r' (
        later_Live X S register o r a om o' r1 r' v same
          (moved_Placed a.source r r1 r' v.placed table)) in
      ((err e, out.0, out.1), rw dropped refl, undone)

  pair_first_lem :
      (o mid : S.Os) (r : Reactor X) (t : ℕ) (m : Made X S register)
      → IsNew S o mid t
      → MadeResult X S register mid r m
      → Pairs o r (pair_first X S register t m)
  unfolding pair_first
  pair_first_lem o mid r t (ok a, o2, r1) new v =
      pair_second_lem o (S.close o2 t) r r1 a (new_stream X S register o2 r1 t)
        (record {
          socket = v.socket;
          io = v.io;
          opened = first_IsNew o mid o2 t v.socket new v.opened;
          free = v.free;
          placed = v.placed;
        })
        (new_stream_lem X S register (S.close o2 t) o2 r1 t
          (without_IsNew o2 t (still_open o mid o2 t v.socket new v.opened)))
  pair_first_lem o mid r t (err e, o2, r1) new (same, table) =
      ((err e, S.close o2 t, r1), refl, (closed-SameOpen S o mid o2 t new same, table))

  pair_created_lem :
      (o : S.Os) (r : Reactor X) (x : S.Os × IoResult (ℕ × ℕ))
      → S.pair o ≡ x
      → Pairs o r (pair_created X S register r x)
  unfolding pair_created
  pair_created_lem o r (o1, err e) h = (
    (err e, o1, r),
    refl,
    (λ fd. ap (λ x. S.is_open x.0 fd) (sym h) ∙ S.pair_err o e (ap (λ x. x.1) h) fd, λ j. refl),
  )
  pair_created_lem o r (o1, ok (s, t)) h =
      let (ne, a, b, now) = S.pair_ok o s t (ap (λ x. x.1) h) in
      let both : BothNew o o1 s t = (ne, a, b, λ fd. ap (λ x. S.is_open x.0 fd) (sym h) ∙ now fd) in
      pair_first_lem o (S.close o1 s) r t (new_stream X S register o1 r s)
        (without_first o o1 s t both)
        (new_stream_lem X S register (S.close o1 s) o1 r s
          (without_IsNew o1 s (BothNew-open o o1 s t both)))

  -- `pair` returns a result: two streams, each with an open socket and a source of its own that
  -- were not there before, or an error, after which both sockets are closed and the table of the
  -- reactor is as it was, whichever of its steps failed.
  pub pair_lem : (o : S.Os) (r : Reactor X) → Pairs o r (pair X S register o r)
  unfolding pair
  pair_lem o r = pair_created_lem o r (S.pair o) refl
