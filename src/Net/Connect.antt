-- ===== src/Net/Connect.antt =====
-- The `async fn connect` leaks nothing: on every error path its socket is closed and its source is
-- out of the reactor.
use async_io.Base.{ℕ, ◌≡◌, refl, Option, some, ErrorKind, IoResult, ok, err, Poll, pending, ready}
use async_io.External.Sockets.{Sockets}
use async_io.Timers.{Waker}
use async_io.Reactor.{Platform, write, Reactor}
use async_io.Reactor.Sources.{Ready, new_ready}
use async_io.Reactor.Io.{poll_ready_future}
use async_io.Net.Connecting.{
  Connecting, await_adopted, await_started, await_writable, awaiting_writable, checked_connect,
  connected, fail_connect, finish_connect, poll_connect, starting,
}
use async_io.Net.Opens.{Created, SameOpen}
use async_io.Net.Placed.{
  Live, MadeResult, Undone, adopt_lem, drop_ready_future-Placed, drop_stream_lem, later_Live,
  poll_ready_future-Placed,
}
use async_io.Net.Streams.{Made, Stream, adopt}

module _ (X : Platform) (S : Sockets) (register : ℕ → X.poller.Registration) where
  -- Where a poll of `connect` may leave off.
  abbrev pub ConnectResult :
      S.Os
      → Reactor X
      → Poll (IoResult (Stream X S register)) × Connecting (Stream X S register) × S.Os × Reactor X
      → Type 0
  ConnectResult o r (pending, c, o', r') =
      (a : Stream X S register) × (f : Ready) × (c ≡ awaiting_writable a f)
      × Live X S register o r a o' r'
  ConnectResult o r (ready (ok a), c, o', r') = Live X S register o r a o' r'
  ConnectResult o r (ready (err e), c, o', r') = Undone X S register o r o' r'

  abbrev pub Connects :
      S.Os
      → Reactor X
      → Option (
          Poll (IoResult (Stream X S register))
          × Connecting (Stream X S register)
          × S.Os
          × Reactor X)
      → Type 0
  Connects o r x =
      (out : Poll (IoResult (Stream X S register))
        × Connecting (Stream X S register)
        × S.Os
        × Reactor X)
      × (x ≡ some out)
      × ConnectResult o r out

  fail_connect_lem :
      (o0 : S.Os) (r0 : Reactor X) (e : ErrorKind) (a : Stream X S register) (o : S.Os)
      (r : Reactor X)
      → Live X S register o0 r0 a o r
      → Connects o0 r0 (fail_connect X S register e a o r)
  unfolding fail_connect
  fail_connect_lem o0 r0 e a o r v =
      let (out, dropped, undone) = drop_stream_lem X S register o0 r0 a o r v in
      ((ready (err e), connected, out.0, out.1), rw (dropped, fail_connect) refl, undone)

  checked_connect_lem :
      (o0 : S.Os) (r0 : Reactor X) (a : Stream X S register) (r : Reactor X)
      (x : S.Os × IoResult (Unit {0}))
      → Live X S register o0 r0 a x.0 r
      → Connects o0 r0 (checked_connect X S register a r x)
  unfolding checked_connect
  checked_connect_lem o0 r0 a r (o, ok u) v = ((ready (ok a), connected, o, r), refl, v)
  checked_connect_lem o0 r0 a r (o, err e) v = fail_connect_lem o0 r0 e a o r v

  -- A check that opens and closes nothing.
  abbrev pub IsCheck : (S.Os → ℕ → S.Os × IoResult (Unit {0})) → Type 0
  IsCheck check = (o : S.Os) (s : ℕ) → SameOpen S o (check o s).0

  module _ (check : S.Os → ℕ → S.Os × IoResult (Unit {0})) (calm : IsCheck check) where
    finish_connect_lem :
        (o0 : S.Os) (r0 : Reactor X) (a : Stream X S register) (res : IoResult (Unit {0}))
        (o : S.Os) (r : Reactor X)
        → Live X S register o0 r0 a o r
        → Connects o0 r0 (finish_connect X S register check a res o r)
    unfolding finish_connect
    finish_connect_lem o0 r0 a (err e) o r v = fail_connect_lem o0 r0 e a o r v
    finish_connect_lem o0 r0 a (ok u) o r v =
        let checked = checked_connect_lem o0 r0 a r (check o v.socket) (
          later_Live X S register o0 r0 a o (check o v.socket).0 r r v (calm o v.socket)
            v.placed) in
        (checked.0, rw (v.io, finish_connect) checked.1, checked.2)

    await_writable_lem :
        (o0 : S.Os) (r0 : Reactor X) (a : Stream X S register) (f : Ready) (o : S.Os)
        (r : Reactor X) (k : Waker)
        → Live X S register o0 r0 a o r
        → Connects o0 r0 (await_writable X S register check a f o r k)
    unfolding await_writable
    await_writable_lem o0 r0 a f o r k v =
        let ((res, f', r'), polled, placed) =
          poll_ready_future-Placed X r0 r a.source f k v.placed in
        settle res f' r' polled (later_Live X S register o0 r0 a o o r r' v (λ fd. refl) placed)
      where
        settle :
            (res : Poll (IoResult (Unit {0}))) (f' : Ready) (r' : Reactor X)
            → poll_ready_future X r a.source f k ≡ some (res, f', r')
            → Live X S register o0 r0 a o r'
            → Connects o0 r0 (await_writable X S register check a f o r k)
        settle pending f' r' e w = (
          (pending, awaiting_writable a f', o, r'),
          rw (e, await_writable) refl,
          (a, f', refl, w),
        )
        settle (ready x) f' r' e w =
            let (r2, dropped, placed) = drop_ready_future-Placed X r0 r' a.source f' w.placed in
            let done =
              finish_connect_lem o0 r0 a x o r2
                (later_Live X S register o0 r0 a o o r' r2 w (λ fd. refl) placed) in
            (done.0, rw (e, await_writable) (rw (dropped, await_writable) done.1), done.2)

    await_adopted_lem :
        (o0 : S.Os) (r0 : Reactor X) (k : Waker) (m : Made X S register)
        → MadeResult X S register o0 r0 m
        → Connects o0 r0 (await_adopted X S register check k m)
    unfolding await_adopted
    await_adopted_lem o0 r0 k (err e, o, r) v = ((ready (err e), connected, o, r), refl, v)
    await_adopted_lem o0 r0 k (ok a, o, r) v = await_writable_lem o0 r0 a (new_ready write) o r k v

    await_started_lem :
        (o0 : S.Os) (r : Reactor X) (k : Waker) (x : S.Os × IoResult ℕ)
        → Created S o0 x
        → Connects o0 r (await_started X S register check k r x)
    unfolding await_started
    await_started_lem o0 r k (o, err e) c = ((ready (err e), connected, o, r), refl, (c, λ j. refl))
    await_started_lem o0 r k (o, ok s) c =
        await_adopted_lem o0 r k (adopt X S register o r s) (adopt_lem X S register o0 o r s c)

    -- What a `connect` that has not returned holds, beside the sockets `o` and the reactor `r`.
    abbrev pub Holds :
        S.Os → Reactor X → Connecting (Stream X S register) → S.Os → Reactor X → Type 0
    Holds o r starting o' r' = (o' ≡ o) × (r' ≡ r)
    Holds o r (awaiting_writable a f) o' r' = Live X S register o r a o' r'
    Holds o r connected o' r' = ⊥

    -- For a `connect` whose beginning either creates one socket or leaves the sockets as they are,
    -- and whose check opens and closes nothing: a poll before it has returned gives a result. Where
    -- that is an error, its socket is closed and its source is out of the reactor's table, which
    -- are otherwise as they were; where it is pending or the stream, socket and source are there,
    -- and nothing else has changed.
    pub poll_connect_lem :
        (start : S.Os → S.Os × IoResult ℕ)
        → ((o : S.Os) → Created S o (start o))
        → (o0 : S.Os) (r0 : Reactor X) (c : Connecting (Stream X S register)) (o : S.Os)
          (r : Reactor X) (k : Waker)
        → Holds o0 r0 c o r
        → Connects o0 r0 (poll_connect X S register start check c o r k)
    unfolding poll_connect
    poll_connect_lem start created o0 r0 starting o r k (e, f) =
        rw (e, f) (await_started_lem o0 r0 k (start o0) (created o0))
    poll_connect_lem start created o0 r0 (awaiting_writable a f) o r k v =
        await_writable_lem o0 r0 a f o r k v
    poll_connect_lem start created o0 r0 connected o r k v = absurd v
