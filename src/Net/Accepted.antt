-- ===== src/Net/Accepted.antt =====
-- A failing `accept` keeps no connection.
use async_io.Base.{ℕ, ◌≡◌, refl, some, IoResult, ok, err, Poll, pending, ready}
use async_io.External.Sockets.{Sockets}
use async_io.Reactor.{Platform, Reactor, read}
use async_io.Timers.{Waker}
use async_io.Async.Loops.{Progress, poll_with}
use async_io.Net.Accept.{accepted, poll_accept}
use async_io.Net.Opens.{IsNew}
use async_io.Net.Placed.{Live, MadeResult, Undone, new_stream_lem}
use async_io.Net.Streams.{Made, Stream, new_stream}

module _ (X : Platform) (S : Sockets) (register : ℕ → X.poller.Registration) where
  abbrev pub AcceptResult :
      (A : Type 0)
      → A
      → S.Os
      → Reactor X
      → Poll (IoResult (Stream X S register × A)) × Progress × S.Os × Reactor X
      → Type 0
  AcceptResult A addr o r (pending, at, o', r') = ⊥
  AcceptResult A addr o r (ready (ok (a, from)), at, o', r') =
      (from ≡ addr) × Live X S register o r a o' r'
  AcceptResult A addr o r (ready (err e), at, o', r') = Undone X S register o r o' r'

  accepted_lem :
      (A : Type 0) (addr : A) (at : Progress) (o : S.Os) (r : Reactor X) (m : Made X S register)
      → MadeResult X S register o r m
      → (out : Poll (IoResult (Stream X S register × A)) × Progress × S.Os × Reactor X) × (accepted
            X S register A addr at m
          ≡ some out)
        × AcceptResult A addr o r out
  unfolding accepted
  accepted_lem A addr at o r (ok a, o', r') v =
      ((ready (ok (a, addr)), at, o', r'), refl, (refl, v))
  accepted_lem A addr at o r (err e, o', r') v = ((ready (err e), at, o', r'), refl, v)

  pub poll_accept_lem :
      (A : Type 0) (fuel : ℕ) (op : S.Os → IoResult (ℕ × A) × S.Os) (o0 o o' : S.Os)
      (r r' : Reactor X) (key : ℕ) (at at' : Progress) (k : Waker) (s : ℕ) (addr : A)
      → poll_with X S.Os (ℕ × A) fuel read op o r key at k
        ≡ some (ready (ok (s, addr)), at', o', r')
      → IsNew S o0 o' s
      → (out : Poll (IoResult (Stream X S register × A)) × Progress × S.Os × Reactor X)
        × (poll_accept X S register A fuel op o r key at k ≡ some out)
        × AcceptResult A addr o0 r' out
  unfolding poll_accept
  poll_accept_lem A fuel op o0 o o' r r' key at at' k s addr e new =
      rw (e, poll_accept)
        (accepted_lem A addr at' o0 r' (new_stream X S register o' r' s)
          (new_stream_lem X S register o0 o' r' s new))
