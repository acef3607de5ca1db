-- ===== src/Net/Placed.antt =====
-- A stream that is the one thing beyond a given state: how it comes and goes.
use async_io.Base.{
  ℕ, ◌≡◌, refl, ◌∙◌, ap, inl, inr, false, Option, none, some, IoResult, ok, err, Poll, arith, ◌==◌,
}
use async_io.External.Sockets.{Sockets}
use async_io.Timers.{Waker}
use async_io.Reactor.{Platform, Source, Reactor, get_ticker}
use async_io.Reactor.Sources.{Ready, poll_future, drop_future}
use async_io.Reactor.Sources.Serves.{poll_future-Serves, drop_future-Serves}
use async_io.Reactor.Io.{poll_ready_future, drop_ready_future, remove_io}
use async_io.Async
use async_io.Async.{deregister_io}
use async_io.Reactor.Sources.Cover.{IoResult-cases}
use async_io.Async.Handles.{new_source, new_nonblocking_ok, new_nonblocking_err}
use async_io.Net.Create.{set_nonblocking}
use async_io.Net.Opens.{Created, IsNew, SameOpen, closed-SameOpen, set_nonblocking-SameOpen}
use async_io.Net.Streams.{
  Made, Stream, adopt, adopt_nonblocking, adopted, bind, close_io, drop_stream, new_stream,
}

module _ (X : Platform) where
  abbrev pub SameTable : Reactor X → Reactor X → Type 0
  SameTable r r' = (j : ℕ) → X.slab.get r'.sources j ≡ X.slab.get r.sources j

  -- The source of a handle stands in the table under its key, and other places are as before.
  pub record Placed (key : ℕ) (r r' : Reactor X) : Type 0 where
    pub source : Source X
    pub here : X.slab.get r'.sources key ≡ some source
    pub same_key : source.key ≡ key
    pub others : (j : ℕ) → (key == j) ≡ false → X.slab.get r'.sources j ≡ X.slab.get r.sources j

  set-Placed :
      (key : ℕ) (r0 r : Reactor X) (s' : Source X) (p : X.poller.Poller) (v : Placed key r0 r)
      → s'.key ≡ v.source.key
      → Placed key r0 (record r { poller = p; sources = X.slab.set r.sources key s' })
  set-Placed key r0 r s' p v e =
      let at = λ (j : ℕ). X.slab.get-set r.sources key s' j (λ z. ground (arith, v.here)) in
      record {
        source = s';
        here = at key ∙ ground arith;
        same_key = e ∙ v.same_key;
        others = λ j ne. at j ∙ ground (arith, v.others j);
      }

  pub poll_ready_future-Placed :
      (r0 r : Reactor X) (key : ℕ) (f : Ready) (k : Waker)
      → Placed key r0 r
      → (out : Poll (IoResult (Unit {0})) × Ready × Reactor X) × (poll_ready_future X r key f k
          ≡ some out)
        × Placed key r0 out.2
  unfolding poll_ready_future get_ticker
  poll_ready_future-Placed r0 r key f k v =
      let out = poll_future X f v.source k r.ticker r.poller in
      let kept = (poll_future-Serves X f v.source k r.ticker r.poller).keeps in
      (
        (out.0, out.1, record r { poller = out.3; sources = X.slab.set r.sources key out.2 }),
        rw (v.here, poll_ready_future) refl,
        set-Placed key r0 r out.2 out.3 v kept.key,
      )

  pub drop_ready_future-Placed :
      (r0 r : Reactor X) (key : ℕ) (f : Ready)
      → Placed key r0 r
      → (r' : Reactor X) × (drop_ready_future X r key f ≡ some r') × Placed key r0 r'
  unfolding drop_ready_future
  drop_ready_future-Placed r0 r key f v =
      let s' = drop_future X f v.source in
      let kept = (drop_future-Serves X f v.source r.poller).keeps in
      (
        record r { poller = r.poller; sources = X.slab.set r.sources key s' },
        rw (v.here, drop_ready_future) refl,
        set-Placed key r0 r s' r.poller v kept.key,
      )

module _ (X : Platform) (S : Sockets) (register : ℕ → X.poller.Registration) where
  -- The stream is the one thing that there is beyond the sockets `o` and the reactor `r`: its
  -- socket, and its source at a place that was free.
  pub record Live (o : S.Os) (r : Reactor X) (a : Stream X S register) (o' : S.Os) (r' : Reactor X)
      : Type 0 where
    pub socket : ℕ
    pub io : a.io ≡ some socket
    pub opened : IsNew S o o' socket
    pub free : X.slab.get r.sources a.source ≡ none
    pub placed : Placed X a.source r r'

  -- Nothing is left.
  abbrev pub Undone : S.Os → Reactor X → S.Os → Reactor X → Type 0
  Undone o r o' r' = SameOpen S o o' × SameTable X r r'

  pub drop_stream_lem :
      (o : S.Os) (r : Reactor X) (a : Stream X S register) (o' : S.Os) (r' : Reactor X)
      → Live o r a o' r'
      → (out : S.Os × Reactor X) × (drop_stream X S register a o' r' ≡ some out)
        × Undone o r out.0 out.1
  unfolding drop_stream Async.drop deregister_io remove_io
  drop_stream_lem o r a o' r' v =
      let removed = (remove_io X r' v.placed.source).1 in
      (
        (S.close o' v.socket, removed),
        rw (v.io, drop_stream, Async.drop)
            (rw (v.placed.here, drop_stream, Async.drop, deregister_io)
              (ap (λ (x : Option ℕ). some (close_io X S register x o', removed)) v.io)),
        (
          closed-SameOpen S o o' o' v.socket v.opened (λ fd. refl),
          λ j.
              let gone =
                X.slab.get-remove r'.sources v.placed.source.key j
                  (λ z. ground (arith, v.placed.here, v.placed.same_key)) in
              gone ∙ ground (arith, v.placed.same_key, v.placed.others j, v.free),
        ),
      )

  abbrev pub MadeResult : S.Os → Reactor X → Made X S register → Type 0
  MadeResult o r (ok a, o', r') = Live o r a o' r'
  MadeResult o r (err e, o', r') = Undone o r o' r'

  pub adopt_lem :
      (o0 o : S.Os) (r : Reactor X) (s : ℕ)
      → IsNew S o0 o s
      → MadeResult o0 r (adopt X S register o r s)
  unfolding adopt adopted
  adopt_lem o0 o r s new =
      elim (IoResult-cases (X.poller.add (register s) r.poller (X.slab.vacant_key r.sources)).1) [
        | inl fine ↦
            let at = X.slab.get-insert r.sources (new_source X ℕ r (register s)) in
            rw (new_nonblocking_ok X ℕ register s r fine, adopt)
              (record {
                socket = s;
                io = refl;
                opened = new;
                free = X.slab.get-vacant_key r.sources;
                placed = record {
                  source = new_source X ℕ r (register s);
                  here = at (X.slab.vacant_key r.sources) ∙ ground arith;
                  same_key = refl;
                  others = λ j ne. at j ∙ ground arith;
                };
              })
        | inr (k, bad) ↦
            let (r', whole, same) = new_nonblocking_err X ℕ register s r k bad in
            rw (whole, adopt) (closed-SameOpen S o0 o o s new (λ fd. refl), same)
      ]

  pub later_Live :
      (o0 : S.Os) (r0 : Reactor X) (a : Stream X S register) (o o' : S.Os) (r r' : Reactor X)
      (v : Live o0 r0 a o r)
      → SameOpen S o o'
      → Placed X a.source r0 r'
      → Live o0 r0 a o' r'
  later_Live o0 r0 a o o' r r' v same placed = record {
    socket = v.socket;
    io = v.io;
    opened = (v.opened.0, λ fd. same fd ∙ v.opened.1 fd);
    free = v.free;
    placed = placed;
  }

  adopt_nonblocking_lem :
      (o0 o : S.Os) (r : Reactor X) (s : ℕ) (x : S.Os × IoResult (Unit {0}))
      → IsNew S o0 o s
      → SameOpen S o x.0
      → MadeResult o0 r (adopt_nonblocking X S register r s x)
  unfolding adopt_nonblocking
  adopt_nonblocking_lem o0 o r s (o', ok u) new same =
      adopt_lem o0 o' r s (new.0, λ fd. same fd ∙ new.1 fd)
  adopt_nonblocking_lem o0 o r s (o', err e) new same =
      (closed-SameOpen S o0 o o' s new same, λ j. refl)

  -- `Async::new` makes a stream of a new socket, or closes it.
  pub new_stream_lem :
      (o0 o : S.Os) (r : Reactor X) (s : ℕ)
      → IsNew S o0 o s
      → MadeResult o0 r (new_stream X S register o r s)
  unfolding new_stream
  new_stream_lem o0 o r s new =
      adopt_nonblocking_lem o0 o r s (set_nonblocking S o s) new (set_nonblocking-SameOpen S o s)

  pub bind_lem :
      (o : S.Os) (r : Reactor X) (x : S.Os × IoResult ℕ)
      → Created S o x
      → MadeResult o r (bind X S register r x)
  unfolding bind
  bind_lem o r (o', err e) c = (c, λ j. refl)
  bind_lem o r (o', ok s) c = new_stream_lem o o' r s c
