-- ===== src/Reactor/React/Fresh.antt =====
-- `src/reactor.rs`: one direction of a source while rounds of the reactor and polls change its ticks.
-- The steps are the sections that a lock makes atomic: only the holder of the lock on the events
-- runs a round, and the direction's state is changed under the source's lock.
use async_io.Base.{
  ℕ, ◌+◌, ◌<◌, ◌≡◌, refl, ◌≢◌, ◌∙◌, ap, sym, subst, ◌⊎◌, inl, inr, Bool, true, false, ◌||◌,
  if◌then◌else◌, List, Option, none, some, Bool-cases, IoResult, ok, Poll, ready,
}
use async_io.Timers.{Waker}
use async_io.External.Poller.{Event}
use async_io.Reactor.{
  Platform, Dir, read, write, Source, Reactor, usize_mod, default_direction, new_reactor,
  get_ticker,
}
use async_io.Reactor.Sources.{delivered, direction, poll_ready}
use async_io.Reactor.Sources.Errors.{direction-set_direction}
use async_io.Reactor.Sources.Fresh.{
  Rounds, no_rounds, RoundStep, begin_round, deliver_event, end_round, remember, forget, RoundReach,
  here, next, delivered_fresh,
}
use async_io.Reactor.React.{deliver, begin_react}
use async_io.Reactor.React.Delivery.{emits}
use async_io.Reactor.React.Ticks.{
  deliver_stamps, begin_react_ticks, poll_ready-delivered, poll_ready-same, poll_ready-stored,
  poll_ready-waits,
}

module _ (X : Platform) where
  -- `in_flight` is the tick of a round that has begun and not ended. The last three are no state of
  -- the program: the number of rounds begun, whether a round has begun since a task that was not
  -- stored in the direction polled it, and whether such a round has delivered an event to it.
  pub record Watch : Type 0 where
    pub reactor : Reactor X
    pub source : Source X
    pub in_flight : Option ℕ
    pub rounds : ℕ
    pub began_since : Bool
    pub delivered_since : Bool

  -- A source that nobody has polled, in a new reactor.
  abbrev pub no_watch : X.poller.Poller → X.poller.Registration → ℕ → Watch
  no_watch p raw key = record {
    reactor = new_reactor X p;
    source = record {
      registration = raw;
      key = key;
      reads = default_direction X;
      writes = default_direction X;
    };
    in_flight = none;
    rounds = 0;
    began_since = false;
    delivered_since = false;
  }

  abbrev pub polled :
      Watch → Dir → Waker → Poll (IoResult (Unit {0})) × Source X × X.poller.Poller × List Waker
  polled s dir k = poll_ready X s.source dir k (get_ticker X s.reactor) s.reactor.poller

  abbrev pub with_poller : Reactor X → X.poller.Poller → Reactor X
  with_poller r p = record r { poller = p }

  start_direction :
      (dir : Dir) (p : X.poller.Poller) (raw : X.poller.Registration) (key : ℕ)
      → direction X dir (no_watch p raw key).source ≡ default_direction X
  start_direction read p raw key = refl
  start_direction write p raw key = refl

  module _ (dir : Dir) where
    pub data WatchStep (s : Watch) : Watch → Type 0 where
      begins :
          (timeout : Option ℕ) (now : ℕ)
          → s.in_flight ≡ none
          → WatchStep s (record s {
            reactor = (begin_react X s.reactor timeout now).0;
            in_flight = some (begin_react X s.reactor timeout now).3;
            rounds = s.rounds + 1;
            began_since = true;
          })
      delivers :
          (ev : Event) (t : ℕ) (wakers : List Waker)
          → s.in_flight ≡ some t
          → WatchStep s (record s {
            source = (deliver X ev t s.source s.reactor.poller wakers).0;
            reactor = with_poller s.reactor (deliver X ev t s.source s.reactor.poller wakers).1;
            delivered_since =
                if emits dir ev then s.delivered_since || s.began_since else s.delivered_since;
          })
      ends : WatchStep s (record s { in_flight = none })
      -- A poll by the task that is stored in the direction.
      polls_again :
          (k : Waker)
          → (direction X dir s.source).waker ≡ some k
          → WatchStep s (record s {
            source = (polled s dir k).1;
            reactor = with_poller s.reactor (polled s dir k).2;
          })
      -- A poll by another task.
      polls :
          (k : Waker)
          → (direction X dir s.source).waker ≢ some k
          → WatchStep s (record s {
            source = (polled s dir k).1;
            reactor = with_poller s.reactor (polled s dir k).2;
            began_since = false;
            delivered_since = false;
          })
      -- What leaves the ticker and the direction's ticks and waker alone, as polls of the other
      -- direction and of futures, and insertions and removals.
      elsewhere :
          (r : Reactor X) (src : Source X)
          → get_ticker X r ≡ get_ticker X s.reactor
          → (direction X dir src).tick ≡ (direction X dir s.source).tick
          → (direction X dir src).ticks ≡ (direction X dir s.source).ticks
          → (direction X dir src).waker ≡ (direction X dir s.source).waker
          → WatchStep s (record s { reactor = r; source = src })

    pub data WatchReach (s : Watch) : Watch → Type 0 where
      stays : WatchReach s s
      goes : {t u : Watch} → WatchReach s t → WatchStep t u → WatchReach s u

    -- What concerns the ticks.
    abbrev view : Watch → Rounds
    view s = record {
      ticker = s.reactor.ticker;
      in_flight = s.in_flight;
      tick = (direction X dir s.source).tick;
      ticks = (direction X dir s.source).ticks;
      rounds = s.rounds;
      began_since = s.began_since;
      delivered_since = s.delivered_since;
    }

    abbrev Follows : Watch → Watch → Type 0
    Follows s u = RoundStep (view s) (view u) ⊎ (view u ≡ view s)

    poll_again_lem :
        (s : Watch) (k : Waker)
        → (direction X dir s.source).waker ≡ some k
        → Follows s (record s {
          source = (polled s dir k).1;
          reactor = with_poller s.reactor (polled s dir k).2;
        })
    poll_again_lem s k e =
        let d = direction X dir s.source in
        elim (Bool-cases (delivered d.tick d.ticks)) [
          | inl f ↦
              rw
                (
                  poll_ready-delivered X s.source dir k _ s.reactor.poller f,
                  direction-set_direction X dir (record d { ticks = none }) s.source,
                )
                (inl (forget (view s) s.began_since s.delivered_since))
          | inr f ↦ rw (poll_ready-same X s.source dir k _ s.reactor.poller f e) (inr refl)
        ]

    poll_lem :
        (s : Watch) (k : Waker)
        → (direction X dir s.source).waker ≢ some k
        → Follows s (record s {
          source = (polled s dir k).1;
          reactor = with_poller s.reactor (polled s dir k).2;
          began_since = false;
          delivered_since = false;
        })
    unfolding get_ticker
    poll_lem s k ne =
        let d = direction X dir s.source in
        elim (Bool-cases (delivered d.tick d.ticks)) [
          | inl f ↦
              rw
                (
                  poll_ready-delivered X s.source dir k _ s.reactor.poller f,
                  direction-set_direction X dir (record d { ticks = none }) s.source,
                )
                (inl (forget (view s) false false))
          | inr f ↦
              rw (poll_ready-stored X s.source dir k _ s.reactor.poller f ne)
                (inl (remember (view s)))
        ]

    deliver-Follows :
        (s : Watch) (ev : Event) (t : ℕ) (wakers : List Waker)
        → s.in_flight ≡ some t
        → Follows s (record s {
          source = (deliver X ev t s.source s.reactor.poller wakers).0;
          reactor = with_poller s.reactor (deliver X ev t s.source s.reactor.poller wakers).1;
          delivered_since =
              if emits dir ev then s.delivered_since || s.began_since else s.delivered_since;
        })
    deliver-Follows s ev t wakers f =
        let (a, b) = deliver_stamps X dir ev t s.source s.reactor.poller wakers in
        elim (Bool-cases (emits dir ev)) [
          | inl e ↦ rw (a, b, e) (inl (deliver_event (view s) t f))
          | inr e ↦ rw (a, b, e) (inr refl)
        ]

    WatchStep-Follows : {s u : Watch} → WatchStep s u → Follows s u
    WatchStep-Follows {s} (begins timeout now idle) =
        let (a, b) = begin_react_ticks X s.reactor timeout now in
        inl (rw (a, b) (begin_round (view s) idle))
    WatchStep-Follows {s} (delivers ev t wakers f) = deliver-Follows s ev t wakers f
    WatchStep-Follows {s} ends = inl (end_round (view s))
    WatchStep-Follows {s} (polls_again k e) = poll_again_lem s k e
    WatchStep-Follows {s} (polls k e) = poll_lem s k e
    WatchStep-Follows {s} (elsewhere r src e f g h) = inr (unfold get_ticker in rw (e, f, g) refl)

    WatchReach-RoundReach :
        (p : X.poller.Poller) (raw : X.poller.Registration) (key : ℕ) {s : Watch}
        → WatchReach (no_watch p raw key) s
        → RoundReach no_rounds (view s)
    unfolding new_reactor default_direction
    WatchReach-RoundReach p raw key stays = rw (start_direction dir p raw key) here
    WatchReach-RoundReach p raw key (goes path step) = elim (WatchStep-Follows step) [
      | inl r ↦ next (WatchReach-RoundReach p raw key path) r
      | inr e ↦
          subst (λ (x : Rounds). RoundReach no_rounds x) (sym e)
            (WatchReach-RoundReach p raw key path)
    ]

    -- From a source that nobody has polled, in a new reactor, in every interleaving of fewer than
    -- 2^64 rounds that begin, events that they deliver to the source, and polls of a direction by
    -- any tasks: while the direction holds ticks, `poll_ready` returns `Ok` if a round that began
    -- after the last poll by a task that was not stored then has delivered an event for the
    -- direction, and it does not if no such round has: an event from a round already under way does
    -- not count.
    pub poll_ready_fresh :
        (p : X.poller.Poller) (raw : X.poller.Registration) (key : ℕ) (s : Watch) (k : Waker)
        → WatchReach (no_watch p raw key) s
        → s.rounds < usize_mod
        → (direction X dir s.source).ticks ≢ none
        → (s.delivered_since ≡ true → (polled s dir k).0 ≡ ready (ok tt))
          × (s.delivered_since ≡ false → (polled s dir k).0 ≢ ready (ok tt))
    poll_ready_fresh p raw key s k path h ne =
        let e = delivered_fresh (view s) (WatchReach-RoundReach p raw key path) h ne in
        (
          λ yes_since. ap (λ x. x.0) (poll_ready-delivered X s.source dir k _ _ (e ∙ yes_since)),
          λ no_since. poll_ready-waits X s.source dir k _ _ (e ∙ no_since),
        )
