-- ===== src/System/Timers.antt =====
-- In every interleaving, the round does not sleep past a timer unless it has been notified.
pub mod Same
use async_io.Base.{
  ℕ, ◌+◌, ◌<◌, ◌≤◌, ◌≡◌, refl, ◌∙◌, sym, ap, subst, inl, inr, Bool, true, false, List, [], ◌∷◌,
  Option, none, some, Option-cases, In, IoResult, ok, err, Poll, arith, if◌then◌else◌,
}
use async_io.Base.{some_injective}
use async_io.Timers.{Waker, Entry, insert_op, remove, split_off, key_eq, apply_ops}
use async_io.Timers.Order.{IsSorted, insert-IsSorted, remove-IsSorted, split_off-IsSorted}
use async_io.External.Poller.{Event}
use async_io.Reactor.{Platform, Dir, Source, Reactor, new_reactor, timer_queue_size}
use async_io.Reactor.TimerQueue.{insert_timer, remove_timer}
use async_io.Reactor.TimerQueue.Schedule.{scheduled, HasRoom}
use async_io.Reactor.TimerQueue.Laws.{insert_timer_lem, remove_timer_lem}
use async_io.Reactor.Sources.{Ready}
use async_io.Reactor.Io.{insert_io, remove_io, poll_source, poll_ready_future, drop_ready_future}
use async_io.Reactor.Fire.{process_timers}
use async_io.Reactor.Fire.Laws.{process_timers-Keeps, scheduled-process_timers}
use async_io.Reactor.React.{begin_react, deliver, dispatch}
use async_io.Reactor.React.Events.{after_event, dispatch-none, dispatch_ok, dispatch_err}
use async_io.Reactor.Sources.Cover.{IoResult-cases}
use async_io.Reactor.React.Timeout.{begin_react-timeout}
use async_io.System.{
  Phase, idle, waiting, firing, dispatching, after_wait, after_wait-no_events, System, initial,
  Step, polls, polls_future, drops_future, inserts_io, removes_io, inserts_timer, removes_timer,
  notifies, begins, returns, fails, dispatches, breaks, fires, ends,
}
use async_io.System.Timers.Same.{
  SameTimers, poll_source-SameTimers, poll_ready_future-SameTimers, drop_ready_future-SameTimers,
  insert_io-SameTimers, notify-SameTimers, remove_io-SameTimers, dispatch-SameTimers,
}

-- While the poller waits and has not been notified, no scheduled timer is due before the wait ends;
-- without a timeout there is none.
abbrev pub InTime : Phase → Bool → List Entry → Type 0
InTime idle notified m = Unit {0}
InTime (firing tick wakers) notified m = Unit {0}
InTime (dispatching evs tick wakers) notified m = Unit {0}
InTime (waiting now none tick wakers) notified m = notified ≡ false → (x : Entry) → In x m → ⊥
InTime (waiting now (some d) tick wakers) notified m =
    notified ≡ false → (x : Entry) → In x m → now + d ≤ x.when

after_wait-InTime :
    (evs : List Event) (timeout : Option ℕ) (tick : ℕ) (wakers : List Waker) (b : Bool)
    (m : List Entry)
    → InTime (after_wait evs timeout tick wakers) b m
after_wait-InTime [] timeout tick wakers b m = elim (after_wait-no_events timeout tick wakers) [
  | inl e ↦ rw e tt
  | inr e ↦ rw e tt
]
after_wait-InTime (ev ∷ evs) timeout tick wakers b m = unfold after_wait in tt

In-remove : (when id : ℕ) (x : Entry) (m : List Entry) → In x (remove when id m) → In x m
unfolding remove
In-remove when id x [] h = h
In-remove when id x (y ∷ m) h = ground (arith, In-remove when id x m)

InTime-fewer :
    (ph : Phase) (b : Bool) (m m' : List Entry)
    → ((x : Entry) → In x m' → In x m)
    → InTime ph b m
    → InTime ph b m'
InTime-fewer idle b m m' h v = tt
InTime-fewer (firing tick wakers) b m m' h v = tt
InTime-fewer (dispatching evs tick wakers) b m m' h v = tt
InTime-fewer (waiting now none tick wakers) b m m' h v = λ f x i. v f x (h x i)
InTime-fewer (waiting now (some d) tick wakers) b m m' h v = λ f x i. v f x (h x i)

InTime-notified : (ph : Phase) (m : List Entry) → InTime ph true m
InTime-notified idle m = tt
InTime-notified (firing tick wakers) m = tt
InTime-notified (dispatching evs tick wakers) m = tt
InTime-notified (waiting now none tick wakers) m = λ f. absurd (cc)
InTime-notified (waiting now (some d) tick wakers) m = λ f. absurd (cc)

no_member : (x : Entry) (w i : ℕ) {m m' : List Entry} → m' ≡ split_off w i m → m ≡ [] → In x m' → ⊥
unfolding split_off
no_member x w i e f h = subst (λ (l : List Entry). In x l) (e ∙ ap (split_off w i) f) h

module _ (X : Platform) where
  pub record TimersInv (s : System X) : Type 0 where
    pub room : HasRoom X s.reactor
    pub sorted : IsSorted (scheduled X s.reactor)
    pub in_time : InTime s.phase s.notified (scheduled X s.reactor)

  same_TimersInv :
      (s : System X) (r' : Reactor X) (woken : List Waker) (lost : List ℕ)
      → SameTimers X s.reactor r'
      → TimersInv s
      → TimersInv (record s { reactor = r'; woken = woken; lost = lost })
  same_TimersInv s r' woken lost k v = record {
    room = rw k.capacity v.room;
    sorted = rw k.same v.sorted;
    in_time = rw k.same v.in_time;
  }

  begin_react-scheduled :
      (r : Reactor X) (timeout : Option ℕ) (now : ℕ)
      → (X.queue.capacity (begin_react X r timeout now).0.timer_ops ≡ X.queue.capacity r.timer_ops)
        × (scheduled X (begin_react X r timeout now).0 ≡ split_off (now + 1) 0 (scheduled X r))
  unfolding begin_react scheduled
  begin_react-scheduled r timeout now =
      ((process_timers-Keeps X r [] now).capacity, scheduled-process_timers X r [] now)

  begin_react-InTime :
      (r : Reactor X) (timeout : Option ℕ) (now tick : ℕ) (wakers : List Waker)
      → IsSorted (scheduled X r)
      → (t : Option ℕ) → (begin_react X r timeout now).2 ≡ t
      → InTime (waiting now t tick wakers) false (scheduled X (begin_react X r timeout now).0)
  begin_react-InTime r timeout now tick wakers s none e = λ _ x m.
      no_member x _ _ (begin_react-scheduled r timeout now).1
        ((begin_react-timeout X r timeout now s).0 e).0 m
  begin_react-InTime r timeout now tick wakers s (some d) e =
      λ _ x m. ((begin_react-timeout X r timeout now s).1 d e).0 x m

  pub Step-TimersInv : {s t : System X} → Step X s t → TimersInv s → TimersInv t
  Step-TimersInv {s} (polls key dir k src out e f) v =
      same_TimersInv s out.1 _ _ (poll_source-SameTimers X s.reactor key dir k out f) v
  Step-TimersInv {s} (polls_future key f k src out e g) v =
      same_TimersInv s out.2 _ _ (poll_ready_future-SameTimers X s.reactor key f k out g) v
  Step-TimersInv {s} (drops_future key f src r e g) v =
      same_TimersInv s r _ _ (drop_ready_future-SameTimers X s.reactor key f r g) v
  Step-TimersInv {s} (inserts_io raw) v =
      same_TimersInv s _ _ _ (insert_io-SameTimers X s.reactor raw) v
  Step-TimersInv {s} (removes_io src e) v =
      same_TimersInv s _ _ _ (remove_io-SameTimers X s.reactor src) v
  Step-TimersInv {s} (inserts_timer when k) v =
      let kept = insert_timer_lem X s.reactor when k v.room in
      record {
        room = kept.2;
        sorted = rw kept.1 (insert-IsSorted when _ k _ v.sorted);
        in_time = InTime-notified s.phase _;
      }
  Step-TimersInv {s} (removes_timer when id) v =
      let (m, kept) = remove_timer_lem X s.reactor when id v.room in
      record {
        room = rw kept.capacity v.room;
        sorted = rw m (remove-IsSorted when id _ v.sorted);
        in_time = rw m (InTime-fewer s.phase s.notified _ _ (λ x. In-remove when id x _) v.in_time);
      }
  Step-TimersInv {s} notifies v = same_TimersInv s _ _ _ (notify-SameTimers X s.reactor) v
  Step-TimersInv {s} (begins timeout now e) v =
      let (c, m) = begin_react-scheduled s.reactor timeout now in
      record {
        room = rw c v.room;
        sorted = rw m (split_off-IsSorted (now + 1) 0 _ v.sorted);
        in_time = begin_react-InTime s.reactor timeout now _ _ v.sorted _ refl;
      }
  Step-TimersInv {s} (returns now timeout tick wakers evs e f) v =
      unfold scheduled in
      record {
        room = v.room;
        sorted = v.sorted;
        in_time = after_wait-InTime evs timeout tick wakers s.notified _;
      }
  Step-TimersInv {s} (fails now timeout tick wakers x e f) v =
      unfold scheduled in record { room = v.room; sorted = v.sorted; in_time = tt }
  Step-TimersInv {s} (dispatches ev evs tick wakers e f) v =
      let k = dispatch-SameTimers X (ev ∷ []) tick s.reactor wakers in
      record { room = rw k.capacity v.room; sorted = rw k.same v.sorted; in_time = tt }
  Step-TimersInv {s} (breaks ev evs tick wakers x e f) v =
      let k = dispatch-SameTimers X (ev ∷ []) tick s.reactor wakers in
      record { room = rw k.capacity v.room; sorted = rw k.same v.sorted; in_time = tt }
  Step-TimersInv {s} (fires later tick wakers e) v = record {
    room = rw ((process_timers-Keeps X s.reactor wakers later).capacity) v.room;
    sorted =
        rw (scheduled-process_timers X s.reactor wakers later)
          (split_off-IsSorted (later + 1) 0 _ v.sorted);
    in_time = tt;
  }
  Step-TimersInv {s} (ends tick wakers e) v = record {
    room = v.room;
    sorted = v.sorted;
    in_time = tt;
  }

  pub start-TimersInv : (p : X.poller.Poller) → TimersInv (initial X p)
  unfolding new_reactor scheduled apply_ops
  start-TimersInv p =
      let empty = X.queue.contents-bounded timer_queue_size in
      record {
        room = rw (X.queue.capacity-bounded timer_queue_size) (omega arith);
        sorted = rw (empty, apply_ops) tt;
        in_time = tt;
      }
