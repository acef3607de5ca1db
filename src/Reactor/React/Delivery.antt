-- ===== src/Reactor/React/Delivery.antt =====
-- Whom one event wakes, and who still waits after it.
use async_io.Base.{
  ℕ, ◌≡◌, sym, subst, Bool, true, false, List, ◌++◌, some, In, In-append_left, In-append_right,
}
use async_io.Timers.{Waker}
use async_io.External.Poller.{Event}
use async_io.Reactor.{Platform, Dir, read, write, Direction, Source}
use async_io.Reactor.Sources.{direction}
use async_io.Reactor.Directions.Laws.{waiting}
use async_io.Reactor.React.{deliver}
use async_io.Reactor.React.Events.{IsEmitted, woken_by, deliver_lem}

-- The event reports the direction.
abbrev pub emits : Dir → Event → Bool
emits read ev = ev.readable
emits write ev = ev.writable

module _ (X : Platform) where
  -- The task `w` waits for a direction of the source under a key.
  abbrev pub WaitsAt : X.slab.Slab (Source X) → ℕ → Dir → Waker → Type 0
  WaitsAt sources key dir w =
      (s : Source X) × (X.slab.get sources key ≡ some s) × In w (waiting X (direction X dir s))

  pub In-woken_by :
      (d : Direction X) (b : Bool) (w : Waker)
      → b ≡ true
      → In w (waiting X d)
      → In w (woken_by X b d)
  In-woken_by d true w e h = h
  In-woken_by d false w e h = cc

  pub still_waits :
      (b : Bool) (d d' : Direction X) (tick : ℕ) (w : Waker)
      → b ≡ false
      → IsEmitted X b d d' tick
      → In w (waiting X d)
      → In w (waiting X d')
  still_waits true d d' tick w e h m = cc
  still_waits false d d' tick w e h m = subst (λ (x : Direction X). In w (waiting X x)) (sym h) m

  -- An event for the source that reports the direction wakes the task.
  pub deliver_wakes :
      (ev : Event) (tick : ℕ) (s : Source X) (p : X.poller.Poller) (wakers : List Waker) (dir : Dir)
      (w : Waker)
      → emits dir ev ≡ true
      → In w (waiting X (direction X dir s))
      → In w (deliver X ev tick s p wakers).2
  deliver_wakes ev tick s p wakers read w e h = rw (deliver_lem X ev tick s p wakers).2 (
      In-append_right w (wakers ++ woken_by X ev.writable s.writes) _
        (In-woken_by s.reads ev.readable w e h))
  deliver_wakes ev tick s p wakers write w e h = rw (deliver_lem X ev tick s p wakers).2 (
      In-append_left w (wakers ++ woken_by X ev.writable s.writes) _
        (In-append_right w wakers _ (In-woken_by s.writes ev.writable w e h)))

  pub deliver_keeps :
      (ev : Event) (tick : ℕ) (s : Source X) (p : X.poller.Poller) (wakers : List Waker) (w : Waker)
      → In w wakers
      → In w (deliver X ev tick s p wakers).2
  deliver_keeps ev tick s p wakers w h =
      rw (deliver_lem X ev tick s p wakers).2 (
        In-append_left w (wakers ++ woken_by X ev.writable s.writes) _
          (In-append_left w wakers _ h))

  -- An event that does not report the direction leaves the task waiting.
  pub deliver_waits :
      (ev : Event) (tick : ℕ) (s : Source X) (p : X.poller.Poller) (wakers : List Waker) (dir : Dir)
      (w : Waker)
      → emits dir ev ≡ false
      → In w (waiting X (direction X dir s))
      → In w (waiting X (direction X dir (deliver X ev tick s p wakers).0))
  deliver_waits ev tick s p wakers read w e h =
      still_waits ev.readable s.reads _ tick w e (deliver_lem X ev tick s p wakers).0 h
  deliver_waits ev tick s p wakers write w e h =
      still_waits ev.writable s.writes _ tick w e (deliver_lem X ev tick s p wakers).1 h
