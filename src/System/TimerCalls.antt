-- ===== src/System/TimerCalls.antt =====
-- The methods of `Timer` as steps of the shared reactor.
use async_io.Base.{Bool}
use async_io.Reactor.{Platform, Reactor}
use async_io.Timer
use async_io.Timer.{Timer}
use async_io.Timer.Registered.{IsValid}
use async_io.System.{System, Reach}

module _ (X : Platform) where
  -- A path of steps that leads to this state of the reactor and changes nothing else but, perhaps,
  -- that the round is notified.
  abbrev pub IsPath : System X → Reactor X → Type 0
  IsPath s r = (b : Bool) × Reach X s (record s { reactor = r; notified = b })

  -- The call leads there by a path, and leaves a valid timer.
  abbrev pub Leaves : System X → Timer × Reactor X → Type 0
  Leaves s x = IsPath s x.1 × IsValid X x.0 x.1
