-- ===== src/Tests/Threads.antt =====
-- Runs of `block_on` and of the "async-io" thread.
use async_io.Base.{◌+◌, ◌%◌, ◌≡◌, length}
use async_io.Reactor.{usize_mod}
use async_io.Driver.Nesting.{
  Calls, no_calls, enter_block_on, none_active, then_step, enters, IsDistinct,
  CallsReach-IsDistinct,
}
use async_io.Base.{◌≡◌, List, [], ◌∷◌, true, false, arith}
use async_io.Driver.MainLoop.{start_loop, Glimpse, main_reacts, main_reacts_lem}

-- The lock is never free.
abbrev stuck : Glimpse
stuck = record {
  tick = 3;
  lock_free = false;
  tick_reacted = 4;
  block_on_count = 1;
  notified = false;
  tick_notified = 3;
}

abbrev twelve : List Glimpse
twelve =
    stuck ∷ stuck ∷ stuck ∷ stuck ∷ stuck ∷ stuck ∷ stuck ∷ stuck ∷ stuck ∷ stuck ∷ stuck ∷ stuck
    ∷ []

main_reacts_lem_example : main_reacts start_loop twelve ≡ true
unfolding start_loop
main_reacts_lem_example =
    main_reacts_lem start_loop 3 twelve ground arith (omega arith) (omega arith)

-- A call of `block_on` inside another one.
abbrev nested : Calls
nested = enter_block_on (enter_block_on no_calls)

CallsReach-IsDistinct_example :
    IsDistinct nested.stack × (nested.count ≡ (length nested.stack + 0) % usize_mod)
CallsReach-IsDistinct_example =
    CallsReach-IsDistinct 0 nested (then_step (then_step none_active enters) enters)
