-- ===== src/Tests/Handles.antt =====
-- Handles over the small world.
use async_io.Base.{
  ℕ, true, suc, refl, [], ◌∷◌, none, some, ◌==◌, if◌then◌else◌, IoResult, ok, err, would_block,
}
use async_io.Reactor.{read, Source, Reactor}
use async_io.Async.{Async, new_nonblocking}
use async_io.Async.Polls.{Ends, poll_op_lem}
use async_io.Async.Loops.{trying, awaiting}
use async_io.Async.Loops.Ending.{Returns, poll_with_lem}
use async_io.Reactor.Sources.{new_ready}
use async_io.Async.Handles.{IsUndone, drop-new_nonblocking}
use async_io.Tests.World.{fd, program, toy, world, reader}

-- A handle is its descriptor.
abbrev made : Async toy ℕ
made = record { source = 1; io = some 11 }

drop-new_nonblocking_example :
    IsUndone toy ℕ 11 (fd 11) world made (new_nonblocking toy ℕ fd 11 world).1
unfolding program new_nonblocking
drop-new_nonblocking_example = drop-new_nonblocking toy ℕ fd 11 world made refl

-- An operation that would block at its first try.
abbrev second_try : ℕ → IoResult ℕ × ℕ
second_try tries = if tries == 0 then (err would_block, 1) else (ok tries, tries)

-- An event has been delivered to the reader since the last poll.
abbrev stamped : Source toy
stamped = record reader { reads = record reader.reads { tick = 2; waker = none } }

abbrev stamped_world : Reactor toy
stamped_world = record world { sources = some stamped ∷ [] }

poll_op_lem_example : Ends toy ℕ ℕ (λ fuel. suc (suc fuel)) second_try 0 stamped_world 0 read 6
poll_op_lem_example = poll_op_lem toy ℕ ℕ second_try 0 stamped_world 0 read 6 stamped refl

-- `read_with` before its first try, and when the task of a pending poll has been woken.
poll_with_lem_example :
    Returns toy ℕ ℕ read second_try 0 6 (λ fuel. suc (suc (suc fuel))) 0 world trying
    × Returns toy ℕ ℕ read second_try 0 6
        (λ fuel. suc (suc (suc fuel)))
        0
        world
        (awaiting (record { polled = true; fut = new_ready read }))
poll_with_lem_example =
    poll_with_lem toy ℕ ℕ read second_try 0 6 0 world (new_ready read) reader refl
