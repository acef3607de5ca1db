-- ===== src/Reactor/TimerQueue.antt =====
-- `src/reactor.rs`: the queue of timer operations, `process_timer_ops`, `insert_timer` and
-- `remove_timer`. Each call is one atomic step; a call of `insert_timer` by another thread between
-- two rounds of the loop is a step of its own.
pub mod Schedule
pub mod Laws
use async_io.Base.{ℕ, zero, suc, ◌+◌, ◌%◌, List, Option, none, some}
use async_io.Timers.{Waker, TimerOp, insert_op, remove_op, Entry, apply_op}
use async_io.Reactor.{Platform, Reactor, notify, usize_mod}

module _ (X : Platform) where
  -- `try_iter().take(n).for_each(…)`.
  unfoldable pub drain_ops : ℕ → X.queue.Queue → List Entry → X.queue.Queue × List Entry
  drain_ops zero q m = (q, m)
  drain_ops (suc n) q m = elim (X.queue.pop q) [
    | none ↦ (q, m)
    | some (op, q') ↦ drain_ops n q' (apply_op op m)
  ]

  unfoldable pub process_timer_ops : Reactor X → Reactor X
  process_timer_ops r =
      let (q, m) = drain_ops (X.queue.capacity r.timer_ops) r.timer_ops r.timers in
      record r { timer_ops = q; timers = m }

  -- The loop around `push`: a full queue is drained and the push tried again.
  unfoldable pub push_loop : ℕ → Reactor X → TimerOp → Reactor X
  push_loop zero r op = r
  push_loop (suc fuel) r op = elim (X.queue.push r.timer_ops op) [
    | some q ↦ record r { timer_ops = q }
    | none ↦ push_loop fuel (process_timer_ops r) op
  ]

  abbrev pub push_fuel : ℕ
  push_fuel = 2

  -- The new timer's ID beside the new state.
  unfoldable pub insert_timer : Reactor X → ℕ → Waker → ℕ × Reactor X
  insert_timer r when waker =
      let id = r.id_generator in
      let r' : Reactor X = record r { id_generator = (id + 1) % usize_mod } in
      (id, notify X (push_loop push_fuel r' (insert_op when id waker)))

  unfoldable pub remove_timer : Reactor X → ℕ → ℕ → Reactor X
  remove_timer r when id = push_loop push_fuel r (remove_op when id)
