-- ===== src/Reactor/TimerQueue/Schedule.antt =====
-- The timers that the reactor stands for: the map after the operations still queued.
use async_io.Base.{ℕ, zero, suc, ◌≤◌, ◌<◌, ◌≡◌, refl, ap, sym, ◌∙◌, List, [], ◌∷◌, length, arith}
use native.Mathlib.Decide.{dec_le}
use async_io.Timers.{TimerOp, Entry, apply_op, apply_ops}
use async_io.Timers.Lookup.{apply_ops-append}
use async_io.Reactor.{Platform, Reactor}
use async_io.Reactor.TimerQueue.{drain_ops, process_timer_ops, push_loop}

module _ (X : Platform) where
  unfoldable pub scheduled : Reactor X → List Entry
  scheduled r = apply_ops (X.queue.contents r.timer_ops) r.timers

  -- The queue can hold an operation.
  abbrev pub HasRoom : Reactor X → Type 0
  HasRoom r = 0 < X.queue.capacity r.timer_ops

  drain_ops_lem :
      (n : ℕ) (q : X.queue.Queue) (m : List Entry) (ops : List TimerOp)
      → X.queue.contents q ≡ ops
      → length ops ≤ n
      → (X.queue.contents (drain_ops X n q m).0 ≡ [])
        × ((drain_ops X n q m).1 ≡ apply_ops ops m)
        × (X.queue.capacity (drain_ops X n q m).0 ≡ X.queue.capacity q)
  unfolding drain_ops apply_ops
  drain_ops_lem zero q m [] e h = (e, refl, refl)
  drain_ops_lem zero q m (op ∷ ops) e h = absurd (omega arith)
  drain_ops_lem (suc n) q m [] e h = ground (arith, X.queue.pop_nil q e)
  drain_ops_lem (suc n) q m (op ∷ ops) e h =
      let (q', popped, rest, cap) = X.queue.pop_cons q op ops e in
      let (c, d, k) = drain_ops_lem n q' (apply_op op m) ops rest (omega arith) in
      rw (popped, drain_ops) (c, d, k ∙ cap)

  -- `process_timer_ops` empties the queue, applies every queued operation to the map in the order
  -- in which they were queued, and keeps the capacity.
  pub process_timer_ops_lem :
      (r : Reactor X)
      → (X.queue.contents (process_timer_ops X r).timer_ops ≡ [])
        × ((process_timer_ops X r).timers ≡ scheduled r)
        × (X.queue.capacity (process_timer_ops X r).timer_ops ≡ X.queue.capacity r.timer_ops)
  unfolding process_timer_ops scheduled
  process_timer_ops_lem r =
      drain_ops_lem _ r.timer_ops r.timers _ refl (X.queue.length-contents-le r.timer_ops)

  pub scheduled_of_nil :
      (r : Reactor X) → X.queue.contents r.timer_ops ≡ [] → scheduled r ≡ r.timers
  unfolding scheduled apply_ops
  scheduled_of_nil r e = rw (e, apply_ops) refl

  scheduled-process_timer_ops : (r : Reactor X) → scheduled (process_timer_ops X r) ≡ scheduled r
  scheduled-process_timer_ops r =
      let (c, m, _) = process_timer_ops_lem r in scheduled_of_nil (process_timer_ops X r) c ∙ m

  -- What a change of the timers leaves alone.
  pub record Keeps (r r' : Reactor X) : Type 0 where
    pub poller : r'.poller ≡ r.poller
    pub ticker : r'.ticker ≡ r.ticker
    pub sources : r'.sources ≡ r.sources
    pub id_generator : r'.id_generator ≡ r.id_generator
    pub capacity : X.queue.capacity r'.timer_ops ≡ X.queue.capacity r.timer_ops

  -- The queue after a push that found room.
  pub push_room :
      (fuel : ℕ) (r : Reactor X) (op : TimerOp)
      → length (X.queue.contents r.timer_ops) < X.queue.capacity r.timer_ops
      → (scheduled (push_loop X (suc fuel) r op) ≡ apply_op op (scheduled r))
        × Keeps r (push_loop X (suc fuel) r op)
  unfolding push_loop scheduled apply_ops
  push_room fuel r op h =
      let (q, pushed, c, cap) = X.queue.push_room r.timer_ops op h in
      rw (pushed, push_loop)
        (
          rw c (apply_ops-append (X.queue.contents r.timer_ops) (op ∷ []) r.timers),
          record {
            poller = refl;
            ticker = refl;
            sources = refl;
            id_generator = refl;
            capacity = cap;
          },
        )

  push_full :
      (fuel : ℕ) (r : Reactor X) (op : TimerOp)
      → X.queue.capacity r.timer_ops ≤ length (X.queue.contents r.timer_ops)
      → push_loop X (suc fuel) r op ≡ push_loop X fuel (process_timer_ops X r) op
  unfolding push_loop
  push_full fuel r op h = rw (X.queue.push_full r.timer_ops op h, push_loop) refl

  pub process_timer_ops-Keeps : (r : Reactor X) → Keeps r (process_timer_ops X r)
  unfolding process_timer_ops
  process_timer_ops-Keeps r = record {
    poller = refl;
    ticker = refl;
    sources = refl;
    id_generator = refl;
    capacity = (process_timer_ops_lem r).2;
  }

  process_timer_ops_room :
      (r : Reactor X)
      → HasRoom r
      → length (X.queue.contents (process_timer_ops X r).timer_ops)
        < X.queue.capacity (process_timer_ops X r).timer_ops
  process_timer_ops_room r h = let (c, _, k) = process_timer_ops_lem r in rw (c, k) h

  -- If the queue has a capacity above 0, the loop of `insert_timer` and `remove_timer` with any
  -- fuel from 2 on queues the operation behind all earlier ones, so that the schedule is the
  -- earlier one with this operation applied; a full queue is drained in order and no operation is
  -- lost.
  pub push_loop_lem :
      (fuel : ℕ) (r : Reactor X) (op : TimerOp)
      → HasRoom r
      → (scheduled (push_loop X (suc (suc fuel)) r op) ≡ apply_op op (scheduled r))
        × Keeps r (push_loop X (suc (suc fuel)) r op)
  push_loop_lem fuel r op h =
      elim (dec_le (X.queue.capacity r.timer_ops) (length (X.queue.contents r.timer_ops))) [
        | yes full ↦
            let (s, k) = push_room fuel (process_timer_ops X r) op (process_timer_ops_room r h) in
            let k' = process_timer_ops-Keeps r in
            rw (push_full (suc fuel) r op full) (
              s ∙ ap (apply_op op) (scheduled-process_timer_ops r),
              record {
                poller = k.poller ∙ k'.poller;
                ticker = k.ticker ∙ k'.ticker;
                sources = k.sources ∙ k'.sources;
                id_generator = k.id_generator ∙ k'.id_generator;
                capacity = k.capacity ∙ k'.capacity;
              },
            )
        | no room ↦ push_room (suc fuel) r op (omega arith)
      ]

  push_once :
      (fuel : ℕ) (r : Reactor X) (op : TimerOp)
      → length (X.queue.contents r.timer_ops) < X.queue.capacity r.timer_ops
      → push_loop X (suc fuel) r op ≡ push_loop X 1 r op
  unfolding push_loop
  push_once fuel r op h =
      let (q, pushed, c, cap) = X.queue.push_room r.timer_ops op h in rw (pushed, push_loop) refl

  -- If the queue has a capacity above 0, the loop of `insert_timer` and `remove_timer` ends within
  -- two tries: more fuel than 2 changes nothing.
  push_loop_fuel :
      (fuel : ℕ) (r : Reactor X) (op : TimerOp)
      → HasRoom r
      → push_loop X (suc (suc fuel)) r op ≡ push_loop X 2 r op
  push_loop_fuel fuel r op h =
      elim (dec_le (X.queue.capacity r.timer_ops) (length (X.queue.contents r.timer_ops))) [
        | yes full ↦
            push_full (suc fuel) r op full
            ∙ push_once fuel (process_timer_ops X r) op (process_timer_ops_room r h)
            ∙ sym (push_full 1 r op full)
        | no room ↦ push_once (suc fuel) r op (omega arith) ∙ sym (push_once 1 r op (omega arith))
      ]
