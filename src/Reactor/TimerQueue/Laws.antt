-- ===== src/Reactor/TimerQueue/Laws.antt =====
-- What `insert_timer` and `remove_timer` do to the scheduled timers.
use native.Mathlib.Nat.{mod-eq_of_lt}
use async_io.Base.{ℕ, ◌+◌, ◌%◌, ◌≤◌, ◌<◌, ◌≡◌, refl, ap, ◌∙◌, List, [], ◌∷◌, none, arith, All}
use async_io.Timers.{Waker, insert_op, remove_op, Entry, apply_op, lookup, insert, remove}
use async_io.Reactor.{Platform, Reactor, notify, usize_mod}
use async_io.Reactor.TimerQueue.{insert_timer, remove_timer}
use async_io.Reactor.TimerQueue.Schedule.{scheduled, HasRoom, Keeps, push_loop_lem}

-- Every scheduled timer has an ID below `g`.
abbrev pub IdsBelow : ℕ → List Entry → Type 0
IdsBelow g m = All (λ (x : Entry). x.id < g) m

pub insert-IdsBelow :
    (g w i : ℕ) (k : Waker) (m : List Entry) → i < g → IdsBelow g m → IdsBelow g (insert w i k m)
unfolding insert
insert-IdsBelow g w i k [] h b = (h, tt)
insert-IdsBelow g w i k (x ∷ m) h b = ground (arith, insert-IdsBelow g w i k m h b.1)

pub IdsBelow-mono : (g h : ℕ) (m : List Entry) → g ≤ h → IdsBelow g m → IdsBelow h m
IdsBelow-mono g h [] le b = tt
IdsBelow-mono g h (x ∷ m) le b = (omega arith, IdsBelow-mono g h m le b.1)

pub remove-IdsBelow : (g w i : ℕ) (m : List Entry) → IdsBelow g m → IdsBelow g (remove w i m)
unfolding remove
remove-IdsBelow g w i [] b = tt
remove-IdsBelow g w i (x ∷ m) b = ground (arith, remove-IdsBelow g w i m b.1)

pub lookup_fresh : (g w i : ℕ) (m : List Entry) → g ≤ i → IdsBelow g m → lookup w i m ≡ none
unfolding lookup
lookup_fresh g w i [] h b = refl
lookup_fresh g w i (x ∷ m) h b = ground (arith, lookup_fresh g w i m h b.1)

module _ (X : Platform) where
  -- The generator has not wrapped around, and no scheduled timer has a later ID.
  pub record IdsFresh (r : Reactor X) : Type 0 where
    pub no_wrap : r.id_generator + 1 < usize_mod
    pub issued : IdsBelow r.id_generator (scheduled X r)

  -- If the queue has a capacity above 0, `insert_timer` hands out the next ID, schedules the timer
  -- under it, steps the generator (which wraps around at 2^64) and notifies the poller; sources and
  -- ticker stay, and the capacity stays above 0.
  pub insert_timer_lem :
      (r : Reactor X) (when : ℕ) (waker : Waker)
      → HasRoom X r
      → ((insert_timer X r when waker).0 ≡ r.id_generator)
        × (scheduled X (insert_timer X r when waker).1
            ≡ insert when r.id_generator waker (scheduled X r))
        × (HasRoom X (insert_timer X r when waker).1)
        × ((insert_timer X r when waker).1.id_generator ≡ (r.id_generator + 1) % usize_mod)
        × ((insert_timer X r when waker).1.sources ≡ r.sources)
        × ((insert_timer X r when waker).1.ticker ≡ r.ticker)
        × ((insert_timer X r when waker).1.poller ≡ X.poller.notify r.poller)
  unfolding insert_timer notify scheduled apply_op
  insert_timer_lem r when waker h =
      let r' : Reactor X = record r { id_generator = (r.id_generator + 1) % usize_mod } in
      let (s, k) = push_loop_lem X 0 r' (insert_op when r.id_generator waker) h in
      (refl, s, rw k.capacity h, k.id_generator, k.sources, k.ticker, ap X.poller.notify k.poller)

  -- If the queue has a capacity above 0, `remove_timer` takes the timer out of the schedule and
  -- leaves poller, sources, ticker, IDs and capacity alone.
  pub remove_timer_lem :
      (r : Reactor X) (when id : ℕ)
      → HasRoom X r
      → (scheduled X (remove_timer X r when id) ≡ remove when id (scheduled X r))
        × Keeps X r (remove_timer X r when id)
  unfolding remove_timer apply_op
  remove_timer_lem r when id h = push_loop_lem X 0 r (remove_op when id) h

  -- If the queue has a capacity above 0, the generator does not wrap around and all scheduled IDs
  -- are below it, then the ID that `insert_timer` hands out is in use by no scheduled timer, the
  -- generator moves one up, and all scheduled IDs are below it again.
  pub insert_timer-IdsFresh :
      (r : Reactor X) (when : ℕ) (waker : Waker)
      → HasRoom X r
      → IdsFresh r
      → ((w : ℕ) → lookup w (insert_timer X r when waker).0 (scheduled X r) ≡ none)
        × ((insert_timer X r when waker).1.id_generator ≡ r.id_generator + 1)
        × IdsBelow (r.id_generator + 1) (scheduled X (insert_timer X r when waker).1)
  insert_timer-IdsFresh r when waker h f =
      let e = insert_timer_lem r when waker h in
      (
        λ w. rw e.0 (lookup_fresh _ w _ (scheduled X r) (omega arith) f.issued),
        e.3 ∙ mod-eq_of_lt f.no_wrap,
        rw e.1 (
            insert-IdsBelow _ when _ waker _ (omega arith)
              (IdsBelow-mono _ _ (scheduled X r) (omega arith) f.issued)),
      )
