-- ===== src/Driver/Threads/Wakeups.antt =====
-- No wakeup is lost among threads that share the poller: the check of `IO_POLLING` and `io_blocked`.
use native.Mathlib.Decide.{ℕ_discrete}
use async_io.Base.{
  none_apart, ℕ, ◌<◌, ◌≡◌, refl, sym, ◌∙◌, ap, subst, ◌⊎◌, inl, inr, true, false, none, some,
  update_all, update_field, update_other, update_same, arith, Bool-cases,
}
use async_io.External.Parker.{ParkerCrate}
use async_io.Driver.{
  polling, waiting, Seen, BlockOn, start, go_to, advance, wake_unpark, wake_check,
}
use async_io.Driver.Handshake.{Runs}
use async_io.Driver.Threads.{
  main_loop, Threads, no_threads, view, put, thread_step, thread_unparks, thread_checks, Step,
  calls, moves, unparks, checks, others_unpark, others_check, main_locks, main_waits, main_unlocks,
  Reach, here, next,
}
use async_io.Driver.Threads.Exclusion.{owns, Excl, Reach-Excl}
use async_io.Driver.Threads.Waiting.{
  Told, polled, others, pends, IsTold, Told-mono, advance_from-waiting, advance_from-polled,
  waiting-owns, waiting-blocked, Runs-off, lacks, ToldAt,
}

module _ (K : ParkerCrate) where
  moves-IsTold :
      (s : Threads K) (i : ℕ) (seen : Seen)
      → s.pending i ≡ none
      → Excl K s
      → IsTold K s
      → IsTold K (thread_step K s i seen)
  unfolding thread_step advance
  moves-IsTold s i seen free v w =
      update_all (ToldAt K (thread_step K s i seen)) s.local i _
        (λ at n. absurd (let q = advance_from-waiting K (s.local i).pc (view K s i) _ at in cc))
        (λ j ne at n.
          Told-mono K s (thread_step K s i seen) j
            (λ e. advance_from-polled K (s.local i).pc (view K s i) _ (lacks K s i j v ne at) ∙ e)
            (λ h. subst (λ b. 0 < b.checking) (sym (update_other s.local i _ j ne)) h)
            (λ a e. (
              e,
              ap (λ b. b.io_polling)
                  (update_other s.local i _ a
                    (λ q. none_apart (subst (λ k. s.pending k ≡ none) q free) e)),
            ))
            (w j at n))

  unparks-IsTold :
      (s : Threads K) (a i : ℕ)
      → s.pending a ≡ none
      → Runs K (s.local a).pc
      → Excl K s
      → IsTold K s
      → IsTold K (thread_unparks K s a i)
  unfolding thread_unparks
  unparks-IsTold s a i free runs v w =
      update_all (ToldAt K t) s.local i b
        (λ at n. elim (Bool-cases (K.notified (s.local i).parker)) [
          | inl told ↦ still i (w i at told)
          | inr new ↦
              let first : (K.unpark (s.local i).parker).1 ≡ true =
                ground (arith, K.unpark_result (s.local i).parker) in
              pends a (update_same s.pending a _ ∙ ground arith)
                (same a ∙ Runs-off K s a i v at runs)
        ])
        (λ j ne at n. still j (w j at n))
    where
      t : Threads K
      t = thread_unparks K s a i

      b : BlockOn K
      b = record (s.local i) { parker = (K.unpark (s.local i).parker).0 }

      same : (j : ℕ) → (t.local j).io_polling ≡ (s.local j).io_polling
      same = update_field (λ b. b.io_polling) s.local i b refl

      still : (j : ℕ) → Told K s j → Told K t j
      still j =
          Told-mono K s t j (λ e. e) (λ h. rw (update_field (λ b. b.checking) s.local i b refl j) h)
            (λ c e. (
              update_other s.pending a _ c
                    (λ q. none_apart (subst (λ k. s.pending k ≡ none) q free) e)
                  ∙ e,
              same c,
            ))

  checks-IsTold :
      (s : Threads K) (a i : ℕ)
      → s.pending a ≡ some i
      → Excl K s
      → IsTold K s
      → IsTold K (thread_checks K s a i)
  unfolding thread_checks
  checks-IsTold s a i own v w j at n = go (w j at n)
    where
      go : Told K s j → Told K (thread_checks K s a i) j
      go (polled e) = polled (ground arith)
      go (others h) = others h
      go (pends c e f) = elim (ℕ_discrete a c) [
        | yes q ↦
            let e' = subst (λ k. s.pending k ≡ some j) (sym q) e in
            let mine : i ≡ j = cc in
            let off = subst (λ k. (s.local k).io_polling ≡ false) (sym q) f in
            let on =
              waiting-blocked K s i v (subst (λ k. (s.local k).pc ≡ waiting) (sym mine) at) in
            polled (ground arith)
        | no ne ↦ pends c (update_other s.pending a none c ne ∙ e) f
      ]

  others_unpark-IsTold :
      (s : Threads K) (i : ℕ) → IsTold K s → IsTold K (put K s i (wake_unpark K (view K s i)))
  unfolding wake_unpark
  others_unpark-IsTold s i w =
      update_all (ToldAt K t) s.local i b
        (λ at n. elim (Bool-cases (K.notified (s.local i).parker)) [
          | inl told ↦ still i (λ h. rw (update_same s.local i b) (ground arith)) (w i at told)
          | inr new ↦
              let first : (K.unpark (s.local i).parker).1 ≡ true =
                ground (arith, K.unpark_result (s.local i).parker) in
              others (rw (update_same s.local i b, first) (omega arith))
        ])
        (λ j ne at n. still j (λ h. rw (update_other s.local i b j ne) h) (w j at n))
    where
      b : BlockOn K
      b = wake_unpark K (view K s i)

      t : Threads K
      t = put K s i b

      still :
          (j : ℕ) → (0 < (s.local j).checking → 0 < (t.local j).checking) → Told K s j → Told K t j
      still j c =
          Told-mono K s t j (λ e. e) c
            (λ a e. (e, update_field (λ b. b.io_polling) s.local i b refl a))

  others_check-IsTold :
      (s : Threads K) (i : ℕ)
      → Excl K s
      → IsTold K s
      → IsTold K (put K s i (wake_check K (view K s i)))
  unfolding wake_check
  others_check-IsTold s i v w =
      update_all (ToldAt K t) s.local i b
        (λ at n. let on = waiting-blocked K s i v (pc_kept ∙ at) in polled (ground arith))
        (λ j ne at n.
          Told-mono K s t j (λ e. ground arith) (λ h. rw (update_other s.local i b j ne) h)
            (λ a e. (e, update_field (λ b. b.io_polling) s.local i b ground arith a)) (w j at n))
    where
      b : BlockOn K
      b = wake_check K (view K s i)

      t : Threads K
      t = put K s i b

      pc_kept : (s.local i).pc ≡ b.pc
      pc_kept = ground arith

  Step-IsTold : {s t : Threads K} → Step K s t → Excl K s → IsTold K s → IsTold K t
  unfolding go_to
  Step-IsTold {s} (calls i e) v w =
      update_all (ToldAt K (put K s i b)) s.local i b (λ at n. absurd (cc))
        (λ j ne at n.
          Told-mono K s (put K s i b) j (λ e. e) (λ h. rw (update_other s.local i b j ne) h)
            (λ a e. (e, update_field (λ b. b.io_polling) s.local i b refl a)) (w j at n))
    where
      b : BlockOn K
      b = go_to K (view K s i) polling
  Step-IsTold {s} (moves i seen free can) v w = moves-IsTold s i seen free v w
  Step-IsTold {s} (unparks a i free runs) v w = unparks-IsTold s a i free runs v w
  Step-IsTold {s} (checks a i e) v w = checks-IsTold s a i e v w
  Step-IsTold {s} (others_unpark i) v w = others_unpark-IsTold s i w
  Step-IsTold {s} (others_check i left) v w = others_check-IsTold s i v w
  Step-IsTold {s} (main_locks e) v w =
      λ i at n. Told-mono K s _ i (λ e. e) (λ h. h) (λ a e. (e, refl)) (w i at n)
  Step-IsTold {s} (main_waits e) v w = λ i at n.
      let h : owns (some main_loop) i ≡ true =
        subst (λ l. owns l i ≡ true) e (waiting-owns K s i v at) in
      absurd (cc)
  Step-IsTold {s} (main_unlocks e) v w =
      λ i at n. Told-mono K s _ i (λ e. e) (λ h. h) (λ a e. (e, refl)) (w i at n)

  Reach-IsTold : {s : Threads K} → Reach K s → IsTold K s
  unfolding no_threads start go_to
  Reach-IsTold here = λ i at n. absurd (cc)
  Reach-IsTold (next r st) = Step-IsTold st (Reach-Excl K r) (Reach-IsTold r)

  -- In every interleaving of threads that run `block_on` and the "async-io" thread over one reactor
  -- lock and one poller, where each may call the wakers of the others: if a thread is in `wait` and
  -- its parker is notified, then the poller has a notification that no `wait` has taken, or a
  -- thread has unparked the parker and its check of `io_blocked`, which is still ahead, gives the
  -- poller one.
  pub Reach-woken :
      (s : Threads K) (i : ℕ)
      → Reach K s
      → (s.local i).pc ≡ waiting
      → K.notified (s.local i).parker ≡ true
      → (s.poll_notified ≡ true)
        ⊎ (((0 < (s.local i).checking) × ((wake_check K (view K s i)).poll_notified ≡ true))
            ⊎ ((a : ℕ) × (s.pending a ≡ some i) × ((thread_checks K s a i).poll_notified ≡ true)))
  unfolding wake_check thread_checks
  Reach-woken s i r at n = go (Reach-IsTold r i at n)
    where
      on : (s.local i).io_blocked ≡ true
      on = waiting-blocked K s i (Reach-Excl K r) at

      go :
          Told K s i
          → (s.poll_notified ≡ true)
            ⊎ (((0 < (s.local i).checking) × ((wake_check K (view K s i)).poll_notified ≡ true))
                ⊎ ((a : ℕ) × (s.pending a ≡ some i)
                    × ((thread_checks K s a i).poll_notified ≡ true)))
      go (polled e) = inl e
      go (others h) = let up = on in inr (inl (h, ground arith))
      go (pends a e f) = let up = on in inr (inr (a, e, ground arith))
