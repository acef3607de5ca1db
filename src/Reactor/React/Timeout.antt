-- ===== src/Reactor/React/Timeout.antt =====
-- How long a round of the reactor waits in the poller.
use async_io.Base.{
  ℕ, ◌≡◌, refl, ◌∙◌, ◌≤◌, ◌+◌, sym, subst, inl, inr, List, [], ◌∷◌, ◌++◌, Option, none, some, In,
  All_in, arith, Option-cases,
}
use async_io.Timers.{Entry}
use async_io.Timers.Order.{IsSorted}
use async_io.Reactor.{Platform, Reactor}
use async_io.Reactor.TimerQueue.Schedule.{scheduled}
use async_io.Reactor.Fire.{process_timers}
use async_io.Reactor.Fire.Laws.{process_timers-timeout, process_timers-schedule, due}
use async_io.Reactor.React.{begin_react, combine_timeouts}

combine_timeouts-none : (a b : Option ℕ) → combine_timeouts a b ≡ none → (a ≡ none) × (b ≡ none)
unfolding combine_timeouts
combine_timeouts-none none none e = (refl, refl)
combine_timeouts-none (some t) none e = absurd (cc)
combine_timeouts-none none (some t) e = absurd (cc)
combine_timeouts-none (some a) (some b) e = absurd (cc)

combine_timeouts_le :
    (a b : Option ℕ) (d : ℕ)
    → combine_timeouts a b ≡ some d
    → ((t : ℕ) → a ≡ some t → d ≤ t) × ((t : ℕ) → b ≡ some t → d ≤ t)
unfolding combine_timeouts
combine_timeouts_le none none d e = absurd (cc)
combine_timeouts_le (some t) none d e = (λ u f. ground arith, λ u f. absurd (cc))
combine_timeouts_le none (some t) d e = (λ u f. absurd (cc), λ u f. ground arith)
combine_timeouts_le (some a) (some b) d e = (λ u f. ground arith, λ u f. ground arith)

append_nil_right : (xs ys : List Entry) → xs ++ ys ≡ [] → ys ≡ []
append_nil_right [] ys e = e
append_nil_right (x ∷ xs) ys e = absurd (cc)

no_member : (x : Entry) {m : List Entry} → m ≡ [] → In x m → ⊥
no_member x e h = subst (λ (l : List Entry). In x l) e h

module _ (X : Platform) where
  -- With a sorted schedule, the poller is never told to wait past a timer nor longer than the
  -- caller allows: if the timeout of the wait is `d`, no timer that is still scheduled is due
  -- before `now + d`, and `d` is at most the caller's timeout if there is one. It waits without a
  -- limit only if nothing was scheduled and the caller sets no limit.
  pub begin_react-timeout :
      (r : Reactor X) (timeout : Option ℕ) (now : ℕ)
      → IsSorted (scheduled X r)
      → ((begin_react X r timeout now).2 ≡ none → (scheduled X r ≡ []) × (timeout ≡ none))
        × ((d : ℕ)
            → (begin_react X r timeout now).2 ≡ some d
            → ((x : Entry) → In x (scheduled X (begin_react X r timeout now).0) → now + d ≤ x.when)
              × ((t : ℕ) → timeout ≡ some t → d ≤ t))
  unfolding begin_react scheduled
  begin_react-timeout r timeout now s =
      let (idle, bound) = process_timers-timeout X r [] now s in
      let next = (process_timers X r [] now).0 in
      let split = (process_timers-schedule X r [] now s).0 in
      (
        λ e. let (a, b) = combine_timeouts-none next timeout e in (idle a, b),
        λ d e.
            let (a, b) = combine_timeouts_le next timeout d e in
            (
              λ x m. elim (Option-cases next) [
                | inl none_next ↦ absurd (
                    no_member x
                      (append_nil_right (due now (scheduled X r)) _ (sym split ∙ idle none_next)) m)
                | inr (t, some_next) ↦
                    let le = a t some_next in
                    let far =
                      All_in (λ (y : Entry). now + t ≤ y.when) x _ (bound t some_next).0 m in
                    omega arith
              ],
              b,
            ),
      )
