-- ===== src/Reactor/Sources/Fresh.antt =====
-- `src/reactor.rs`: the ticks of one direction as numbers. Threads run rounds of the reactor while
-- others poll the direction; a poll remembers the ticker and the direction's tick, and the next one
-- compares them. The operations themselves, which take these steps, are in `Reactor.React.Fresh`.
use native.Mathlib.Nat.{mod-eq_of_lt}
use async_io.Base.{
  ℕ, ◌+◌, ◌%◌, ◌≤◌, ◌<◌, ◌≡◌, refl, ◌≢◌, ◌∙◌, ◌⊎◌, inl, inr, Bool, true, false, ◌||◌, Option, none,
  some, arith,
}
use async_io.Reactor.{usize_mod}
use async_io.Reactor.Sources.{delivered}

-- `ticker` is the reactor's, `in_flight` the tick of a round that has begun and not ended, `tick`
-- and `ticks` are the direction's. The last three are no state of the program: the number of
-- rounds begun, whether a round has begun since the ticks were remembered, and whether such a
-- round has delivered an event to the direction.
pub record Rounds : Type 0 where
  pub ticker : ℕ
  pub in_flight : Option ℕ
  pub tick : ℕ
  pub ticks : Option (ℕ × ℕ)
  pub rounds : ℕ
  pub began_since : Bool
  pub delivered_since : Bool

abbrev pub no_rounds : Rounds
no_rounds = record {
  ticker = 0;
  in_flight = none;
  tick = 0;
  ticks = none;
  rounds = 0;
  began_since = false;
  delivered_since = false;
}

abbrev pub next_tick : ℕ → ℕ
next_tick ticker = (ticker + 1) % usize_mod

pub data RoundStep : Rounds → Rounds → Type 0 where
  -- `fetch_add(1)` on the ticker.
  begin_round :
      (s : Rounds)
      → s.in_flight ≡ none
      → RoundStep s (record s {
        ticker = next_tick s.ticker;
        in_flight = some (next_tick s.ticker);
        rounds = s.rounds + 1;
        began_since = true;
      })
  -- An event is emitted: `state[dir].tick = tick`.
  deliver_event :
      (s : Rounds) (t : ℕ)
      → s.in_flight ≡ some t
      → RoundStep s (record s { tick = t; delivered_since = s.delivered_since || s.began_since })
  end_round : (s : Rounds) → RoundStep s (record s { in_flight = none })
  -- A poll stores its waker: `ticks = Some((ticker(), state[dir].tick))`.
  remember :
      (s : Rounds)
      → RoundStep s (record s {
        ticks = some (s.ticker, s.tick);
        began_since = false;
        delivered_since = false;
      })
  -- A poll takes the direction for ready: `ticks = None`. Whatever was to be remembered.
  forget :
      (s : Rounds) (b d : Bool)
      → RoundStep s (record s { ticks = none; began_since = b; delivered_since = d })

pub data RoundReach (s : Rounds) : Rounds → Type 0 where
  here : RoundReach s s
  next : {t u : Rounds} → RoundReach s t → RoundStep t u → RoundReach s u

-- What the remembered ticks say, as long as the ticker has not wrapped around.
abbrev TicksInv : Option (ℕ × ℕ) → Rounds → Type 0
TicksInv none s = Unit {0}
TicksInv (some (a, b)) s =
    (b ≤ a)
    × (a ≤ s.ticker)
    × (s.began_since ≡ true → a < s.ticker)
    × (s.began_since ≡ false → s.ticker ≡ a)
    × (s.delivered_since ≡ true → a < s.tick)
    × (s.delivered_since ≡ false → (s.tick ≡ a) ⊎ (s.tick ≡ b))

record Inv (s : Rounds) : Type 0 where
  counted : s.ticker ≡ s.rounds
  tick_le : s.tick ≤ s.ticker
  flight : (t : ℕ) → s.in_flight ≡ some t → t ≡ s.ticker
  remembered : TicksInv s.ticks s

begin_ticks :
    (o : Option (ℕ × ℕ)) (s : Rounds) (n : ℕ)
    → n ≡ s.ticker + 1
    → s.tick ≤ s.ticker
    → TicksInv o s
    → TicksInv o
        (record s { ticker = n; in_flight = some n; rounds = s.rounds + 1; began_since = true })
begin_ticks none s n e h v = tt
begin_ticks (some (a, b)) s n e h v = (v.0, omega arith, λ _. omega arith, λ z. cc, v.4, v.5)

deliver_ticks :
    (o : Option (ℕ × ℕ)) (s : Rounds) (t : ℕ)
    → t ≡ s.ticker
    → s.tick ≤ s.ticker
    → TicksInv o s
    → TicksInv o (record s { tick = t; delivered_since = s.delivered_since || s.began_since })
deliver_ticks none s t e h v = tt
deliver_ticks (some (a, b)) s t e h v =
    (v.0, v.1, v.2, v.3, λ z. ground (arith, v.1, v.2, v.4, v.3), λ z. inl (ground (arith, v.3)))

RoundStep-Inv : {s u : Rounds} → RoundStep s u → u.rounds < usize_mod → Inv s → Inv u
RoundStep-Inv (begin_round s idle) h v =
    let e : next_tick s.ticker ≡ s.ticker + 1 = mod-eq_of_lt (rw v.counted h) in
    record {
      counted = e ∙ omega (arith, v.counted);
      tick_le = rw e (omega (arith, v.tick_le));
      flight = λ t f. ground arith;
      remembered = begin_ticks s.ticks s (next_tick s.ticker) e v.tick_le v.remembered;
    }
RoundStep-Inv (deliver_event s t f) h v = record {
  counted = v.counted;
  tick_le = omega (arith, v.flight t f);
  flight = v.flight;
  remembered = deliver_ticks s.ticks s t (v.flight t f) v.tick_le v.remembered;
}
RoundStep-Inv (end_round s) h v = record {
  counted = v.counted;
  tick_le = v.tick_le;
  flight = λ t f. cc;
  remembered = ended s.ticks s v.remembered;
}
  where
    ended :
        (o : Option (ℕ × ℕ)) (s : Rounds)
        → TicksInv o s
        → TicksInv o (record s { in_flight = none })
    ended none s v = tt
    ended (some (a, b)) s v = v
RoundStep-Inv (remember s) h v = record {
  counted = v.counted;
  tick_le = v.tick_le;
  flight = v.flight;
  remembered = (v.tick_le, omega arith, λ z. cc, λ z. refl, λ z. cc, λ z. inr refl);
}
RoundStep-Inv (forget s b d) h v = record {
  counted = v.counted;
  tick_le = v.tick_le;
  flight = v.flight;
  remembered = tt;
}

RoundStep-rounds : {s u : Rounds} → RoundStep s u → s.rounds ≤ u.rounds
RoundStep-rounds (begin_round s idle) = omega arith
RoundStep-rounds (deliver_event s t f) = omega arith
RoundStep-rounds (end_round s) = omega arith
RoundStep-rounds (remember s) = omega arith
RoundStep-rounds (forget s b d) = omega arith

RoundReach-Inv : {u : Rounds} → RoundReach no_rounds u → u.rounds < usize_mod → Inv u
RoundReach-Inv here h = record {
  counted = refl;
  tick_le = omega arith;
  flight = λ t f. cc;
  remembered = tt;
}
RoundReach-Inv (next r st) h =
    RoundStep-Inv st h (RoundReach-Inv r (omega (arith, RoundStep-rounds st)))

delivered_iff :
    (s : Rounds) (o : Option (ℕ × ℕ))
    → o ≢ none
    → TicksInv o s
    → delivered s.tick o ≡ s.delivered_since
unfolding delivered
delivered_iff s none ne v = absurd (ne refl)
delivered_iff s (some (a, b)) ne v = ground (arith, v.0, v.4, v.5)

-- In every interleaving of rounds and polls with fewer than 2^64 rounds, a poll that has remembered
-- its ticks takes the direction for ready exactly if an event was delivered to it by a round that
-- began after they were remembered; an event from a round already under way does not count.
pub delivered_fresh :
    (s : Rounds)
    → RoundReach no_rounds s
    → s.rounds < usize_mod
    → s.ticks ≢ none
    → delivered s.tick s.ticks ≡ s.delivered_since
delivered_fresh s r h ne = delivered_iff s s.ticks ne (RoundReach-Inv r h).remembered
