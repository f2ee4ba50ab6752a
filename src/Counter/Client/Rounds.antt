-- ===== src/Counter/Client/Rounds.antt =====
-- One round of the loop of `sum_counters`, and how many rounds there are.
use dead_nodes_tell_no_tales.Prelude.{
  ℕ, zero, suc, ◌+◌, ◌*◌, ◌<◌, Bool, true, false, ◌≡◌, refl, sym, ◌∙◌, arith, Bool-cases, inl, inr,
  ℤ, pos, negsuc,
}
use dead_nodes_tell_no_tales.Outcome.{Error, Outcome, ok, raised}
use dead_nodes_tell_no_tales.Exec.{pure, ◌>>=◌}
use dead_nodes_tell_no_tales.Counter.Client.{Client}
use dead_nodes_tell_no_tales.Counter.Client.Sum.{SumArgs, le_int, poll, nap, sum_loop, rounds}

module _ (args : SumArgs) (fuel elapsed stable : ℕ) (s : Client) where
  pub sum_loop_over :
      le_int elapsed args.timeout_ms ≡ false → sum_loop args (suc fuel) elapsed stable s ≡ (ok 1, s)
  unfolding sum_loop pure
  sum_loop_over over = rw over refl

  module _ (within : le_int elapsed args.timeout_ms ≡ true) where
    pub sum_loop_more :
        (now : ℕ)
        → (poll args stable s).0 ≡ ok (now, false)
        → sum_loop args (suc fuel) elapsed stable s
          ≡ sum_loop args fuel (elapsed + 100) now (nap (poll args stable s).1)
    unfolding sum_loop ◌>>=◌
    sum_loop_more now e = rw (within, e) refl

    pub sum_loop_done :
        (now : ℕ)
        → (poll args stable s).0 ≡ ok (now, true)
        → sum_loop args (suc fuel) elapsed stable s ≡ (ok 0, (poll args stable s).1)
    unfolding sum_loop ◌>>=◌
    sum_loop_done now e = rw (within, e) refl

    sum_loop_raised :
        (x : Error)
        → (poll args stable s).0 ≡ raised x
        → sum_loop args (suc fuel) elapsed stable s ≡ (raised x, (poll args stable s).1)
    unfolding sum_loop ◌>>=◌
    sum_loop_raised x e = rw (within, e) refl

-- So much fuel is enough for the time that is left.
Enough : ℕ → ℕ → ℤ → Type 0
Enough fuel elapsed (pos t) = t < elapsed + fuel * 100
Enough fuel elapsed (negsuc _) = Unit

over_of_Enough : (elapsed : ℕ) (t : ℤ) → Enough 0 elapsed t → le_int elapsed t ≡ false
unfolding Enough
over_of_Enough elapsed (pos t) h = ground arith
over_of_Enough elapsed (negsuc n) h = refl

Enough-suc :
    (fuel elapsed : ℕ) (t : ℤ) → Enough (suc fuel) elapsed t → Enough fuel (elapsed + 100) t
unfolding Enough
Enough-suc fuel elapsed (pos t) h = omega (arith, h)
Enough-suc fuel elapsed (negsuc n) h = tt

Enough-rounds : (t : ℤ) → Enough (rounds t) 0 t
unfolding Enough rounds
Enough-rounds (pos t) = omega arith
Enough-rounds (negsuc n) = tt

module _ (args : SumArgs) (fuel extra elapsed stable : ℕ) (s : Client)
    (within : le_int elapsed args.timeout_ms ≡ true)
    (later : (now : ℕ)
      → sum_loop args (fuel + extra) (elapsed + 100) now (nap (poll args stable s).1)
        ≡ sum_loop args fuel (elapsed + 100) now (nap (poll args stable s).1)) where
  same_round :
      (o : Outcome (ℕ × Bool))
      → (poll args stable s).0 ≡ o
      → sum_loop args (suc (fuel + extra)) elapsed stable s
        ≡ sum_loop args (suc fuel) elapsed stable s
  same_round (raised x) r =
      sum_loop_raised args (fuel + extra) elapsed stable s within x r
      ∙ sym (sum_loop_raised args fuel elapsed stable s within x r)
  same_round (ok (now, true)) r =
      sum_loop_done args (fuel + extra) elapsed stable s within now r
      ∙ sym (sum_loop_done args fuel elapsed stable s within now r)
  same_round (ok (now, false)) r =
      sum_loop_more args (fuel + extra) elapsed stable s within now r
      ∙ (later now ∙ sym (sum_loop_more args fuel elapsed stable s within now r))

more_fuel :
    (args : SumArgs) (fuel extra elapsed stable : ℕ) (s : Client)
    → Enough fuel elapsed args.timeout_ms
    → sum_loop args (fuel + extra) elapsed stable s ≡ sum_loop args fuel elapsed stable s
more_fuel args zero zero elapsed stable s h = let e : 0 + 0 ≡ 0 = omega arith in rw e refl
more_fuel args zero (suc extra) elapsed stable s h =
    let e : 0 + suc extra ≡ suc extra = omega arith in
    rw e (
      unfold sum_loop pure in
      sum_loop_over args extra elapsed stable s (over_of_Enough elapsed args.timeout_ms h))
more_fuel args (suc fuel) extra elapsed stable s h =
    let e : suc fuel + extra ≡ suc (fuel + extra) = omega arith in
    rw e (elim (Bool-cases (le_int elapsed args.timeout_ms)) [
      | inl within ↦
          same_round args fuel extra elapsed stable s within
            (λ now.
              more_fuel args fuel extra (elapsed + 100) now (nap (poll args stable s).1)
                (Enough-suc fuel elapsed args.timeout_ms h))
            (poll args stable s).0 refl
      | inr over ↦
          sum_loop_over args (fuel + extra) elapsed stable s over
          ∙ sym (sum_loop_over args fuel elapsed stable s over)
    ])

-- The loop has ended after the rounds of its timeout, whatever comes in and also when a poll raises: more
-- fuel makes no difference.
pub sum_loop-rounds :
    (args : SumArgs) (extra stable : ℕ) (s : Client)
    → sum_loop args (rounds args.timeout_ms + extra) 0 stable s
      ≡ sum_loop args (rounds args.timeout_ms) 0 stable s
sum_loop-rounds args extra stable s =
    more_fuel args (rounds args.timeout_ms) extra 0 stable s (Enough-rounds args.timeout_ms)
