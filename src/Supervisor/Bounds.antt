-- ===== src/Supervisor/Bounds.antt =====
-- Run ends, with a bounded number of processes, and the time for a graceful stop is bounded.
use mathlib.Core.Path.{subst}
use plexus_controller.Common.{
  ℕ, zero, suc, ◌+◌, ◌≤◌, ◌<◌, ◌≡◌, refl, sym, ◌∙◌, ◌≢◌, ◌⊎◌, inl, inr, true, false, arith, ◌==◌,
  Bool-cases,
}
use plexus_controller.Common.Int.{ℤ, pos, negsuc}
use plexus_controller.Supervisor.{
  exited, Attempt, out_of_fuel, Result, round, run_loop, run_attempts, stop_budget, second, drain,
}

-- A process that exits unexpectedly and is to be started again, with recoveries left.
pub record Restarts (recoveries k : ℕ) (a : Attempt) : Type 0 where
  pub not_done : a.done_before ≡ false
  pub prepared : a.command_ok ≡ true
  pub started : a.start_ok ≡ true
  pub crashed : a.event ≡ exited false false
  pub left : k < recoveries

-- A round of attempt k + 1 either goes on to the next one or returns, whatever comes next.
pub round-cases :
    (recoveries k starts : ℕ) (a : Attempt) (again again' : Result)
    → ((round recoveries (suc k) starts a again ≡ again) × Restarts recoveries k a)
      ⊎ ((round recoveries (suc k) starts a again ≡ round recoveries (suc k) starts a again')
          × ((round recoveries (suc k) starts a again').verdict ≢ out_of_fuel)
          × ((round recoveries (suc k) starts a again').starts ≤ suc starts))
round-cases recoveries k starts a again again' = ground arith

-- The round of attempt n + 1 taken as the last one.
abbrev pub last_round : ℕ → ℕ → Attempt → Result
last_round recoveries n a =
    round recoveries (suc n) n a (record { verdict = out_of_fuel; starts = n })

module _ (attempts : ℕ → Attempt) where
  -- The loop from attempt k + 1 on ends with the round of an attempt n + 1, behind attempts that
  -- each end in a restart.
  pub record LastRound (recoveries k : ℕ) (result : Result) : Type 0 where
    pub n : ℕ
    pub from : k ≤ n
    pub upto : n ≤ recoveries
    pub before : (i : ℕ) → k ≤ i → i < n → Restarts recoveries i (attempts (suc i))
    pub same : result ≡ last_round recoveries n (attempts (suc n))
    pub ends : (last_round recoveries n (attempts (suc n))).verdict ≢ out_of_fuel
    pub few : (last_round recoveries n (attempts (suc n))).starts ≤ suc n

  run_loop-LastRound :
      (fuel recoveries k : ℕ)
      → k + fuel ≡ recoveries + 1
      → k ≤ recoveries
      → LastRound recoveries k (run_loop attempts fuel recoveries (suc k) k)
  unfolding run_loop
  run_loop-LastRound zero recoveries k e h = absurd (omega arith)
  run_loop-LastRound (suc fuel) recoveries k e h =
      elim (round-cases recoveries k k (attempts (suc k)) again
        (record { verdict = out_of_fuel; starts = k })) [
          | inl (next, r) ↦
              let ih = run_loop-LastRound fuel recoveries (suc k) (omega arith) r.left in
              record {
                n = ih.n;
                from = omega arith;
                upto = ih.upto;
                before = λ i p q. elim (ℕ-cases i) [
                  | inl same ↦ subst (λ j. Restarts recoveries j (attempts (suc j))) (sym same) r
                  | inr above ↦ ih.before i (above p) q
                ];
                same = next ∙ ih.same;
                ends = ih.ends;
                few = ih.few;
              }
          | inr (same, ends, few) ↦ record {
            n = k;
            from = omega arith;
            upto = h;
            before = λ i p q. absurd (omega arith);
            same = same;
            ends = ends;
            few = few;
          }
        ]
    where
      again : Result
      again = run_loop attempts fuel recoveries (suc (suc k)) (suc k)

      ℕ-cases : (i : ℕ) → (i ≡ k) ⊎ (k ≤ i → suc k ≤ i)
      ℕ-cases i = elim (Bool-cases (i == k)) [
        | inl p ↦ inl (ground arith)
        | inr p ↦ inr (λ q. ground arith)
      ]

  pub run_attempts-LastRound :
      (recoveries : ℕ) → LastRound recoveries 0 (run_attempts attempts recoveries)
  unfolding run_attempts
  run_attempts-LastRound recoveries =
      run_loop-LastRound (recoveries + 1) recoveries 0 (omega arith) (omega arith)

  -- The loop returns within its fuel, and starts at most one process more than there are recoveries.
  pub run_attempts_bounds :
      (recoveries : ℕ)
      → ((run_attempts attempts recoveries).verdict ≢ out_of_fuel)
        × ((run_attempts attempts recoveries).starts ≤ recoveries + 1)
  run_attempts_bounds recoveries =
      let last = run_attempts-LastRound recoveries in
      (rw last.same last.ends, rw last.same (omega arith))

abbrev pub IsPositive : ℤ → ℕ → Type 0
IsPositive grace n = (grace ≡ pos n) × (0 < n)

abbrev pub IsNotPositive : ℤ → Type 0
IsNotPositive grace = (grace ≡ pos 0) ⊎ ((n : ℕ) × (grace ≡ negsuc n))

-- The time for a graceful stop is positive; for a positive grace period of the adapter it is at most
-- that period and no more than two seconds below it, and otherwise it is one second.
pub stop_budget_bounds :
    (grace : ℤ)
    → (0 < stop_budget grace)
      × (((n : ℕ) × IsPositive grace n × (stop_budget grace ≤ n) × (n ≤ stop_budget grace + drain))
          ⊎ (IsNotPositive grace × (stop_budget grace ≡ second)))
unfolding stop_budget
stop_budget_bounds (pos n) = elim (Bool-cases (n == 0)) [
  | inl e ↦ (ground arith, inr (inl (ground arith), ground arith))
  | inr e ↦ (ground arith, inl (n, (refl, ground arith), ground arith, ground arith))
]
stop_budget_bounds (negsuc n) = (omega arith, inr (inr (n, refl), refl))
