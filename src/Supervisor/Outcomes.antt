-- ===== src/Supervisor/Outcomes.antt =====
-- When Run gives up and when it returns no error.
use mathlib.Core.Path.{subst}
use plexus_controller.Common.{
  ℕ, suc, ◌≤◌, ◌<◌, ◌≡◌, sym, ap, ◌∙◌, ◌↔◌, ◌⊎◌, inl, inr, Bool, true, false, arith, ltb, ltb→lt,
  Bool-cases,
}
use plexus_controller.Supervisor.{
  exited, stop_requested, Attempt, graceful, exhausted, out_of_fuel, Result, run_attempts,
}
use plexus_controller.Supervisor.Bounds.{Restarts, last_round, LastRound, run_attempts-LastRound}

-- An attempt whose process was started and exits while the context is not done.
abbrev pub Crashes : Attempt → Type 0
Crashes a =
    (in_delay : Bool) × (a.event ≡ exited false in_delay)
    × (a.done_before ≡ false)
    × (a.command_ok ≡ true)
    × (a.start_ok ≡ true)

-- An attempt in which the stop was asked for: the context is done, or the graceful stop was carried
-- out and the process is gone.
abbrev pub Stops : Attempt → Type 0
Stops a =
    (a.done_before ≡ true)
    ⊎ ((a.command_ok ≡ false) × (a.done_after_command ≡ true))
    ⊎ ((in_delay : Bool) × (a.event ≡ exited true in_delay))
    ⊎ (a.event ≡ exited false true)
    ⊎ ((ok : Bool) × (a.event ≡ stop_requested ok true))

last_round-exhausted :
    (recoveries n : ℕ) (a : Attempt)
    → (last_round recoveries n a).verdict ≡ exhausted
    → Crashes a × (recoveries ≤ n)
last_round-exhausted recoveries n a h = ground arith

last_round_of_crash :
    (recoveries : ℕ) (a : Attempt)
    → Crashes a
    → (last_round recoveries recoveries a).verdict ≡ exhausted
last_round_of_crash recoveries a (d, e, x, y, z) = ground arith

last_round-graceful :
    (recoveries n : ℕ) (a : Attempt) → (last_round recoveries n a).verdict ≡ graceful → Stops a
last_round-graceful recoveries n a h = ground arith

last_round_of_Restarts :
    (recoveries n : ℕ) (a : Attempt)
    → Restarts recoveries n a
    → (last_round recoveries n a).verdict ≡ out_of_fuel
last_round_of_Restarts recoveries n a r = ground arith

module _ (attempts : ℕ → Attempt) where
  -- Every attempt before the last one is followed by a restart.
  abbrev pub AllRestart : ℕ → Type 0
  AllRestart recoveries = (i : ℕ) → i < recoveries → Restarts recoveries i (attempts (suc i))

  exhausted_sound :
      (recoveries : ℕ)
      → LastRound attempts recoveries 0 (run_attempts attempts recoveries)
      → (run_attempts attempts recoveries).verdict ≡ exhausted
      → AllRestart recoveries × Crashes (attempts (suc recoveries))
  exhausted_sound recoveries last h = (
    (λ i p. last.before i (omega arith) (rw at_end p)),
    subst (λ n. Crashes (attempts (suc n))) at_end found.0,
  )
    where
      found : Crashes (attempts (suc last.n)) × (recoveries ≤ last.n)
      found =
          last_round-exhausted recoveries last.n (attempts (suc last.n))
            (ap (λ (r : Result). r.verdict) (sym last.same) ∙ h)

      at_end : last.n ≡ recoveries
      at_end = omega (arith, found.1, last.upto)

  exhausted_complete :
      (recoveries : ℕ)
      → LastRound attempts recoveries 0 (run_attempts attempts recoveries)
      → AllRestart recoveries
      → Crashes (attempts (suc recoveries))
      → (run_attempts attempts recoveries).verdict ≡ exhausted
  exhausted_complete recoveries last restarts crash =
      ap (λ (r : Result). r.verdict) last.same
      ∙ (ap (λ n. (last_round recoveries n (attempts (suc n))).verdict) at_end
          ∙ last_round_of_crash recoveries (attempts (suc recoveries)) crash)
    where
      early : (last.n < recoveries) → ⊥
      early p =
          last.ends
            (last_round_of_Restarts recoveries last.n (attempts (suc last.n)) (restarts last.n p))

      at_end : last.n ≡ recoveries
      at_end = elim (Bool-cases (ltb last.n recoveries)) [
        | inl p ↦ absurd (early (ltb→lt last.n recoveries p))
        | inr p ↦ ground (arith, last.upto)
      ]

  -- Run gives up exactly if the first attempts, one for each recovery, all end in a restart and the
  -- attempt behind them crashes, too.
  pub run_attempts-exhausted_iff :
      (recoveries : ℕ)
      → ((run_attempts attempts recoveries).verdict ≡ exhausted)
        ↔ (AllRestart recoveries × Crashes (attempts (suc recoveries)))
  run_attempts-exhausted_iff recoveries = (
    exhausted_sound recoveries (run_attempts-LastRound attempts recoveries),
    λ h. exhausted_complete recoveries (run_attempts-LastRound attempts recoveries) h.0 h.1,
  )

  -- The loop returns no error only if a stop was asked for: in some attempt, behind attempts that all
  -- ended in a restart, the context is done, or a graceful stop was carried out and the process ended.
  pub run_attempts-graceful :
      (recoveries : ℕ)
      → (run_attempts attempts recoveries).verdict ≡ graceful
      → (n : ℕ) × (n ≤ recoveries)
        × Stops (attempts (suc n))
        × ((i : ℕ) → i < n → Restarts recoveries i (attempts (suc i)))
  run_attempts-graceful recoveries h =
      let last = run_attempts-LastRound attempts recoveries in
      (
        last.n,
        last.upto,
        last_round-graceful recoveries last.n (attempts (suc last.n))
            (ap (λ (r : Result). r.verdict) (sym last.same) ∙ h),
        (λ i p. last.before i (omega arith) p),
      )
