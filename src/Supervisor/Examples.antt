-- ===== src/Supervisor/Examples.antt =====
-- Lives of a supervised process, and the supervisor's theorems at them.
use plexus_controller.Common.{
  Text, codes, text_eq, contains_char, ℕ, suc, ◌+◌, ◌≤◌, ◌<◌, ◌≡◌, refl, ◌≢◌, ◌↔◌, ◌⊎◌, true, false,
  List, [], ◌∷◌, ◌==◌, if◌then◌else◌,
}
use plexus_controller.Common.Int.{pos, negsuc}
use plexus_controller.Saves.Paths.{path_ext, is_zip_ext}
use plexus_controller.Supervisor.{
  Event, exited, stop_requested, Attempt, no_updater, updated, failed, graceful, exhausted,
  out_of_fuel, run_loop, run_attempts, run, stop_budget, second, drain, update_failed,
}
use plexus_controller.Supervisor.Bounds.{
  Restarts, IsPositive, IsNotPositive, run_attempts_bounds, stop_budget_bounds,
}
use plexus_controller.Supervisor.Outcomes.{
  Crashes, Stops, run_attempts-exhausted_iff, run_attempts-graceful,
}
use plexus_controller.Supervisor.HostedSave.{
  Entry, ok, ambiguous, no_save, is_candidate, select_step, select_loop, select_hosted_save,
  IsChosen, select_hosted_save-IsChosen,
}

-- What a run computes with.
running : Unit {0}
unfolding run run_attempts run_loop stop_budget is_candidate select_step select_loop
    select_hosted_save path_ext is_zip_ext text_eq contains_char
running = tt

abbrev with_event : Event → Attempt
with_event e = record {
  done_before = false;
  command_ok = true;
  done_after_command = false;
  start_ok = true;
  event = e;
}

-- A process that always crashes, and one that is stopped in its third attempt.
abbrev crashing : ℕ → Attempt
crashing n = with_event (exited false false)

abbrev stopped_third : ℕ → Attempt
stopped_third n = with_event (if n == 3 then stop_requested true true else exited false false)

supervisor_tests :
    (run crashing true (pos 3) no_updater ≡ record { verdict = exhausted; starts = 4 })
    × (run crashing true (negsuc 0) updated ≡ record { verdict = exhausted; starts = 1 })
    × (run stopped_third true (pos 3) no_updater ≡ record { verdict = graceful; starts = 3 })
    × (run stopped_third true (pos 3) (failed false)
        ≡ record { verdict = update_failed; starts = 0 })
    × (stop_budget (pos 90000000000) ≡ 88000000000)
unfolding running
supervisor_tests = (refl, refl, refl, refl, refl)

run_attempts_bounds_example :
    ((run_attempts crashing 3).verdict ≢ out_of_fuel) × ((run_attempts crashing 3).starts ≤ 4)
run_attempts_bounds_example = run_attempts_bounds crashing 3

run_attempts-exhausted_iff_example :
    ((run_attempts crashing 1).verdict ≡ exhausted)
    ↔ (((i : ℕ) → i < 1 → Restarts 1 i (crashing (suc i))) × Crashes (crashing 2))
run_attempts-exhausted_iff_example = run_attempts-exhausted_iff crashing 1

run_attempts-graceful_example :
    (n : ℕ) × (n ≤ 3)
    × Stops (stopped_third (suc n))
    × ((i : ℕ) → i < n → Restarts 3 i (stopped_third (suc i)))
unfolding running
run_attempts-graceful_example = run_attempts-graceful stopped_third 3 refl

stop_budget_bounds_example :
    (0 < stop_budget (pos 90000000000))
    × (((n : ℕ) × IsPositive (pos 90000000000) n
          × (stop_budget (pos 90000000000) ≤ n)
          × (n ≤ stop_budget (pos 90000000000) + drain))
        ⊎ (IsNotPositive (pos 90000000000) × (stop_budget (pos 90000000000) ≡ second)))
stop_budget_bounds_example = stop_budget_bounds (pos 90000000000)

abbrev save : Text → ℕ → Entry
save name modified = record {
  name = name;
  symlink = false;
  readable = true;
  regular = true;
  modified = modified;
}

abbrev saves : List Entry
saves = save (codes "a.zip") 3 ∷ save (codes "b.ZIP") 7 ∷ save (codes "c.txt") 9 ∷ []

hosted_save_tests :
    (select_hosted_save saves ≡ ok (codes "b.ZIP"))
    × (select_hosted_save (save (codes "d.zip") 7 ∷ saves) ≡ ambiguous)
    × (select_hosted_save (record (save (codes "d.zip") 8) { symlink = true } ∷ saves)
        ≡ ok (codes "b.ZIP"))
    × (select_hosted_save [] ≡ no_save)
unfolding running
hosted_save_tests = (refl, refl, refl, refl)

select_hosted_save-IsChosen_example : IsChosen saves (select_hosted_save saves)
select_hosted_save-IsChosen_example = select_hosted_save-IsChosen saves
