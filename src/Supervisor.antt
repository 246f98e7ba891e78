-- ===== src/Supervisor.antt =====
-- internal/supervisor/supervisor.go: Supervisor.Run, which boots the game process, restarts it after
-- an unexpected exit and stops it on request, and stopBudget.
-- The adapter, the process and the context are the environment: what they answer is handed over as
-- data. The durations are in nanoseconds.
pub mod Bounds
pub mod Outcomes
pub mod HostedSave
pub mod Examples
use plexus_controller.Common.{
  ℕ, zero, suc, ◌+◌, ◌-◌, ◌≡◌, Bool, true, false, not, arith, leb, ◌==◌, if◌then◌else◌,
}
use plexus_controller.Common.Int.{ℤ, pos, negsuc}

-- What the select over the process and the context sees in one attempt.
pub data Event : Type 0 where
  -- The process exits; the context may be done by then, or become done in the recovery delay.
  exited : (done_now done_in_delay : Bool) → Event
  -- The context is done first: whether GracefulStop succeeds, and whether the process exits in time.
  stop_requested : (stop_ok exited_in_time : Bool) → Event

-- One round of the loop as the environment answers it.
pub record Attempt : Type 0 where
  pub done_before : Bool  -- ctx.Err() != nil at the head of the loop
  pub command_ok : Bool
  pub done_after_command : Bool  -- ctx.Err() != nil when Command has failed
  pub start_ok : Bool
  pub event : Event

-- UpdateOnBoot of an adapter that has it.
pub data Update : Type 0 where
  no_updater updated : Update
  failed : (done : Bool) → Update

-- How Run returns; `graceful` is the nil error.
pub data Verdict : Type 0 where
  graceful no_adapter update_failed prepare_failed start_failed : Verdict
  exhausted stop_failed stop_timeout : Verdict
  out_of_fuel : Verdict

-- The verdict, with the number of processes that were started.
pub record Result : Type 0 where
  pub verdict : Verdict
  pub starts : ℕ

-- `if recoveries < 0 { recoveries = 0 }`
abbrev pub clamp_recoveries : ℤ → ℕ
clamp_recoveries (pos n) = n
clamp_recoveries (negsuc n) = 0

abbrev pub stopped_verdict : Bool → Bool → Verdict
stopped_verdict stop_ok true = graceful
stopped_verdict false false = stop_failed
stopped_verdict true false = stop_timeout

-- What follows a process that was started; `again` is the next round.
abbrev pub after_start : ℕ → ℕ → ℕ → Event → Result → Result
after_start recoveries attempt starts (exited done_now done_in_delay) again =
    if done_now
    then record { verdict = graceful; starts = starts }
    else if leb recoveries (attempt - 1)
    then record { verdict = exhausted; starts = starts }
    else if done_in_delay
    then record { verdict = graceful; starts = starts }
    else again
after_start recoveries attempt starts (stop_requested stop_ok exited_in_time) again = record {
  verdict = stopped_verdict stop_ok exited_in_time;
  starts = starts;
}

-- One round of the loop, before which `starts` processes were started.
abbrev pub round : ℕ → ℕ → ℕ → Attempt → Result → Result
round recoveries attempt starts a again =
    if a.done_before
    then record { verdict = graceful; starts = starts }
    else if not a.command_ok
    then record {
      verdict = if a.done_after_command then graceful else prepare_failed;
      starts = starts;
    }
    else if not a.start_ok
    then record { verdict = start_failed; starts = starts }
    else after_start recoveries attempt (suc starts) a.event again

module _ (attempts : ℕ → Attempt) where
  unfoldable pub run_loop : ℕ → ℕ → ℕ → ℕ → Result
  run_loop zero recoveries attempt starts = record { verdict = out_of_fuel; starts = starts }
  run_loop (suc fuel) recoveries attempt starts =
      let again = run_loop fuel recoveries (suc attempt) (suc starts) in
      round recoveries attempt starts (attempts attempt) again

  -- The loop behind the update. It makes at most one attempt more than there are recoveries.
  unfoldable pub run_attempts : ℕ → Result
  run_attempts recoveries = run_loop (recoveries + 1) recoveries 1 0

  unfoldable pub run : Bool → ℤ → Update → Result
  run has_adapter max_process_recoveries update =
      if not has_adapter then record { verdict = no_adapter; starts = 0 } else elim update [
        | failed done ↦ record { verdict = if done then graceful else update_failed; starts = 0 }
        | _ ↦ run_attempts (clamp_recoveries max_process_recoveries)
      ]

abbrev pub second : ℕ
second = 1000000000

abbrev pub drain : ℕ
drain = 2000000000

unfoldable pub stop_budget : ℤ → ℕ
stop_budget (negsuc n) = second
stop_budget (pos grace) =
    if grace == 0 then second else if leb grace drain then grace else grace - drain
