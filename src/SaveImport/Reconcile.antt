-- ===== src/SaveImport/Reconcile.antt =====
-- internal/controller/saveimport_controller.go: Reconcile of SaveImportReconciler, with authorize and
-- the branches of its Job.
-- `unmarshal` stands for encoding/json's decoding of a termination message, `lower_high` for
-- unicode.ToLower above ASCII, and `job_uid` for the uid that the API server gives to a new Job.
use plexus_controller.Common.{
  Text, codes, text_eq, ℕ, ◌-◌, min, max, Bool, true, false, ◌&&◌, not, Option, none, some, List,
  ltb, leb, if◌then◌else◌, is_nil,
}
use plexus_controller.Common.Int.{ℤ, pos, negsuc}
use plexus_controller.SaveImport.Cluster.{
  World, Phase, succeeded, failed, expired, Status, Job, Progress, Pod, Identity, Surroundings,
  Termination, Action, pure, call, ◌>>=◌, ◌>>◌,
}
use plexus_controller.SaveImport.Messages.{
  is, valid_import_failure_stage, bounded_diagnostic, import_failure_recovery,
  import_failure_message,
}
use plexus_controller.SaveImport.Authorize.{server_refusal, secret_refusal, seconds}
use plexus_controller.SaveImport.Operations.{
  attempt, no_change, when, is_controlled_by, update_status, set_finalizer, get_job, cleanup,
  diagnosis, cleanup_status, is_running, is_terminal, finish, Requeue, job_for, starting_status,
  job_termination, observe_pods, observed_status,
}

abbrev pub is_positive : ℤ → Bool
is_positive (negsuc n) = false
is_positive (pos n) = ltb 0 n

-- A size that `is_positive` has let through.
abbrev pub size_of : ℤ → ℕ
size_of (negsuc n) = 0
size_of (pos n) = n

module _ (import : Identity) (env : Surroundings) (lower_high : ℕ → ℕ)
    (unmarshal : Text → Option Termination) (job_uid : ℕ) where
  -- The Secret is read if the server is granted.
  abbrev pub with_refusal : Option Text → Action (Option Text)
  with_refusal (some reason) = pure (some reason)
  with_refusal none = attempt (λ w. w.secret) >>= λ secret. pure (secret_refusal import secret)

  -- authorize: the error, if there is one.
  unfoldable pub authorize : Action (Option Text)
  authorize = do server ← attempt (λ w. env.server); with_refusal (server_refusal import env server)

  abbrev pub stop : Status → Phase → Text → Text → Text → Action Requeue
  stop = finish import env.now

  abbrev pub with_bounded : Option Termination → Option Termination
  with_bounded none = none
  with_bounded (some result) = some (record result { message = bounded_diagnostic result.message })

  abbrev pub decoded : Option Text → Option Termination
  decoded none = none
  decoded (some message) = with_bounded (unmarshal message)

  -- jobTerminationResult
  unfoldable pub job_termination_result : Job → Action (Option Termination)
  job_termination_result job = do
    message ← attempt (λ w. job_termination job.uid env.pods)
    pure (decoded message)

  abbrev pub is_complete : Termination → Bool
  is_complete result = is result.stage (codes "complete") && is_positive result.archive_bytes

  abbrev pub recovery_of : Termination → Text
  recovery_of result = if is_nil result.recovery then codes "snapshot-created" else result.recovery

  abbrev pub no_metadata : Status → Action Requeue
  no_metadata status = stop status failed (codes "observation") (codes "none") (
      codes
        "The importer completed without valid archive size metadata. Recovery status is unknown.")

  abbrev pub replaced : Text
  replaced =
      codes
        "The hosted save was replaced. A recovery snapshot of the previous save is retained. The Server remains stopped."

  abbrev pub sized : Status → Termination → Status
  sized status result = record status { archive_bytes = size_of result.archive_bytes }

  -- The Job has succeeded.
  unfoldable pub conclude_success : Status → Option Termination → Action Requeue
  conclude_success status none = no_metadata status
  conclude_success status (some result) =
      if is_complete result
      then stop (sized status result) succeeded (codes "complete") (recovery_of result) replaced
      else no_metadata status

  abbrev pub no_outcome : Status → Action Requeue
  no_outcome status =
      stop status failed (codes "job") (codes "none")
        (codes "The hosted save replacement failed before a recovery outcome was recorded.")

  -- The Job has failed.
  unfoldable pub conclude_failure : Status → Option Termination → Action Requeue
  conclude_failure status none = no_outcome status
  conclude_failure status (some result) =
      let message = bounded_diagnostic (import_failure_message lower_high result) in
      if valid_import_failure_stage result.stage
      then stop status failed result.stage (import_failure_recovery result) message
      else no_outcome status

  abbrev pub update_if : Option Status → Action (Unit {0})
  update_if none = pure tt
  update_if (some status) = update_status status

  -- The pods that are listed, if the list can be read.
  abbrev pub observation : Job → Option (List Pod) → Option (Option Progress)
  observation job none = none
  observation job (some pods) = observe_pods job.uid pods none

  abbrev pub read_progress : Status → Job → Action (Unit {0})
  read_progress status job = do
    pods ← attempt (λ w. some env.pods)
    update_if (observed_status status (observation job pods))

  -- observeProgress, whose errors are only logged.
  unfoldable pub observe_progress : Status → Job → Action (Unit {0})
  observe_progress status job =
      if env.has_progress_reader then read_progress status job else pure tt

  unfoldable pub follow : Status → Job → Action Requeue
  follow status job = do
    let started : Status =
        if is_running status.phase then status else starting_status import env.now
    when (not (is_running status.phase)) (update_status started)
    observe_progress started job
    pure (some (min (seconds 5) (import.spec.expires_at - env.now)))

  abbrev pub different_owner : Text
  different_owner = codes "A same-name Job has different ownership; it was left untouched"

  abbrev pub not_in_time : Text
  not_in_time = codes "The save replacement authorization expired before completion"

  unfoldable pub with_job : Status → Job → Action Requeue
  with_job status job =
      if not (is_controlled_by job.controller import.uid)
      then stop status failed (codes "cleanup") (codes "none") different_owner
      else if ltb 0 job.succeeded
      then job_termination_result job >>= conclude_success status
      else if ltb 0 job.failed
      then job_termination_result job >>= conclude_failure status
      else follow status job

  unfoldable pub create_job : Action Requeue
  create_job = do
    call (λ w. record w { job = some (job_for import env.now job_uid) }) (λ w. tt)
    update_status (starting_status import env.now)
    pure (some (seconds 2))

  abbrev pub on_job : Status → Option Job → Action Requeue
  on_job status none = create_job
  on_job status (some job) = with_job status job

  abbrev pub on_authorization : Status → Option Text → Action Requeue
  on_authorization status (some reason) =
      stop status failed (codes "authorization") (codes "none") reason
  on_authorization status none = get_job >>= on_job status

  -- A phase that is not terminal.
  unfoldable pub advance : Status → Action Requeue
  advance status =
      if leb import.spec.expires_at env.now
      then stop status expired (codes "expired") (codes "none") not_in_time
      else authorize >>= on_authorization status

  -- A terminal phase.
  unfoldable pub settle : Status → Action Requeue
  settle status = do
    let remove_job : Bool = leb import.spec.expires_at env.now
    diagnostics ← cleanup import remove_job
    when (not (is_nil diagnostics) && not (text_eq status.message (diagnosis diagnostics)))
        (update_status (cleanup_status status diagnostics))
    pure (if remove_job then none else some (max (seconds 1) (import.spec.expires_at - env.now)))

  unfoldable pub reconcile_deleted : Status → Bool → Action Requeue
  reconcile_deleted status finalizer = do
    diagnostics ← cleanup import true
    when (not (is_nil diagnostics))
        (update_status (cleanup_status (record status { phase = failed }) diagnostics))
    when finalizer (set_finalizer false)
    pure none

  unfoldable pub reconcile_live : Status → Bool → Action Requeue
  reconcile_live status finalizer = do
    when (not finalizer) (set_finalizer true)
    if is_terminal status.phase then settle status else advance status

  abbrev pub dispatch : Status × Bool → Action Requeue
  dispatch (status, finalizer) =
      if import.deleting
      then reconcile_deleted status finalizer
      else reconcile_live status finalizer

  abbrev pub stored : World → Status × Bool
  stored w = (w.status, w.finalizer)

  -- Reconcile of an import that is there.
  unfoldable pub reconcile : Action Requeue
  reconcile = call no_change stored >>= dispatch
