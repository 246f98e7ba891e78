-- ===== src/SaveImport/Owners.antt =====
-- internal/controller/saveimport_controller.go: objects with another owner under Reconcile.
use plexus_controller.Common.{Text, ℕ, ◌≡◌, refl, Bool, Option, none, some, arith}
use plexus_controller.SaveImport.Cluster.{
  Status, Job, Identity, World, call, ◌>>=◌, Surroundings, Termination,
}
use plexus_controller.SaveImport.Reconcile.{
  authorize, with_refusal, job_termination_result, conclude_success, conclude_failure,
  observe_progress, follow, with_job, create_job, advance, reconcile_live, reconcile, dispatch,
  on_job, on_authorization, update_if,
}
use plexus_controller.SaveImport.Keeps.{Keeps}
use plexus_controller.SaveImport.Untouched.{
  Untouched, Keeps-update_status, Keeps-set_finalizer, Keeps-read, Keeps-attempt, Keeps-bind,
  Keeps-value, Keeps-if, Keeps-finish, Keeps-get_job, Keeps-choice, Keeps-settle,
  Keeps-reconcile_deleted,
}

module _ (import : Identity) (env : Surroundings) (lower_high : ℕ → ℕ)
    (unmarshal : Text → Option Termination) (job_uid : ℕ) where
  Keeps-with_refusal :
      (refusal : Option Text)
      → Keeps (Untouched import) (with_refusal import env lower_high unmarshal job_uid refusal)
  Keeps-with_refusal (some reason) = Keeps-value import _
  Keeps-with_refusal none =
      Keeps-bind import _ _ (Keeps-attempt import _) (λ secret. Keeps-value import _)

  Keeps-authorize : Keeps (Untouched import) (authorize import env lower_high unmarshal job_uid)
  unfolding authorize
  Keeps-authorize = Keeps-bind import _ _ (Keeps-attempt import _) (λ server. Keeps-with_refusal _)

  Keeps-update_if :
      (next : Option Status)
      → Keeps (Untouched import) (update_if import env lower_high unmarshal job_uid next)
  Keeps-update_if none = Keeps-value import tt
  Keeps-update_if (some status) = Keeps-update_status import status

  Keeps-observe_progress :
      (status : Status) (job : Job)
      → Keeps
          (Untouched import)
          (observe_progress import env lower_high unmarshal job_uid status job)
  unfolding observe_progress
  Keeps-observe_progress status job =
      Keeps-choice import env.has_progress_reader _ _
        (Keeps-bind import _ _ (Keeps-attempt import _) (λ pods. Keeps-update_if _))
        (Keeps-value import tt)

  Keeps-follow :
      (status : Status) (job : Job)
      → Keeps (Untouched import) (follow import env lower_high unmarshal job_uid status job)
  unfolding follow
  Keeps-follow status job =
      Keeps-bind import _ _ (Keeps-if import _ _ (Keeps-update_status import _))
        (λ _. Keeps-bind import _ _ (Keeps-observe_progress _ job) (λ _. Keeps-value import _))

  Keeps-conclude_success :
      (status : Status) (result : Option Termination)
      → Keeps
          (Untouched import)
          (conclude_success import env lower_high unmarshal job_uid status result)
  unfolding conclude_success
  Keeps-conclude_success status none = Keeps-finish import _ _ _ _ _ _
  Keeps-conclude_success status (some result) =
      Keeps-choice import _ _ _ (Keeps-finish import _ _ _ _ _ _) (Keeps-finish import _ _ _ _ _ _)

  Keeps-conclude_failure :
      (status : Status) (result : Option Termination)
      → Keeps
          (Untouched import)
          (conclude_failure import env lower_high unmarshal job_uid status result)
  unfolding conclude_failure
  Keeps-conclude_failure status none = Keeps-finish import _ _ _ _ _ _
  Keeps-conclude_failure status (some result) =
      Keeps-choice import _ _ _ (Keeps-finish import _ _ _ _ _ _) (Keeps-finish import _ _ _ _ _ _)

  Keeps-result :
      (job : Job)
      → Keeps
          (Untouched import)
          (job_termination_result import env lower_high unmarshal job_uid job)
  unfolding job_termination_result
  Keeps-result job =
      Keeps-bind import _ _ (Keeps-attempt import _) (λ message. Keeps-value import _)

  Keeps-with_job :
      (status : Status) (job : Job)
      → Keeps (Untouched import) (with_job import env lower_high unmarshal job_uid status job)
  unfolding with_job
  Keeps-with_job status job = Keeps-choice import _ _ _ (Keeps-finish import _ _ _ _ _ _) (
      Keeps-choice import _ _ _
        (Keeps-bind import _ _ (Keeps-result job) (Keeps-conclude_success status))
        (Keeps-choice import _ _ _
          (Keeps-bind import _ _ (Keeps-result job) (Keeps-conclude_failure status))
          (Keeps-follow status job)))

  -- The Job is created only where there was none.
  create_job-Untouched :
      (w : World)
      → w.job ≡ none
      → Untouched import w (create_job import env lower_high unmarshal job_uid w).0
  unfolding create_job call ◌>>=◌
  create_job-Untouched w absent = record { job = λ j h k. cc; secret = λ s h k. ground arith }

  on_job-Untouched :
      (status : Status) (job : Option Job) (w : World)
      → w.job ≡ job
      → Untouched import w (on_job import env lower_high unmarshal job_uid status job w).0
  unfolding Keeps
  on_job-Untouched status none w h = create_job-Untouched w h
  on_job-Untouched status (some job) w h = Keeps-with_job status job w

  Keeps-on_authorization :
      (status : Status) (refusal : Option Text)
      → Keeps
          (Untouched import)
          (on_authorization import env lower_high unmarshal job_uid status refusal)
  Keeps-on_authorization status (some reason) = Keeps-finish import _ _ _ _ _ _
  Keeps-on_authorization status none =
      Keeps-get_job import _ (λ w. on_job-Untouched status w.job w refl)

  Keeps-advance :
      (status : Status)
      → Keeps (Untouched import) (advance import env lower_high unmarshal job_uid status)
  unfolding advance
  Keeps-advance status =
      Keeps-choice import _ _ _ (Keeps-finish import _ _ _ _ _ _)
        (Keeps-bind import _ _ Keeps-authorize (Keeps-on_authorization status))

  Keeps-dispatch :
      (stored : Status × Bool)
      → Keeps (Untouched import) (dispatch import env lower_high unmarshal job_uid stored)
  unfolding reconcile_live
  Keeps-dispatch (status, finalizer) =
      Keeps-choice import _ _ _
        (Keeps-reconcile_deleted import env lower_high unmarshal job_uid status finalizer)
        (Keeps-bind import _ _ (Keeps-if import _ _ (Keeps-set_finalizer import _)) (λ _.
          Keeps-choice import _ _ _ (Keeps-settle import env lower_high unmarshal job_uid status)
            (Keeps-advance status)))

  -- Whatever calls fail, Reconcile leaves a Job that another object controls, and a Secret without the
  -- labels of the import, as they are.
  pub reconcile-Untouched :
      (w : World) → Untouched import w (reconcile import env lower_high unmarshal job_uid w).0
  unfolding reconcile Keeps
  reconcile-Untouched w = Keeps-bind import _ _ (Keeps-read import _) Keeps-dispatch w
