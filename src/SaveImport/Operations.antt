-- ===== src/SaveImport/Operations.antt =====
-- internal/controller/saveimport_controller.go: cleanup, finish, authorize, observeProgress,
-- jobTerminationResult, jobFor and Reconcile of SaveImportReconciler.
-- The clock is read once; a call of the API for an object that is not there answers NotFound, which is
-- no fault.
use plexus_controller.Common.{
  Text, codes, text_eq, ℕ, ◌-◌, ◌/◌, Bool, true, false, ◌&&◌, not, Option, none, some, List, [],
  ◌∷◌, ◌++◌, leb, ◌==◌, if◌then◌else◌, is_nil,
}
use plexus_controller.SaveImport.Cluster.{
  Phase, running, succeeded, failed, expired, Status, Labels, Job, Secret, Progress, unreadable,
  absent, seen, Container, Pod, Identity, World, Action, pure, call, ◌>>=◌, ◌>>◌, done,
}
use plexus_controller.SaveImport.Messages.{
  bounded_diagnostic, join, import_progress_message, better,
}
use plexus_controller.SaveImport.Authorize.{save_import_authorization_owned_by}

-- A call whose error, NotFound or other, is answered in the same way.
abbrev pub attempt {ℓ} : {A : Type ℓ} → (World → Option A) → Action (Option A)
attempt read w = elim w.faults [
  | [] ↦ (w, done (read w))
  | true ∷ faults ↦ (record w { faults = faults }, done none)
  | false ∷ faults ↦ (record w { faults = faults }, done (read w))
]

abbrev pub no_change : World → World
no_change w = w

abbrev pub when : Bool → Action (Unit {0}) → Action (Unit {0})
when true m = m
when false m = pure tt

-- metav1.IsControlledBy
unfoldable pub is_controlled_by : Option ℕ → ℕ → Bool
is_controlled_by none uid = false
is_controlled_by (some controller) uid = controller == uid

abbrev pub update_status : Status → Action (Unit {0})
update_status status = call (λ w. record w { status = status }) (λ w. tt)

abbrev pub set_finalizer : Bool → Action (Unit {0})
set_finalizer present = call (λ w. record w { finalizer = present }) (λ w. tt)

abbrev pub foreign_job_message : Text
foreign_job_message = codes "A same-name Job has different ownership and was left untouched"

abbrev pub foreign_secret_message : Text
foreign_secret_message =
    codes "The referenced Secret has different ownership and was left untouched"

abbrev pub owned_job : Identity → Option Job → Bool
owned_job import none = false
owned_job import (some job) = is_controlled_by job.controller import.uid

abbrev pub foreign_job : Identity → Option Job → List Text
foreign_job import none = []
foreign_job import (some job) =
    if is_controlled_by job.controller import.uid then [] else foreign_job_message ∷ []

abbrev pub owned_secret : Identity → Option Secret → Bool
owned_secret import none = false
owned_secret import (some secret) = save_import_authorization_owned_by secret import

abbrev pub foreign_secret : Identity → Option Secret → List Text
foreign_secret import none = []
foreign_secret import (some secret) =
    if save_import_authorization_owned_by secret import then [] else foreign_secret_message ∷ []

abbrev pub delete_job : Action (Unit {0})
delete_job = call (λ w. record w { job = none }) (λ w. tt)

abbrev pub delete_secret : Action (Unit {0})
delete_secret = call (λ w. record w { secret = none }) (λ w. tt)

abbrev pub get_job : Action (Option Job)
get_job = call no_change (λ w. w.job)

abbrev pub get_secret : Action (Option Secret)
get_secret = call no_change (λ w. w.secret)

unfoldable pub cleanup : Identity → Bool → Action (List Text)
cleanup import remove_job = do
  job ← get_job
  when (remove_job && owned_job import job) delete_job
  secret ← get_secret
  when (owned_secret import secret) delete_secret
  pure (foreign_job import job ++ foreign_secret import secret)

abbrev pub diagnosis : List Text → Text
diagnosis diagnostics = bounded_diagnostic (join (codes "; ") diagnostics)

abbrev pub cleanup_status : Status → List Text → Status
cleanup_status status diagnostics = record status {
  stage = codes "cleanup";
  message = diagnosis diagnostics;
}

abbrev pub report : Status → List Text → Action (Unit {0})
report status diagnostics =
    when (not (is_nil diagnostics)) (update_status (cleanup_status status diagnostics))

abbrev pub is_succeeded : Phase → Bool
is_succeeded succeeded = true
is_succeeded _ = false

abbrev pub is_expired : Phase → Bool
is_expired expired = true
is_expired _ = false

abbrev pub is_running : Phase → Bool
is_running running = true
is_running _ = false

abbrev pub is_terminal : Phase → Bool
is_terminal succeeded = true
is_terminal failed = true
is_terminal expired = true
is_terminal _ = false

abbrev pub finished_status : ℕ → Status → Phase → Text → Text → Text → Status
finished_status now status phase stage recovery message = record status {
  phase = phase;
  stage = stage;
  recovery = recovery;
  message = bounded_diagnostic message;
  finished_at = some now;
  progress_percent = if is_succeeded phase then 100 else status.progress_percent;
}

-- How the reconciler asks to be called again, in nanoseconds.
abbrev pub Requeue : Type 0
Requeue = Option ℕ

unfoldable pub finish : Identity → ℕ → Status → Phase → Text → Text → Text → Action Requeue
finish import now status phase stage recovery message = do
  let ended : Status = finished_status now status phase stage recovery message
  update_status ended
  diagnostics ← cleanup import (is_expired phase)
  report ended diagnostics
  pure none

-- The label set of importLabels.
abbrev pub import_labels : Identity → Labels
import_labels import = record {
  server_id = import.spec.server_id;
  owner_user_id = import.spec.owner_user_id;
  setup_id = import.spec.setup_id;
  game_id = import.spec.game_id;
  save_import_id = import.name;
}

-- `uid` is the uid that the API server gives to the Job.
unfoldable pub job_for : Identity → ℕ → ℕ → Job
job_for import now uid = record {
  uid = uid;
  controller = some import.uid;
  labels = import_labels import;
  deadline_seconds = (import.spec.expires_at - now) / 1000000000;
  secret_ref = import.spec.download_url_secret_ref;
  claim_name = import.spec.server_id;
  succeeded = 0;
  failed = 0;
}

abbrev pub starting_status : Identity → ℕ → Status
starting_status import now = record {
  phase = running;
  progress_percent = 0;
  stage = codes "starting";
  archive_name = import.spec.archive_name;
  archive_bytes = 0;
  message = codes "The importer Job is starting";
  recovery = [];
  started_at = some now;
  finished_at = none;
}

abbrev pub importer_container : Text
importer_container = codes "save-importer"

-- The message of the first terminated importer container.
unfoldable pub first_termination : List Container → Option Text
first_termination [] = none
first_termination (container ∷ containers) =
    let rest = first_termination containers in
    if text_eq container.name importer_container
    then elim container.terminated [ none ↦ rest | some message ↦ some message ]
    else rest

abbrev pub or_else : Option Text → Option Text → Option Text
or_else none later = later
or_else (some message) later = some message

unfoldable pub job_termination : ℕ → List Pod → Option Text
job_termination uid [] = none
job_termination uid (pod ∷ pods) =
    let rest = job_termination uid pods in
    if is_controlled_by pod.controller uid
    then or_else (first_termination pod.containers) rest
    else rest

-- One pod of observeProgress: none if its progress cannot be read.
abbrev pub observe_pod : ℕ → Option Progress → Pod → Option (Option Progress)
observe_pod uid latest pod =
    if is_controlled_by pod.controller uid
    then elim pod.latest [
      | unreadable ↦ none
      | absent ↦ some latest
      | seen progress ↦ some (better latest progress)
    ]
    else some latest

unfoldable pub observe_pods : ℕ → List Pod → Option Progress → Option (Option Progress)
observe_pods uid [] latest = some latest
observe_pods uid (pod ∷ pods) latest = elim (observe_pod uid latest pod) [
  | none ↦ none
  | some next ↦ observe_pods uid pods next
]

-- The status that observeProgress leaves, if it has changed it.
unfoldable pub observed_status : Status → Option (Option Progress) → Option Status
observed_status status (some (some latest)) =
    if leb latest.percent status.progress_percent
    then none
    else some (record status {
      phase = running;
      progress_percent = latest.percent;
      stage = latest.stage;
      message = import_progress_message latest;
    })
observed_status status _ = none
