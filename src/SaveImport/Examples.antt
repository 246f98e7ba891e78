-- ===== src/SaveImport/Examples.antt =====
-- A save replacement in a small cluster, and the theorems about its reconciler there.
use plexus_controller.Common.{
  Text, codes, text_eq, byte_len, ℕ, ◌≤◌, ◌≡◌, refl, true, false, Option, none, some, List, [], ◌∷◌,
}
use plexus_controller.Common.Int.{pos}
use plexus_controller.SaveImport.Cluster.{
  ◌>>=◌, call, unset, expired, Status, Job, Secret, Identity, World, Surroundings, Termination,
  Progress,
}
use plexus_controller.SaveImport.Messages.{
  bounded_diagnostic, known_recovery, import_failure_recovery, valid_progress, valid_failure_stage,
  valid_export_failure_stage, valid_import_failure_stage, better, latest_of,
  parse_latest_exporter_progress,
}
use plexus_controller.SaveImport.Texts.{
  IsLatest, parse_latest_exporter_progress-IsLatest, byte_len-bounded_diagnostic,
  known_recovery-import_failure_recovery,
}
use plexus_controller.SaveImport.Authorize.{
  import_observation_fresh, labels_match, save_import_authorization_owned_by, owned_server,
  confirmed_stopped, server_refusal, usable_secret, secret_refusal,
}
use plexus_controller.SaveImport.Operations.{
  owned_job, owned_secret, is_controlled_by, cleanup, finish, job_for, import_labels,
  starting_status,
}
use plexus_controller.SaveImport.Reconcile.{
  authorize, with_job, create_job, advance, settle, reconcile_deleted, reconcile_live, reconcile,
}
use plexus_controller.SaveImport.Untouched.{Untouched}
use plexus_controller.SaveImport.Owners.{reconcile-Untouched}
use plexus_controller.SaveImport.Deleted.{reconcile-deleted}
use plexus_controller.SaveImport.Settled.{outcome, reconcile-outcome}
use plexus_controller.SaveImport.Created.{Permitted, reconcile-Permitted}

run : Unit {0}
unfolding ◌>>=◌ call text_eq import_observation_fresh labels_match
    save_import_authorization_owned_by owned_server confirmed_stopped server_refusal usable_secret
    secret_refusal is_controlled_by cleanup finish job_for authorize with_job create_job advance
    settle reconcile_deleted reconcile_live reconcile
run = tt

abbrev pub import : Identity
import = record {
  name = codes "i";
  uid = 7;
  deleting = false;
  spec = record {
    server_id = codes "s";
    owner_user_id = codes "o";
    setup_id = codes "u";
    game_id = codes "g";
    archive_name = codes "a.zip";
    download_url_secret_ref = codes "k";
    expires_at = 900000000000;
  };
}

abbrev pub env : Surroundings
env = record {
  server = some (record {
    deleting = false;
    server_id = codes "s";
    owner_user_id = codes "o";
    selected_setup = some (record { id = codes "u"; game_id = codes "g" });
    desired_stopped = true;
    phase_stopped = true;
    observed_generation = 3;
    generation = 3;
    last_observed_at = some 500000000000;
  });
  pods = [];
  now = 600000000000;
  importer_image = codes "x";
  has_progress_reader = false;
  replaceable = λ game. true;
}

abbrev key : Secret
key = record {
  labels = import_labels import;
  immutable = some true;
  opaque = true;
  data_keys = 1;
  download_url = codes "https://a";
}

abbrev new_status : Status
new_status = record {
  phase = unset;
  progress_percent = 0;
  stage = [];
  archive_name = [];
  archive_bytes = 0;
  message = [];
  recovery = [];
  started_at = none;
  finished_at = none;
}

-- A new import whose Job is not there yet.
abbrev pub fresh : World
fresh = record {
  status = new_status;
  finalizer = false;
  job = none;
  secret = some key;
  faults = [];
}

-- A Job that an object with the uid 8 controls.
abbrev foreign : Job
foreign = record (job_for import 0 1) { controller = some 8 }

abbrev taken : World
taken = record fresh { job = some foreign }

abbrev ended : World
ended = record fresh { status = record new_status { phase = expired }; finalizer = true }

abbrev pub identity : ℕ → ℕ
identity c = c

abbrev pub opaque_message : Text → Option Termination
opaque_message message = none

reconcile_tests :
    ((reconcile import env identity opaque_message 1 fresh).0.job
      ≡ some (job_for import 600000000000 1))
    × ((reconcile import env identity opaque_message 1 fresh).0.status
        ≡ starting_status import 600000000000)
    × ((reconcile import env identity opaque_message 1 fresh).0.finalizer ≡ true)
    × ((reconcile import env identity opaque_message 1 ended).0.secret ≡ none)
    × ((reconcile import env identity opaque_message 1
          (record fresh { faults = false ∷ true ∷ [] })).0.job
        ≡ none)
    × ((reconcile import
          (record env { now = 900000000000 })
          identity
          opaque_message
          1
          fresh).0.status.phase
        ≡ expired)
unfolding run
reconcile_tests = (refl, refl, refl, refl, refl, refl)

reconcile-Untouched_example :
    Untouched import taken (reconcile import env identity opaque_message 1 taken).0
reconcile-Untouched_example = reconcile-Untouched import env identity opaque_message 1 taken

reconcile-outcome_example :
    outcome (reconcile import env identity opaque_message 1 ended).0.status ≡ outcome ended.status
reconcile-outcome_example = reconcile-outcome import env identity opaque_message 1 ended refl refl

reconcile-Permitted_example :
    (import.deleting ≡ false)
    × Permitted import env identity opaque_message 1 fresh.status fresh.secret
unfolding run
reconcile-Permitted_example =
    reconcile-Permitted import env identity opaque_message 1 fresh (job_for import 600000000000 1)
      refl refl

abbrev log : List Progress
log =
    record { stage = codes "download"; percent = 20 }
    ∷ record { stage = codes "validation"; percent = 40 }
    ∷ record { stage = codes "other"; percent = 90 }
    ∷ []

parse_latest_exporter_progress-IsLatest_example :
    IsLatest log (record { stage = codes "validation"; percent = 40 })
unfolding parse_latest_exporter_progress latest_of better valid_progress valid_failure_stage
    valid_export_failure_stage valid_import_failure_stage text_eq
parse_latest_exporter_progress-IsLatest_example =
    parse_latest_exporter_progress-IsLatest log
      (record { stage = codes "validation"; percent = 40 }) refl

byte_len-bounded_diagnostic_example : byte_len (bounded_diagnostic (codes "no  space")) ≤ 512
byte_len-bounded_diagnostic_example = byte_len-bounded_diagnostic (codes "no  space")

abbrev killed : Termination
killed = record {
  stage = codes "replace";
  archive_bytes = pos 0;
  message = codes "killed";
  recovery = codes "?";
}

known_recovery-import_failure_recovery_example :
    known_recovery (import_failure_recovery killed) ≡ true
known_recovery-import_failure_recovery_example = known_recovery-import_failure_recovery killed

abbrev leaving : Identity
leaving = record import { deleting = true }

-- What Reconcile of the deleted import leaves of `ended`.
abbrev left : World
left = (reconcile leaving env identity opaque_message 1 ended).0

reconcile-deleted_example :
    (left.finalizer ≡ false)
    × (owned_job leaving left.job ≡ false)
    × (owned_secret leaving left.secret ≡ false)
reconcile-deleted_example = reconcile-deleted leaving env identity opaque_message 1 ended refl refl
