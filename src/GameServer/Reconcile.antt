-- ===== src/GameServer/Reconcile.antt =====
-- internal/controller/gameserver_controller.go: ensureMetadata and Reconcile of GameServerReconciler.
use plexus_controller.Common.{
  Text, codes, text_eq, ℕ, Bool, true, false, ◌&&◌, not, Option, none, some, if◌then◌else◌, is_nil,
}
use plexus_controller.GameServer.Types.{
  Setup, Definition, Self, ServerLabels, Error, secret_migration, panicked, Requeue, at_once, after,
  Surroundings,
}
use plexus_controller.Api.{pure, fail, gets, ◌>>=◌, otherwise}
use plexus_controller.GameServer.Objects.{Run, write, get}
use plexus_controller.Naming.Revision.{disk_job_name}
use plexus_controller.GameServer.Status.{
  report_failure, report_unobserved_failure, update_failed_status, observation_refresh_interval,
}
use plexus_controller.GameServer.Disk.{DiskReconcile, reconcile_managed_disk, is_running_power}
use plexus_controller.GameServer.Inputs.{
  desired_state_ok, validate_setup_secret, validate_mod_artifacts, is_stopped_power,
}
use plexus_controller.GameServer.Workload.{ensure_claim}
use plexus_controller.GameServer.Running.{
  reconcile_running, report_starting_for_disk_work, report_disk_job_failure,
}
use plexus_controller.GameServer.Shutdown.{
  reconcile_stopped, reconcile_unloaded, quiesce_before_secret_validation, reconcile_delete,
}

abbrev pub label_is : Option Text → Text → Bool
label_is none value = false
label_is (some label) value = text_eq label value

abbrev pub is_absent : Option Text → Bool
is_absent none = true
is_absent (some label) = false

abbrev pub is_migration : Error → Bool
is_migration secret_migration = true
is_migration _ = false

module _ (self : Self) (env : Surroundings) where
  unfoldable pub wanted_labels : ServerLabels
  wanted_labels = record {
    server_id = some self.spec.server_id;
    owner_user_id = some self.spec.owner_user_id;
    game_id = elim self.spec.selected_setup [ none ↦ none | some setup ↦ some setup.game_id ];
  }

  unfoldable pub labels_current : ServerLabels → Bool
  labels_current labels =
      label_is labels.server_id self.spec.server_id
      && label_is labels.owner_user_id self.spec.owner_user_id
      && elim self.spec.selected_setup as (λ x. Bool) [
        | none ↦ is_absent labels.game_id
        | some setup ↦ label_is labels.game_id setup.game_id
      ]

  -- Whether the labels or the finalizer were changed.
  unfoldable pub ensure_metadata : Run Bool
  ensure_metadata = gets (λ s. labels_current s.labels && s.finalizer) >>= (λ current.
      if current
      then pure false
      else (write (λ s. record s { labels = wanted_labels; finalizer = true })
          >>= (λ u. pure true)))

  abbrev pub report_permanent_failure : Text → Run Requeue
  report_permanent_failure reason =
      update_failed_status self env reason >>= (λ u. pure (after observation_refresh_interval))

  abbrev pub unobserved : Text → ℕ → Run Requeue
  unobserved reason delay = report_unobserved_failure self env reason >>= (λ u. pure (after delay))

  -- What follows the disk.
  unfoldable pub on_disk : Setup → Definition → Text → Option Text × ℕ → DiskReconcile → Run Requeue
  on_disk setup definition configuration secret disk =
      if disk.failed
      then report_disk_job_failure self env definition disk
      else if disk.blocked
      then if is_running_power self.spec.desired_power
        then report_starting_for_disk_work self env definition disk
        else reconcile_stopped self env setup
      else if is_stopped_power self.spec.desired_power
      then reconcile_stopped self env setup
      else reconcile_running self env setup definition configuration secret

  abbrev pub on_disk_name : Setup → Definition → Option Text → Run DiskReconcile
  on_disk_name setup definition none = fail panicked
  on_disk_name setup definition (some name) = reconcile_managed_disk self env setup definition name

  -- The storage, the disk and the workload, once all inputs are valid.
  unfoldable pub reconcile_workload : Setup → Definition → Text → Option Text × ℕ → Run Requeue
  reconcile_workload setup definition configuration secret =
      otherwise (ensure_claim self env definition)
        (report_failure self env (codes "StorageReconcileFailed"))
        (λ u.
          otherwise (on_disk_name setup definition (disk_job_name env.digest_hex self.name))
            (report_failure self env (codes "DiskJobReconcileFailed"))
            (on_disk setup definition configuration secret))

  abbrev pub on_configuration : Setup → Definition → Option Text × ℕ → Option Text → Run Requeue
  on_configuration setup definition secret none =
      unobserved (codes "ConfigurationInvalid") observation_refresh_interval
  on_configuration setup definition secret (some configuration) =
      otherwise (validate_mod_artifacts self env setup definition)
        (λ error. unobserved (codes "ModArtifactInvalid") observation_refresh_interval)
        (λ u. reconcile_workload setup definition configuration secret)

  abbrev pub secret_reason : Error → Text
  secret_reason error =
      if is_migration error
      then codes "SetupSecretMigrationRequired"
      else codes "SetupSecretInvalid"

  -- The checks of the setup behind the power.
  unfoldable pub reconcile_setup : Setup → Definition → Run Requeue
  reconcile_setup setup definition =
      if not (text_eq setup.schema_version definition.management_schema_version)
      then unobserved (codes "ConfigurationMigrationRequired") observation_refresh_interval
      else otherwise (validate_setup_secret self env setup definition)
          (λ error. unobserved (secret_reason error) 5)
          (λ secret.
            on_configuration setup definition secret (env.normalize definition.id setup.values))

  abbrev pub on_quiesced : Setup → Definition → Option Requeue → Run Requeue
  on_quiesced setup definition none = reconcile_setup setup definition
  on_quiesced setup definition (some requeue) = pure requeue

  abbrev pub on_game : Setup → Option Definition → Run Requeue
  on_game setup none = report_permanent_failure (codes "UnsupportedGame")
  on_game setup (some definition) =
      if is_nil definition.container_name
      then report_permanent_failure (codes "UnsupportedGame")
      else if is_stopped_power self.spec.desired_power
      then (quiesce_before_secret_validation self env >>= on_quiesced setup definition)
      else reconcile_setup setup definition

  abbrev pub on_setup : Option Setup → Run Requeue
  on_setup none = reconcile_unloaded self env
  on_setup (some setup) = on_game setup (env.game setup.game_id)

  unfoldable pub reconcile_live : Run Requeue
  reconcile_live = ensure_metadata >>= (λ changed.
      if changed
      then pure at_once
      else if not (desired_state_ok self)
      then report_permanent_failure (codes "InvalidDesiredState")
      else on_setup self.spec.selected_setup)

  -- Reconcile of a GameServer that is there.
  unfoldable pub reconcile : Run Requeue
  reconcile =
      get (λ s. s.status)
      >>= (λ status. if self.deleting then reconcile_delete self env else reconcile_live)
