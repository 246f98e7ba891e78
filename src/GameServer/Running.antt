-- ===== src/GameServer/Running.antt =====
-- internal/controller/gameserver_controller.go: reconcileRunning, reportStartingForDiskWork,
-- reportDiskJobFailure.
use plexus_controller.Common.{
  Text, codes, text_eq, ℕ, Bool, true, false, ◌||◌, not, Option, none, some, List, [], ◌∷◌,
  if◌then◌else◌,
}
use plexus_controller.GameServer.Types.{
  running, Phase, starting, failed, Setup, Status, Deployment, Service, Definition, Self, Error,
  name_collision, panicked, Requeue, after, Surroundings,
}
use plexus_controller.Api.{pure, fail, gets, ◌>>=◌, otherwise}
use plexus_controller.GameServer.Objects.{Run}
use plexus_controller.Naming.Revision.{runtime_config_map_name, runtime_secret_name}
use plexus_controller.GameServer.Status.{
  ready_condition, storage_condition, mods_condition, disk_job_condition, set_condition,
  set_endpoint_condition, observed_status, acknowledge_active_revision, preserve_installed_mods,
  preserve_active_revision, acknowledge_installed_mods, update_status, report_failure,
  update_failed_status, observation_refresh_interval,
}
use plexus_controller.GameServer.Disk.{DiskReconcile}
use plexus_controller.GameServer.Inputs.{manages_mods, ensure_config_map, ensure_runtime_secret}
use plexus_controller.GameServer.Workload.{
  replace_service_if_game_changed, ensure_service, ensure_deployment,
}
use plexus_controller.GameServer.Observe.{
  workload_failure, deployment_rollout_available, service_endpoint,
}

-- The first port of the game.
abbrev pub first_port : List ℕ → ℕ
first_port [] = 0
first_port (port ∷ ports) = port

abbrev pub endpoint_or_empty : Option Text → Text
endpoint_or_empty none = []
endpoint_or_empty (some endpoint) = endpoint

abbrev pub is_some : Option Text → Bool
is_some none = false
is_some (some endpoint) = true

abbrev pub is_collision : Error → Bool
is_collision name_collision = true
is_collision _ = false

module _ (self : Self) (env : Surroundings) where
  -- The common end: the status is written, and the reconciler comes back after the interval.
  abbrev pub conclude : (Status → Status) → Run Requeue
  conclude next = gets (λ s. s.status) >>= (λ previous.
      update_status self env (next previous) >>= (λ u. pure (after observation_refresh_interval)))

  abbrev pub set_if : Bool → Text → Bool → Text → Status → Status
  set_if b kind holds reason status =
      if b then set_condition self env kind holds reason status else status

  unfoldable pub starting_for_disk_work : Definition → DiskReconcile → Status → Status
  starting_for_disk_work definition disk previous =
      set_if (manages_mods definition) mods_condition false disk.reason (
        set_condition self env disk_job_condition false disk.reason (
          set_condition self env storage_condition true (codes "PersistentVolumeReady") (
            set_condition self env ready_condition false disk.reason (
              preserve_installed_mods self env previous
                (observed_status self env starting previous)))))

  unfoldable pub report_starting_for_disk_work : Definition → DiskReconcile → Run Requeue
  report_starting_for_disk_work definition disk = conclude (starting_for_disk_work definition disk)

  unfoldable pub disk_job_failure : Definition → DiskReconcile → Status → Status
  disk_job_failure definition disk previous =
      set_if (manages_mods definition || text_eq disk.reason (codes "ModInstallFailed"))
        mods_condition false disk.reason
        (set_condition self env disk_job_condition false disk.reason (
          set_condition self env ready_condition false disk.reason
            (preserve_installed_mods self env previous (observed_status self env failed previous))))

  unfoldable pub report_disk_job_failure : Definition → DiskReconcile → Run Requeue
  report_disk_job_failure definition disk = conclude (disk_job_failure definition disk)

  unfoldable pub failed_workload : Text → Status → Status
  failed_workload reason previous =
      set_if
        (text_eq reason (codes "ModInstallFailed") || text_eq reason (codes "SaveImportFailed"))
        mods_condition false reason
        (set_condition self env ready_condition false reason
          (preserve_active_revision self env previous (observed_status self env failed previous)))

  unfoldable pub awaiting_rollout : Option Text → Status → Status
  awaiting_rollout endpoint previous = set_endpoint_condition self env (is_some endpoint) (
      set_condition self env storage_condition true (codes "PersistentVolumeReady") (
        set_condition self env ready_condition false (codes "WorkloadUnavailable")
          (record (preserve_active_revision self env previous
            (observed_status self env starting previous)) {
              endpoint = endpoint_or_empty endpoint;
            })))

  abbrev pub acknowledged : Setup → ℕ → Phase → Status → Status
  acknowledged setup secret_revision phase previous = acknowledge_installed_mods self env setup (
      acknowledge_active_revision self env setup secret_revision
        (observed_status self env phase previous))

  unfoldable pub awaiting_endpoint : Setup → Definition → ℕ → Status → Status
  awaiting_endpoint setup definition secret_revision previous =
      set_if (manages_mods definition) mods_condition true (codes "ModsInstalled") (
        set_endpoint_condition self env false (
          set_condition self env storage_condition true (codes "PersistentVolumeReady") (
            set_condition self env ready_condition false (codes "EndpointPending")
              (acknowledged setup secret_revision starting previous))))

  unfoldable pub running_workload : Setup → Definition → ℕ → Text → Status → Status
  running_workload setup definition secret_revision endpoint previous =
      set_if (manages_mods definition) mods_condition true (codes "ModsInstalled") (
        set_endpoint_condition self env true (
          set_condition self env storage_condition true (codes "PersistentVolumeReady") (
            set_condition self env ready_condition true (codes "WorkloadAvailable")
              (record (acknowledged setup secret_revision running previous) {
                endpoint = endpoint;
              }))))

  abbrev pub on_endpoint : Setup → Definition → ℕ → Option Text → Run Requeue
  on_endpoint setup definition secret_revision none =
      conclude (awaiting_endpoint setup definition secret_revision)
  on_endpoint setup definition secret_revision (some endpoint) =
      conclude (running_workload setup definition secret_revision endpoint)

  abbrev pub on_failure : Setup → Definition → ℕ → Service → Deployment → Option Text → Run Requeue
  on_failure setup definition secret_revision service deployment (some reason) =
      conclude (failed_workload reason)
  on_failure setup definition secret_revision service deployment none =
      let endpoint = service_endpoint service.ingress (first_port definition.ports) in
      if not (deployment_rollout_available deployment)
      then conclude (awaiting_rollout endpoint)
      else on_endpoint setup definition secret_revision endpoint

  -- What follows a workload that is there.
  unfoldable pub observe_workload : Setup → Definition → ℕ → Service → Deployment → Run Requeue
  observe_workload setup definition secret_revision service deployment =
      otherwise (workload_failure self env deployment)
        (report_failure self env (codes "WorkloadObservationFailed"))
        (on_failure setup definition secret_revision service deployment)

  abbrev pub deployment_failed : Error → Run Requeue
  deployment_failed error =
      if is_collision error
      then (update_failed_status self env (codes "WorkloadNameCollision")
          >>= (λ u. pure (after observation_refresh_interval)))
      else report_failure self env (codes "WorkloadReconcileFailed") error

  unfoldable pub run_workload : Setup → Definition → Text → ℕ → Run Requeue
  run_workload setup definition configuration secret_revision =
      otherwise (ensure_service self env setup definition)
        (report_failure self env (codes "ServiceReconcileFailed"))
        (λ service.
          otherwise (ensure_deployment self env definition configuration secret_revision)
            deployment_failed (observe_workload setup definition secret_revision service))

  abbrev pub named : Option Text → (Text → Run (Unit {0})) → Run (Unit {0})
  named none m = fail panicked
  named (some name) m = m name

  unfoldable pub reconcile_running : Setup → Definition → Text → Option Text × ℕ → Run Requeue
  reconcile_running setup definition configuration (environment, secret_revision) =
      otherwise
        (named (runtime_config_map_name env.digest_hex self.name self.generation)
          (ensure_config_map self env definition configuration))
        (report_failure self env (codes "ConfigurationReconcileFailed"))
        (λ u.
          otherwise
            (named (runtime_secret_name env.digest_hex self.name self.generation secret_revision)
              (ensure_runtime_secret self env environment secret_revision))
            (report_failure self env (codes "ConfigurationReconcileFailed"))
            (λ v.
              otherwise (replace_service_if_game_changed self env (some setup))
                (report_failure self env (codes "ServiceReconcileFailed"))
                (λ replaced.
                  if replaced
                  then pure (after 1)
                  else run_workload setup definition configuration secret_revision)))
