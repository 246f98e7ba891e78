-- ===== src/GameServer/Shutdown.antt =====
-- internal/controller/gameserver_controller.go: reconcileStopped, reconcileUnloaded,
-- quiesceBeforeSecretValidation, reconcileDelete.
use mathlib.Core.List.{map}
use plexus_controller.Common.{
  Text, codes, Bool, true, false, ◌||◌, not, Option, none, some, List, [], ◌∷◌, if◌then◌else◌,
}
use plexus_controller.GameServer.Types.{
  stopped, stopping, Setup, Status, Meta, ConfigMap, Secret, Self, Store, Requeue, never, after,
  Surroundings,
}
use plexus_controller.Api.{pure, gets, ◌>>=◌, otherwise}
use plexus_controller.GameServer.Objects.{
  Run, write, get, is_controlled, marked, find_named, delete_owned_object,
  owned_workload_deployments, delete_all, names_of, delete_deployment, mark_config_map, mark_secret,
}
use plexus_controller.GameServer.Status.{
  ready_condition, storage_condition, endpoint_condition, shutdown_condition, set_condition,
  observed_status, preserve_installed_mods, update_status, report_failure,
  report_unobserved_failure, stopping_status, shutdown_progress, observation_refresh_interval,
}
use plexus_controller.GameServer.Inputs.{secret_meta, config_map_meta}
use plexus_controller.GameServer.Workload.{
  replace_service_if_game_changed, service_meta, mark_service,
}

module _ (self : Self) (env : Surroundings) where
  unfoldable pub stopping_workload : Status → Status → Status
  stopping_workload previous status =
      set_condition self env storage_condition true (codes "PersistentVolumeReady") (
        set_condition self env ready_condition false (codes "WorkloadStopping")
          (preserve_installed_mods self env previous status))

  unfoldable pub stopped_workload : Status → Status
  stopped_workload previous =
      set_condition self env shutdown_condition true (codes "DesiredStopped") (
        set_condition self env endpoint_condition false (codes "DesiredStopped") (
          set_condition self env storage_condition true (codes "PersistentVolumeReady") (
            set_condition self env ready_condition false (codes "DesiredStopped") (
              preserve_installed_mods self env previous
                (observed_status self env stopped previous)))))

  abbrev pub report_stopping : Run Requeue
  report_stopping = gets (λ s. s.status) >>= (λ previous.
      shutdown_progress self env previous >>= (λ reason.
        update_status self env
          (stopping_workload previous (stopping_status self env reason previous))
        >>= (λ u. pure (after 1))))

  abbrev pub report_stopped : Run Requeue
  report_stopped = gets (λ s. s.status) >>= (λ previous.
      update_status self env (stopped_workload previous)
      >>= (λ u. pure (after observation_refresh_interval)))

  abbrev pub on_stopped : Bool → Bool → Run Requeue
  on_stopped deleted replaced =
      if deleted then report_stopping else if replaced then pure (after 1) else report_stopped

  unfoldable pub reconcile_stopped : Setup → Run Requeue
  reconcile_stopped setup =
      otherwise (delete_deployment self env) (report_failure self env (codes "WorkloadStopFailed"))
        (λ deleted.
          otherwise (replace_service_if_game_changed self env (some setup))
            (report_failure self env (codes "ServiceCleanupFailed")) (on_stopped deleted))

  unfoldable pub unloaded_status : Bool → Status → Status
  unloaded_status deleted previous =
      if deleted
      then set_condition self env ready_condition false (codes "WorkloadStopping")
          (observed_status self env stopping previous)
      else set_condition self env ready_condition false (codes "DesiredStopped")
          (observed_status self env stopped previous)

  abbrev pub report_unloaded : Bool → Run Requeue
  report_unloaded deleted = gets (λ s. s.status) >>= (λ previous.
      update_status self env (unloaded_status deleted previous)
      >>= (λ u. pure (after (if deleted then 1 else observation_refresh_interval))))

  unfoldable pub reconcile_unloaded : Run Requeue
  reconcile_unloaded =
      otherwise (delete_deployment self env) (report_failure self env (codes "WorkloadStopFailed"))
        report_unloaded

  -- The result that Reconcile returns if the workload is not gone yet.
  abbrev pub report_quiescing : Bool → Run (Option Requeue)
  report_quiescing deleted =
      if not deleted
      then pure none
      else (gets (λ s. s.status) >>= (λ previous. shutdown_progress self env previous >>= (λ reason.
          update_status self env (
            set_condition self env ready_condition false (codes "WorkloadStopping")
              (record (stopping_status self env reason previous) {
                observed_generation = previous.observed_generation;
              }))
          >>= (λ u. pure (some (after 1))))))

  unfoldable pub quiesce_before_secret_validation : Run (Option Requeue)
  quiesce_before_secret_validation =
      otherwise (delete_deployment self env)
        (λ error.
          report_unobserved_failure self env (codes "WorkloadStopFailed")
          >>= (λ u. pure (some never)))
        report_quiescing

  abbrev pub claim_meta : Store → Option Meta
  claim_meta s = elim s.claim [ none ↦ none | some claim ↦ some claim.meta ]

  abbrev pub mark_claim : Store → Store
  mark_claim s = record s {
    claim = elim s.claim [
      | none ↦ none
      | some claim ↦ some (record claim { meta = marked env.now claim.meta })
    ];
  }

  abbrev pub job_meta : Store → Option Meta
  job_meta s = elim s.job [ none ↦ none | some job ↦ some job.meta ]

  abbrev pub mark_job : Store → Store
  mark_job s = record s {
    job = elim s.job [
      | none ↦ none
      | some job ↦ some (record job { meta = marked env.now job.meta })
    ];
  }

  -- The Service, the disk Job and the claim.
  unfoldable pub delete_singletons : Run Bool
  delete_singletons = delete_owned_object self env service_meta_of mark_service_of >>= (λ service.
      delete_owned_object self env job_meta mark_job >>= (λ job.
        delete_owned_object self env claim_meta mark_claim
        >>= (λ claim. pure (service || job || claim))))
    where
      service_meta_of : Store → Option Meta
      service_meta_of = service_meta self env

      mark_service_of : Store → Store
      mark_service_of = mark_service self env

  abbrev pub config_map_named : Text → Store → Option Meta
  config_map_named name s = elim (find_named config_map_meta name s.config_maps) [
    | none ↦ none
    | some c ↦ some c.meta
  ]

  abbrev pub secret_named : Text → Store → Option Meta
  secret_named name s = elim (find_named secret_meta name s.secrets) [
    | none ↦ none
    | some c ↦ some c.meta
  ]

  unfoldable pub delete_config_maps : List ConfigMap → Run Bool
  delete_config_maps [] = pure false
  delete_config_maps (c ∷ rest) =
      if not (is_controlled self c.meta)
      then delete_config_maps rest
      else (delete_owned_object self env (config_map_named c.meta.name) (λ s. record s {
        config_maps = map (mark_config_map env.now c.meta.name) s.config_maps;
      })
          >>= (λ exists. delete_config_maps rest >>= (λ remaining. pure (exists || remaining))))

  unfoldable pub delete_secrets : List Secret → Run Bool
  delete_secrets [] = pure false
  delete_secrets (c ∷ rest) =
      if not (is_controlled self c.meta)
      then delete_secrets rest
      else (delete_owned_object self env (secret_named c.meta.name)
            (λ s. record s { secrets = map (mark_secret env.now c.meta.name) s.secrets })
          >>= (λ exists. delete_secrets rest >>= (λ remaining. pure (exists || remaining))))

  unfoldable pub delete_owned_runtime_inputs : Run Bool
  delete_owned_runtime_inputs = get (λ s. s.config_maps) >>= (λ config_maps.
      delete_config_maps config_maps >>= (λ maps_left. get (λ s. s.secrets) >>= (λ secrets.
        delete_secrets secrets >>= (λ secrets_left. pure (maps_left || secrets_left)))))

  unfoldable pub delete_owned : Run Bool
  delete_owned = do
    owned ← owned_workload_deployments self env
    deployments ← delete_all self env (names_of self env owned) false
    singletons ← delete_singletons
    inputs ← delete_owned_runtime_inputs
    pure (deployments || singletons || inputs)

  abbrev pub remove_finalizer : Run (Unit {0})
  remove_finalizer = write (λ s. record s { finalizer = false })

  abbrev pub on_remaining : Bool → Run Requeue
  on_remaining remaining =
      if remaining then pure (after 1) else (remove_finalizer >>= (λ u. pure never))

  unfoldable pub reconcile_delete : Run Requeue
  reconcile_delete =
      gets (λ s. s.finalizer)
      >>= (λ finalizer. if not finalizer then pure never else (delete_owned >>= on_remaining))
