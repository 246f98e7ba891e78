-- ===== src/GameServer/Status.antt =====
-- internal/controller/gameserver_controller.go: how the reconciler writes the status.
-- The texts of messages are left out; a reason is what a condition says.
use mathlib.Core.List.{map}
use plexus_controller.Common.{
  Text, codes, text_eq, ℕ, ◌+◌, Bool, true, false, ◌&&◌, Option, none, some, List, [], ltb, leb,
  if◌then◌else◌,
}
use plexus_controller.GameServer.Types.{
  Phase, stopping, failed, InstalledMod, ModSpec, Setup, Found, Status, Meta, unset, Self, Error,
  Surroundings,
}
use plexus_controller.Api.{pure, fail, gets, recover, ◌>>=◌}
use plexus_controller.GameServer.Objects.{Run, write, get, name_source, meta_named}
use plexus_controller.Naming.Workload.{NameResult, ok, err, workload_deployment_name}

abbrev pub ready_condition : Text
ready_condition = codes "Ready"

abbrev pub storage_condition : Text
storage_condition = codes "StorageReady"

abbrev pub endpoint_condition : Text
endpoint_condition = codes "EndpointReady"

abbrev pub mods_condition : Text
mods_condition = codes "ModsReady"

abbrev pub disk_job_condition : Text
disk_job_condition = codes "DiskJob"

abbrev pub shutdown_condition : Text
shutdown_condition = codes "ShutdownProgress"

abbrev pub observation_refresh_interval : ℕ
observation_refresh_interval = 30

unfoldable pub is_unset : Phase → Bool
is_unset unset = true
is_unset _ = false

module _ (self : Self) (env : Surroundings) where
  unfoldable pub set_condition : Text → Bool → Text → Status → Status
  set_condition kind holds reason status = record status {
    conditions =
        env.set_condition status.conditions
          (record { kind = kind; holds = holds; generation = self.generation; reason = reason });
  }

  unfoldable pub set_endpoint_condition : Bool → Status → Status
  set_endpoint_condition ready status =
      if ready
      then set_condition endpoint_condition true (codes "LoadBalancerReady") status
      else set_condition endpoint_condition false (codes "LoadBalancerPending") status

  unfoldable pub observed_status : Phase → Status → Status
  observed_status phase previous = record {
    phase = phase;
    active_setup_id = [];
    observed_generation = self.generation;
    observed_restart_generation = previous.observed_restart_generation;
    observed_configuration_generation = 0;
    observed_secret_revision = 0;
    installed_mods = [];
    installed_mods_generation = 0;
    endpoint = [];
    conditions = previous.conditions;
    last_observed_at = none;
  }

  unfoldable pub observed_installed_mods : List ModSpec → List InstalledMod
  observed_installed_mods mods = map installed mods
    where
      installed : ModSpec → InstalledMod
      installed spec = record {
        provider_id = spec.provider_id;
        provider_mod_id = spec.provider_mod_id;
        name = spec.name;
        version = spec.version;
      }

  unfoldable pub acknowledge_active_revision : Setup → ℕ → Status → Status
  acknowledge_active_revision setup secret_revision status = record status {
    active_setup_id = setup.id;
    observed_restart_generation = self.spec.restart_generation;
    observed_configuration_generation = self.generation;
    observed_secret_revision = secret_revision;
  }

  unfoldable pub preserve_installed_mods : Status → Status → Status
  preserve_installed_mods previous status = record status {
    installed_mods = previous.installed_mods;
    installed_mods_generation = previous.installed_mods_generation;
  }

  unfoldable pub preserve_active_revision : Status → Status → Status
  preserve_active_revision previous status = record status {
    active_setup_id = previous.active_setup_id;
    observed_configuration_generation = previous.observed_configuration_generation;
    observed_secret_revision = previous.observed_secret_revision;
    installed_mods = previous.installed_mods;
    installed_mods_generation = previous.installed_mods_generation;
  }

  unfoldable pub acknowledge_installed_mods : Setup → Status → Status
  acknowledge_installed_mods setup status = record status {
    installed_mods = observed_installed_mods setup.mods;
    installed_mods_generation = self.generation;
  }

  abbrev pub is_recent : Option ℕ → Bool
  is_recent none = false
  is_recent (some at) = ltb env.now (at + observation_refresh_interval)

  abbrev pub stamped : Status → Status → Status
  stamped previous status = record status { last_observed_at = previous.last_observed_at }

  -- A status that has not changed is not written again within the interval.
  unfoldable pub update_status : Status → Run (Unit {0})
  update_status status = do
    previous ← gets (λ s. s.status)
    if env.same_status previous (stamped previous status) && is_recent previous.last_observed_at
        then pure tt
        else write (λ s. record s { status = record status { last_observed_at = some env.now } })

  unfoldable pub updated_failure : Text → Status → Status
  updated_failure reason previous =
      let status = set_condition ready_condition false reason (observed_status failed previous) in
      if text_eq reason (codes "StorageReconcileFailed")
      then set_condition storage_condition false reason status
      else status

  unfoldable pub update_failed_status : Text → Run (Unit {0})
  update_failed_status reason = do
    previous ← gets (λ s. s.status)
    update_status (updated_failure reason previous)

  -- The error is returned, joined with the one of the update if that fails.
  unfoldable pub report_failure : {A : Type 0} → Text → Error → Run A
  report_failure reason error = update_failed_status reason >>= (λ u. fail error)

  unfoldable pub unobserved_failure : Text → Status → Status
  unobserved_failure reason previous =
      set_condition ready_condition false reason
        (record previous { phase = if is_unset previous.phase then failed else previous.phase })

  unfoldable pub report_unobserved_failure : Text → Run (Unit {0})
  report_unobserved_failure reason = do
    previous ← gets (λ s. s.status)
    update_status (unobserved_failure reason previous)

  -- shutdownStartedAt; `none` is the zero time.
  abbrev pub workload_or_own : NameResult → Text
  workload_or_own (ok name) = name
  workload_or_own (err e) = self.name

  abbrev pub started_by_condition : Option Found → Option ℕ
  started_by_condition none = none
  started_by_condition (some found) = if found.holds then none else found.since

  abbrev pub deleted_since : Option Meta → Option ℕ
  deleted_since none = none
  deleted_since (some meta) = meta.deleted_at

  -- The deletion time of the Deployment of the workload's name.
  abbrev pub started_by_deletion : Option Setup → Run (Option ℕ)
  started_by_deletion none = pure none
  started_by_deletion (some setup) =
      let name = workload_or_own (workload_deployment_name env.lower_high (name_source self)) in
      recover (get (λ s. deleted_since (meta_named self env name s))) none

  abbrev pub started_at : Option ℕ → Run (Option ℕ)
  started_at (some since) = pure (some since)
  started_at none = started_by_deletion self.spec.selected_setup

  unfoldable pub shutdown_started_at : Status → Run (Option ℕ)
  shutdown_started_at status =
      started_at (started_by_condition (env.find_condition status.conditions shutdown_condition))

  abbrev pub timed_out : ℕ → Option ℕ → Bool
  timed_out timeout none = false
  timed_out timeout (some started) = leb (started + timeout) env.now

  abbrev pub shutdown_timeout : Option Setup → Option ℕ
  shutdown_timeout none = none
  shutdown_timeout (some setup) = elim (env.game setup.game_id) [
    | none ↦ none
    | some definition ↦
        if ltb definition.timeout_seconds 1 then none else some definition.timeout_seconds
  ]

  abbrev pub is_late : Status → Option ℕ → Run Bool
  is_late status none = pure false
  is_late status (some timeout) =
      shutdown_started_at status >>= (λ started. pure (timed_out timeout started))

  unfoldable pub shutdown_has_timed_out : Status → Run Bool
  shutdown_has_timed_out status = is_late status (shutdown_timeout self.spec.selected_setup)

  -- shutdownProgress: the reason.
  unfoldable pub shutdown_progress : Status → Run Text
  shutdown_progress status =
      if self.spec.force
      then pure (codes "ForceStop")
      else (shutdown_has_timed_out status >>= (λ late.
          pure (if late then codes "TakingLongerThanExpected" else codes "GracefulShutdown")))

  unfoldable pub stopping_status : Text → Status → Status
  stopping_status reason previous =
      set_condition shutdown_condition false reason (observed_status stopping previous)
