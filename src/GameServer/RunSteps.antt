-- ===== src/GameServer/RunSteps.antt =====
-- internal/controller/gameserver_controller.go: what the ways to run keep.
use plexus_controller.Common.{
  Text, ℕ, ◌≡◌, refl, Bool, true, false, Option, none, some, List, [], ◌∷◌, arith, if◌then◌else◌,
}
use plexus_controller.GameServer.Types.{
  Setup, Status, Deployment, Service, Claim, ConfigMap, Secret, Pod, Definition, Self, Store, Error,
  api, Surroundings,
}
use plexus_controller.Api.{call}
use plexus_controller.GameServer.Objects.{Run, get, is_controlled}
use plexus_controller.Api.Keeps.{
  Keeps, Keeps-option, Keeps-bind, Keeps-pure, Keeps-fail, Keeps-if, Keeps-otherwise, keeps_rules,
}
use plexus_controller.GameServer.Status.{
  set_condition, observed_status, set_endpoint_condition, update_failed_status, report_failure,
  acknowledge_active_revision, preserve_installed_mods, preserve_active_revision,
  acknowledge_installed_mods,
}
use plexus_controller.GameServer.Stable.{
  is_stopped_phase, IsStable, Holds, Keeps-update_status, Keeps-update_failed_status,
  Keeps-report_failure, Keeps-get, Keeps-aside,
}
use plexus_controller.GameServer.Disk.{DiskReconcile}
use plexus_controller.GameServer.Inputs.{
  on_config_map, ensure_config_map, on_runtime_secret, ensure_runtime_secret,
}
use plexus_controller.GameServer.Workload.{
  on_claim, ensure_claim, put_service, on_service, ensure_service,
}
use plexus_controller.GameServer.Observe.{pods_of, owned_deployment_pods, workload_failure}
use plexus_controller.GameServer.Running.{
  conclude, starting_for_disk_work, report_starting_for_disk_work, disk_job_failure,
  report_disk_job_failure, failed_workload, awaiting_rollout, awaiting_endpoint, running_workload,
  on_endpoint, on_failure, observe_workload, deployment_failed, named, is_collision,
}

module _ (self : Self) (env : Surroundings) (R : Status → List Deployment → Type 0)
    (stable : IsStable env R) where
  abbrev Kept : {A : Type 0} → Run A → Type 0
  Kept m = Keeps (Holds self env R stable) m

  Kept-get : {A : Type 0} (read : Store → A) → Kept (get read)
  Kept-get = Keeps-get self env R stable

  -- A status that does not claim a stop.
  Keeps-conclude :
      (next : Status → Status)
      → ((st : Status) → is_stopped_phase (next st).phase ≡ false)
      → Kept (conclude self env next)
  Keeps-conclude next busy =
      Keeps-bind _ _ (search keeps_rules) (λ st.
        Keeps-bind _ _ (Keeps-update_status self env R stable _ (busy st)) (λ u. Keeps-pure _))

  pub Keeps-report_starting_for_disk_work :
      (definition : Definition) (disk : DiskReconcile)
      → Kept (report_starting_for_disk_work self env definition disk)
  unfolding report_starting_for_disk_work starting_for_disk_work set_condition
      preserve_installed_mods observed_status is_stopped_phase
  Keeps-report_starting_for_disk_work definition disk = Keeps-conclude _ (λ st. ground arith)

  pub Keeps-report_disk_job_failure :
      (definition : Definition) (disk : DiskReconcile)
      → Kept (report_disk_job_failure self env definition disk)
  unfolding report_disk_job_failure disk_job_failure set_condition preserve_installed_mods
      observed_status is_stopped_phase
  Keeps-report_disk_job_failure definition disk = Keeps-conclude _ (λ st. ground arith)

  Keeps-on_endpoint :
      (setup : Setup) (definition : Definition) (revision : ℕ) (endpoint : Option Text)
      → Kept (on_endpoint self env setup definition revision endpoint)
  unfolding awaiting_endpoint running_workload set_condition set_endpoint_condition
      acknowledge_installed_mods acknowledge_active_revision observed_status is_stopped_phase
  Keeps-on_endpoint setup definition revision none = Keeps-conclude _ (λ st. ground arith)
  Keeps-on_endpoint setup definition revision (some endpoint) =
      Keeps-conclude _ (λ st. ground arith)

  awaiting_rollout_busy :
      (endpoint : Option Text) (st : Status)
      → is_stopped_phase (awaiting_rollout self env endpoint st).phase ≡ false
  unfolding awaiting_rollout set_condition set_endpoint_condition preserve_active_revision
      observed_status is_stopped_phase
  awaiting_rollout_busy endpoint st = ground arith

  failed_workload_busy :
      (reason : Text) (st : Status)
      → is_stopped_phase (failed_workload self env reason st).phase ≡ false
  unfolding failed_workload set_condition preserve_active_revision observed_status is_stopped_phase
  failed_workload_busy reason st = ground arith

  Kept-rollout :
      (waits : Bool) (setup : Setup) (definition : Definition) (revision : ℕ)
      (endpoint : Option Text)
      → Kept (
          if waits
          then conclude self env (awaiting_rollout self env endpoint)
          else on_endpoint self env setup definition revision endpoint)
  Kept-rollout true setup definition revision endpoint =
      Keeps-conclude _ (awaiting_rollout_busy endpoint)
  Kept-rollout false setup definition revision endpoint =
      Keeps-on_endpoint setup definition revision endpoint

  Keeps-on_failure :
      (setup : Setup) (definition : Definition) (revision : ℕ) (service : Service)
      (deployment : Deployment) (failure : Option Text)
      → Kept (on_failure self env setup definition revision service deployment failure)
  Keeps-on_failure setup definition revision service deployment (some reason) =
      Keeps-conclude _ (failed_workload_busy reason)
  Keeps-on_failure setup definition revision service deployment none =
      Kept-rollout _ setup definition revision _

  Kept-report :
      {A : Type 0} (reason : Text) (error : Error)
      → Kept (report_failure self env {A = A} reason error)
  Kept-report = Keeps-report_failure self env R stable

  Kept-failed_status : (reason : Text) → Kept (update_failed_status self env reason)
  Kept-failed_status = Keeps-update_failed_status self env R stable

  Keeps-pods_of : (uid : Text) (pods : List Pod) → Kept (pods_of self env uid pods)
  unfolding pods_of
  Keeps-pods_of uid [] = search keeps_rules
  Keeps-pods_of uid (pod ∷ pods) = Keeps-option _ _ _ (Keeps-pods_of uid pods) (λ name.
      Keeps-bind _ _ (Kept-get _)
        (λ found. Keeps-bind _ _ (Keeps-pods_of uid pods) (λ rest. Keeps-pure _)))

  Keeps-workload_failure : (deployment : Deployment) → Kept (workload_failure self env deployment)
  unfolding workload_failure owned_deployment_pods
  Keeps-workload_failure deployment = search (keeps_rules, Kept-get, Keeps-pods_of)

  pub Keeps-observe_workload :
      (setup : Setup) (definition : Definition) (revision : ℕ) (service : Service)
      (deployment : Deployment)
      → Kept (observe_workload self env setup definition revision service deployment)
  unfolding observe_workload
  Keeps-observe_workload setup definition revision service deployment =
      Keeps-otherwise _ _ _ (Keeps-workload_failure deployment) (Kept-report _)
        (Keeps-on_failure setup definition revision service deployment)

  -- The inputs of the workload: neither the status nor a Deployment.
  Kept-aside :
      {A : Type 0} (change : Store → Store) (read : Store → A)
      → ((s : Store) → (change s).status ≡ s.status)
      → ((s : Store) → (change s).deployments ≡ s.deployments)
      → Kept (call api change read)
  Kept-aside = Keeps-aside self env R stable

  Keeps-on_claim :
      (definition : Definition) (claim : Option Claim) → Kept (on_claim self env definition claim)
  Keeps-on_claim definition none = Kept-aside _ _ (λ s. refl) (λ s. refl)
  Keeps-on_claim definition (some claim) =
      Keeps-if (is_controlled self claim.meta) _ _ (λ e. Kept-aside _ _ (λ s. refl) (λ s. refl))
        (λ e. Keeps-fail _)

  pub Keeps-ensure_claim : (definition : Definition) → Kept (ensure_claim self env definition)
  unfolding ensure_claim
  Keeps-ensure_claim definition = Keeps-bind _ _ (Kept-get _) (Keeps-on_claim definition)

  Keeps-put_service : (service : Service) → Kept (put_service self env service)
  Keeps-put_service service =
      Keeps-bind _ _ (Kept-aside _ _ (λ s. refl) (λ s. refl)) (λ u. Keeps-pure _)

  Keeps-on_service :
      (setup : Setup) (definition : Definition) (service : Option Service)
      → Kept (on_service self env setup definition service)
  Keeps-on_service setup definition none = Keeps-put_service _
  Keeps-on_service setup definition (some service) =
      Keeps-if (is_controlled self service.meta) _ _ (λ e. Keeps-put_service _) (λ e. Keeps-fail _)

  pub Keeps-ensure_service :
      (setup : Setup) (definition : Definition) → Kept (ensure_service self env setup definition)
  unfolding ensure_service
  Keeps-ensure_service setup definition =
      Keeps-bind _ _ (Kept-get _) (Keeps-on_service setup definition)

  Keeps-on_config_map :
      (name files : Text) (found : Option ConfigMap)
      → Kept (on_config_map self env name files found)
  Keeps-on_config_map name files none = Kept-aside _ _ (λ s. refl) (λ s. refl)
  Keeps-on_config_map name files (some config_map) = search keeps_rules

  pub Keeps-ensure_config_map :
      (definition : Definition) (configuration name : Text)
      → Kept (ensure_config_map self env definition configuration name)
  unfolding ensure_config_map
  Keeps-ensure_config_map definition configuration name =
      Keeps-option _ _ _ (Keeps-fail _)
        (λ files. Keeps-bind _ _ (Kept-get _) (Keeps-on_config_map name files))

  Keeps-on_runtime_secret :
      (name environment : Text) (revision : ℕ) (found : Option Secret)
      → Kept (on_runtime_secret self env name environment revision found)
  Keeps-on_runtime_secret name environment revision none = Kept-aside _ _ (λ s. refl) (λ s. refl)
  Keeps-on_runtime_secret name environment revision (some secret) = search keeps_rules

  pub Keeps-ensure_runtime_secret :
      (environment : Option Text) (revision : ℕ) (name : Text)
      → Kept (ensure_runtime_secret self env environment revision name)
  unfolding ensure_runtime_secret
  Keeps-ensure_runtime_secret none revision name = Keeps-fail _
  Keeps-ensure_runtime_secret (some environment) revision name =
      Keeps-bind _ _ (Kept-get _) (Keeps-on_runtime_secret name environment revision)

  pub Keeps-named :
      (name : Option Text) (m : Text → Run (Unit {0}))
      → ((name : Text) → Kept (m name))
      → Kept (named self env name m)
  Keeps-named none m km = Keeps-fail _
  Keeps-named (some name) m km = km name

  pub Keeps-deployment_failed : (error : Error) → Kept (deployment_failed self env error)
  Keeps-deployment_failed error =
      Keeps-if (is_collision error) _ _
        (λ e. Keeps-bind _ _ (Kept-failed_status _) (λ u. Keeps-pure _)) (λ e. Kept-report _ error)
