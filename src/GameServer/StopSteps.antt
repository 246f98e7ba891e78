-- ===== src/GameServer/StopSteps.antt =====
-- internal/controller/gameserver_controller.go: what the ways to stop keep.
use plexus_controller.Common.{
  Text, text_eq, refl, Bool, false, ◌||◌, Option, none, some, List, [], ◌∷◌, if◌then◌else◌,
}
use plexus_controller.GameServer.Types.{
  Setup, Status, Meta, Deployment, Service, ConfigMap, Secret, Self, Store, Surroundings,
}
use plexus_controller.Api.{pure, ◌>>=◌}
use plexus_controller.GameServer.Objects.{
  Run, get, delete_owned_object, owned_workload_deployments, delete_all, delete_deployment,
}
use plexus_controller.Api.Keeps.{Keeps, Keeps-bind, Keeps-pure, Keeps-otherwise, keeps_rules}
use plexus_controller.GameServer.Status.{
  set_condition, observed_status, report_unobserved_failure, stopping_status,
  preserve_installed_mods,
}
use plexus_controller.GameServer.Stable.{
  is_stopped_phase, IsStable, Holds, Keeps-update_status, Keeps-report_unobserved_failure,
  Keeps-shutdown_progress, Keeps-get, Keeps-aside, Keeps-delete_owned_object,
  Keeps-delete_deployment, Keeps-owned_workload_deployments, Keeps-delete_all,
}
use plexus_controller.GameServer.Workload.{
  service_meta, mark_service, delete_service, replace_service_if_game_changed,
}
use plexus_controller.GameServer.Shutdown.{
  stopping_workload, report_stopping, report_quiescing, quiesce_before_secret_validation,
  delete_singletons, delete_config_maps, delete_secrets, delete_owned_runtime_inputs, delete_owned,
  remove_finalizer, on_remaining, reconcile_delete,
}

module _ (self : Self) (env : Surroundings) (R : Status → List Deployment → Type 0)
    (stable : IsStable env R) where
  abbrev Kept : {A : Type 0} → Run A → Type 0
  Kept m = Keeps (Holds self env R stable) m

  Kept-get : {A : Type 0} (read : Store → A) → Kept (get read)
  Kept-get = Keeps-get self env R stable

  Kept-service :
      (found : Option Service) (setup : Setup)
      → Kept (elim found [
        | none ↦ pure false
        | some service ↦
            if text_eq service.game_id setup.game_id then pure false else delete_service self env
      ])
  unfolding delete_service
  Kept-service none setup = search keeps_rules
  Kept-service (some service) setup =
      let del =
        Keeps-delete_owned_object self env R stable (service_meta self env) (mark_service self env)
          (λ s p. p) in
      search (keeps_rules, del)

  pub Keeps-replace_service_if_game_changed :
      (setup : Option Setup) → Kept (replace_service_if_game_changed self env setup)
  unfolding replace_service_if_game_changed
  Keeps-replace_service_if_game_changed none = search keeps_rules
  Keeps-replace_service_if_game_changed (some setup) =
      Keeps-bind _ _ (Kept-get _) (λ found. Kept-service found setup)

  pub Keeps-report_stopping : Kept (report_stopping self env)
  unfolding stopping_workload stopping_status set_condition observed_status preserve_installed_mods
      is_stopped_phase
  Keeps-report_stopping = search (
    keeps_rules,
    Keeps-shutdown_progress self env R stable,
    Keeps-update_status self env R stable,
  )

  Keeps-report_quiescing : (deleted : Bool) → Kept (report_quiescing self env deleted)
  unfolding stopping_status set_condition observed_status is_stopped_phase
  Keeps-report_quiescing deleted = search (
    keeps_rules,
    Keeps-shutdown_progress self env R stable,
    Keeps-update_status self env R stable,
  )

  Kept-deployment : Kept (delete_deployment self env)
  Kept-deployment = Keeps-delete_deployment self env R stable

  Kept-unobserved : (reason : Text) → Kept (report_unobserved_failure self env reason)
  Kept-unobserved = Keeps-report_unobserved_failure self env R stable

  pub Keeps-quiesce_before_secret_validation : Kept (quiesce_before_secret_validation self env)
  unfolding quiesce_before_secret_validation
  Keeps-quiesce_before_secret_validation =
      Keeps-otherwise _ _ _ Kept-deployment
        (λ error. Keeps-bind _ _ (Kept-unobserved _) (λ u. Keeps-pure _)) Keeps-report_quiescing

  -- A removal of what is neither the status nor a Deployment.
  Kept-removal :
      (read : Store → Option Meta) (mark : Store → Store)
      → ((s : Store) → Holds self env R stable s → Holds self env R stable (mark s))
      → Kept (delete_owned_object self env read mark)
  Kept-removal = Keeps-delete_owned_object self env R stable

  Keeps-delete_singletons : Kept (delete_singletons self env)
  unfolding delete_singletons
  Keeps-delete_singletons = Keeps-bind _ _ (Kept-removal _ _ (λ s p. p)) (λ service.
      Keeps-bind _ _ (Kept-removal _ _ (λ s p. p))
        (λ job. Keeps-bind _ _ (Kept-removal _ _ (λ s p. p)) (λ claim. Keeps-pure _)))

  -- A step of a loop over objects, of which only the controlled ones are removed.
  Kept-next :
      (skipped : Bool) (one rest : Run Bool)
      → Kept one
      → Kept rest
      → Kept (
          if skipped
          then rest
          else (one >>= (λ exists. rest >>= (λ remaining. pure (exists || remaining)))))
  Kept-next skipped one rest k ks = search (keeps_rules, k, ks)

  Keeps-delete_config_maps : (maps : List ConfigMap) → Kept (delete_config_maps self env maps)
  unfolding delete_config_maps
  Keeps-delete_config_maps [] = search keeps_rules
  Keeps-delete_config_maps (m ∷ maps) =
      Kept-next _ _ _ (Kept-removal _ _ (λ s p. p)) (Keeps-delete_config_maps maps)

  Keeps-delete_secrets : (secrets : List Secret) → Kept (delete_secrets self env secrets)
  unfolding delete_secrets
  Keeps-delete_secrets [] = search keeps_rules
  Keeps-delete_secrets (m ∷ secrets) =
      Kept-next _ _ _ (Kept-removal _ _ (λ s p. p)) (Keeps-delete_secrets secrets)

  Keeps-delete_owned_runtime_inputs : Kept (delete_owned_runtime_inputs self env)
  unfolding delete_owned_runtime_inputs
  Keeps-delete_owned_runtime_inputs =
      search (keeps_rules, Kept-get, Keeps-delete_config_maps, Keeps-delete_secrets)

  Kept-owned : Kept (owned_workload_deployments self env)
  Kept-owned = Keeps-owned_workload_deployments self env R stable

  Kept-all : (names : List Text) (remaining : Bool) → Kept (delete_all self env names remaining)
  Kept-all = Keeps-delete_all self env R stable

  Keeps-delete_owned : Kept (delete_owned self env)
  unfolding delete_owned
  Keeps-delete_owned = search (
    keeps_rules, Kept-owned, Kept-all, Keeps-delete_singletons, Keeps-delete_owned_runtime_inputs,
  )

  Kept-finalizer : Kept (remove_finalizer self env)
  Kept-finalizer = Keeps-aside self env R stable _ _ (λ s. refl) (λ s. refl)

  Keeps-on_remaining : (remaining : Bool) → Kept (on_remaining self env remaining)
  Keeps-on_remaining remaining = search (keeps_rules, Kept-finalizer)

  pub Keeps-reconcile_delete : Kept (reconcile_delete self env)
  unfolding reconcile_delete
  Keeps-reconcile_delete = search (keeps_rules, Keeps-delete_owned, Keeps-on_remaining)
