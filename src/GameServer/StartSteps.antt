-- ===== src/GameServer/StartSteps.antt =====
-- internal/controller/gameserver_controller.go, workload_name.go: what the start of a workload keeps.
use plexus_controller.Common.{
  Text, text_eq, ℕ, ◌≡◌, refl, Bool, ◌&&◌, ◌||◌, Option, none, some, List, [], ◌∷◌, if◌then◌else◌,
  is_nil, any,
}
use plexus_controller.GameServer.Types.{
  ModSpec, Setup, Status, Deployment, Secret, Definition, Self, Store, Error, api, after,
  Surroundings,
}
use plexus_controller.Api.{pure, call, ◌>>=◌}
use plexus_controller.GameServer.Objects.{Run, get, find_named, meta_of}
use plexus_controller.Naming.Workload.{NameResult, ok, err}
use plexus_controller.Api.Keeps.{
  Keeps, Keeps-option, Keeps-bind, Keeps-pure, Keeps-fail, Keeps-call, Keeps-if, Keeps-otherwise,
  keeps_rules,
}
use plexus_controller.GameServer.Status.{report_failure}
use plexus_controller.GameServer.Stable.{IsStable, Holds, Keeps-report_failure, Keeps-get}
use plexus_controller.GameServer.Inputs.{
  with_environment, with_revision, check_setup_secret, validate_setup_secret, on_artifact,
  archive_name_ok, validate_archives, validate_mod_artifacts,
}
use plexus_controller.GameServer.Workload.{
  on_existing, ensure_workload_name_available, on_deployment, ensure_deployment,
}
use plexus_controller.GameServer.Running.{run_workload, reconcile_running}
use plexus_controller.GameServer.Workload.{
  delete_stale_workload_deployment, delete_stale, on_legacy, delete_stale_workload_deployments,
  ensure_named_deployment, on_name, put_deployment,
}
use plexus_controller.GameServer.RunSteps.{
  Keeps-ensure_service, Keeps-observe_workload, Keeps-ensure_config_map,
  Keeps-ensure_runtime_secret, Keeps-named, Keeps-deployment_failed,
}
use plexus_controller.GameServer.StopSteps.{Keeps-replace_service_if_game_changed}

module _ (self : Self) (env : Surroundings) (R : Status → List Deployment → Type 0)
    (stable : IsStable env R) where
  abbrev Kept : {A : Type 0} → Run A → Type 0
  Kept m = Keeps (Holds self env R stable) m

  Kept-get : {A : Type 0} (read : Store → A) → Kept (get read)
  Kept-get = Keeps-get self env R stable

  Kept-report :
      {A : Type 0} (reason : Text) (error : Error)
      → Kept (report_failure self env {A = A} reason error)
  Kept-report = Keeps-report_failure self env R stable

  -- The checks only read.
  Keeps-check_setup_secret :
      (setup : Setup) (game_id schema : Text) (secret : Option Secret)
      → Kept (check_setup_secret self env setup game_id schema secret)
  unfolding check_setup_secret
  Keeps-check_setup_secret setup game_id schema none = search keeps_rules
  Keeps-check_setup_secret setup game_id schema (some secret) =
      search (keeps_rules, Keeps-with_revision)
    where
      Keeps-with_environment :
          (revision : ℕ) (environment : Option (Option Text))
          → Kept (with_environment self env revision environment)
      Keeps-with_environment revision none = search keeps_rules
      Keeps-with_environment revision (some environment) = search keeps_rules

      Keeps-with_revision :
          (game : Text) (secret : Secret) (revision : Option ℕ)
          → Kept (with_revision self env game secret revision)
      Keeps-with_revision game secret none = search keeps_rules
      Keeps-with_revision game secret (some revision) = search (keeps_rules, Keeps-with_environment)

  pub Keeps-validate_setup_secret :
      (setup : Setup) (definition : Definition)
      → Kept (validate_setup_secret self env setup definition)
  unfolding validate_setup_secret
  Keeps-validate_setup_secret setup definition =
      Keeps-option _ _ _ (Keeps-fail _) (λ schema.
        Keeps-bind _ _ (Kept-get _) (Keeps-check_setup_secret setup definition.id schema))

  Keeps-on_artifact :
      (setup : Setup) (spec : ModSpec) (secret : Option Secret)
      → Kept (on_artifact self env setup spec secret)
  Keeps-on_artifact setup spec none = search keeps_rules
  Keeps-on_artifact setup spec (some secret) = search keeps_rules

  Keeps-validate_archives :
      (setup : Setup) (specs : List ModSpec) → Kept (validate_archives self env setup specs)
  unfolding validate_archives
  Keeps-validate_archives setup [] = search keeps_rules
  Keeps-validate_archives setup (spec ∷ specs) =
      Keeps-if (env.release_ok spec && archive_name_ok self env spec) _ _
        (λ e. Keeps-bind _ _ (Kept-get _) (λ found.
          Keeps-bind _ _ (Keeps-on_artifact setup spec found)
            (λ u. Keeps-validate_archives setup specs)))
        (λ e. Keeps-fail _)

  pub Keeps-validate_mod_artifacts :
      (setup : Setup) (definition : Definition)
      → Kept (validate_mod_artifacts self env setup definition)
  unfolding validate_mod_artifacts
  Keeps-validate_mod_artifacts setup definition = search (keeps_rules, Keeps-validate_archives)

  -- The workload, for a relation that does not mind which Deployments there are.
  module _ (free : (st : Status) (ds es : List Deployment) → R st ds → R st es) where
    Kept-change :
        {A : Type 0} (change : Store → Store) (read : Store → A)
        → ((s : Store) → (change s).status ≡ s.status)
        → Kept (call api change read)
    Kept-change change read h =
        Keeps-call api change read
          (λ s p. rw (h s) (free s.status s.deployments (change s).deployments p))

    Keeps-on_existing : (found : Option Deployment) → Kept (on_existing self env found)
    Keeps-on_existing none = search keeps_rules
    Keeps-on_existing (some deployment) = search keeps_rules

    Keeps-on_deployment :
        (name : Text) (revision : ℕ) (found : Option Deployment)
        → Kept (on_deployment self env name revision found)
    Keeps-on_deployment name revision none =
        Keeps-bind _ _ (Kept-change _ _ (λ s. refl)) (λ u. Keeps-pure _)
    Keeps-on_deployment name revision (some deployment) = search (keeps_rules, Keeps-put_deployment)
      where
        Keeps-put_deployment : (deployment : Deployment) → Kept (put_deployment self env deployment)
        Keeps-put_deployment d = Keeps-bind _ _ (Kept-change _ _ (λ s. refl)) (λ u. Keeps-pure _)

    Keeps-delete_stale_workload_deployment :
        (current : Text) (deployment : Deployment)
        → Kept (delete_stale_workload_deployment self env current deployment)
    unfolding delete_stale_workload_deployment
    Keeps-delete_stale_workload_deployment current deployment = search keeps_rules

    Keeps-delete_stale :
        (current : Text) (ds : List Deployment) → Kept (delete_stale self env current ds)
    unfolding delete_stale
    Keeps-delete_stale current [] = search keeps_rules
    Keeps-delete_stale current (d ∷ ds) =
        Keeps-bind _ _ (Keeps-delete_stale_workload_deployment current d)
          (λ u. Keeps-delete_stale current ds)

    Keeps-on_legacy :
        (current : Text) (found : Option Deployment) → Kept (on_legacy self env current found)
    Keeps-on_legacy current none = search keeps_rules
    Keeps-on_legacy current (some d) = Keeps-delete_stale_workload_deployment current d

    Keeps-delete_stale_workload_deployments :
        (current : Text) → Kept (delete_stale_workload_deployments self env current)
    unfolding delete_stale_workload_deployments
    Keeps-delete_stale_workload_deployments current =
        Keeps-if (is_nil current) _ _ (λ e. Keeps-pure _)
          (λ e.
            Keeps-bind _ _ (Kept-get _) (λ listed.
              Keeps-bind _ _ (Keeps-delete_stale current listed) (λ u. Kept-rest listed)))
      where
        Kept-rest :
            (listed : List Deployment)
            → Kept (
                if text_eq current self.name || any (λ d. text_eq d.meta.name self.name) listed
                then pure tt
                else (get (λ s. find_named meta_of self.name s.deployments)
                    >>= on_legacy self env current))
        Kept-rest listed = search (keeps_rules, Kept-get, Keeps-on_legacy)

    Keeps-ensure_workload_name_available :
        (name : Text) → Kept (ensure_workload_name_available self env name)
    unfolding ensure_workload_name_available
    Keeps-ensure_workload_name_available name = Keeps-bind _ _ (Kept-get _) Keeps-on_existing

    Keeps-ensure_named_deployment :
        (name : Text) (revision : ℕ) → Kept (ensure_named_deployment self env name revision)
    unfolding ensure_named_deployment
    Keeps-ensure_named_deployment name revision = search (
      keeps_rules, Kept-get, Keeps-ensure_workload_name_available, Keeps-on_deployment,
      Keeps-delete_stale_workload_deployments,
    )

    Keeps-on_name : (revision : ℕ) (result : NameResult) → Kept (on_name self env revision result)
    Keeps-on_name revision (err e) = search keeps_rules
    Keeps-on_name revision (ok name) = Keeps-ensure_named_deployment name revision

    Keeps-ensure_deployment :
        (definition : Definition) (configuration : Text) (revision : ℕ)
        → Kept (ensure_deployment self env definition configuration revision)
    unfolding ensure_deployment
    Keeps-ensure_deployment definition configuration revision = search (keeps_rules, Keeps-on_name)

    Keeps-run_workload :
        (setup : Setup) (definition : Definition) (configuration : Text) (revision : ℕ)
        → Kept (run_workload self env setup definition configuration revision)
    unfolding run_workload
    Keeps-run_workload setup definition configuration revision =
        Keeps-otherwise _ _ _ (Keeps-ensure_service self env R stable setup definition)
          (Kept-report _)
          (λ service.
            Keeps-otherwise _ _ _ (Keeps-ensure_deployment definition configuration revision)
              (Keeps-deployment_failed self env R stable)
              (Keeps-observe_workload self env R stable setup definition revision service))

    Kept-run :
        (replaced : Bool) (setup : Setup) (definition : Definition) (configuration : Text)
        (revision : ℕ)
        → Kept (
            if replaced
            then pure (after 1)
            else run_workload self env setup definition configuration revision)
    Kept-run replaced setup definition configuration revision =
        search (keeps_rules, Keeps-run_workload)

    pub Keeps-reconcile_running :
        (setup : Setup) (definition : Definition) (configuration : Text) (secret : Option Text × ℕ)
        → Kept (reconcile_running self env setup definition configuration secret)
    unfolding reconcile_running
    Keeps-reconcile_running setup definition configuration (environment, revision) =
        Keeps-otherwise _ _ _
          (Keeps-named self env R stable _ _
            (Keeps-ensure_config_map self env R stable definition configuration))
          (Kept-report _)
          (λ u.
            Keeps-otherwise _ _ _
              (Keeps-named self env R stable _ _
                (Keeps-ensure_runtime_secret self env R stable environment revision))
              (Kept-report _)
              (λ v.
                Keeps-otherwise _ _ _
                  (Keeps-replace_service_if_game_changed self env R stable (some setup))
                  (Kept-report _)
                  (λ replaced. Kept-run replaced setup definition configuration revision)))
