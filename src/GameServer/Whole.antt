-- ===== src/GameServer/Whole.antt =====
-- internal/controller/gameserver_controller.go: what Reconcile keeps, from what its ends keep.
use plexus_controller.Common.{
  Text, codes, text_eq, ℕ, ◌≡◌, refl, Bool, true, false, not, Option, none, some, List,
  if◌then◌else◌, is_nil,
}
use plexus_controller.GameServer.Types.{
  Setup, Status, Deployment, Definition, Self, Store, Requeue, Surroundings,
}
use plexus_controller.GameServer.Objects.{Run, get}
use plexus_controller.Api.Keeps.{
  Keeps, Keeps-bind, Keeps-pure, Keeps-if, Keeps-otherwise, keeps_rules,
}
use plexus_controller.GameServer.Stable.{
  IsStable, Holds, Keeps-update_failed_status, Keeps-report_unobserved_failure, Keeps-get,
  Keeps-aside,
}
use plexus_controller.GameServer.Inputs.{desired_state_ok, is_stopped_power}
use plexus_controller.GameServer.Shutdown.{reconcile_unloaded}
use plexus_controller.GameServer.Reconcile.{
  ensure_metadata, report_permanent_failure, unobserved, reconcile_workload, on_configuration,
  reconcile_setup, on_quiesced, on_game, on_setup, reconcile_live, reconcile,
}
use plexus_controller.GameServer.StopSteps.{
  Keeps-quiesce_before_secret_validation, Keeps-reconcile_delete,
}
use plexus_controller.GameServer.StartSteps.{
  Keeps-validate_setup_secret, Keeps-validate_mod_artifacts,
}

module _ (self : Self) (env : Surroundings) (R : Status → List Deployment → Type 0)
    (stable : IsStable env R) where
  abbrev Kept : {A : Type 0} → Run A → Type 0
  Kept m = Keeps (Holds self env R stable) m

  Kept-get : {A : Type 0} (read : Store → A) → Kept (get read)
  Kept-get = Keeps-get self env R stable

  Kept-metadata : Kept (ensure_metadata self env)
  unfolding ensure_metadata
  Kept-metadata = Keeps-bind _ _ (search keeps_rules) (λ current.
      Keeps-if current _ _ (λ e. Keeps-pure _)
        (λ e.
          Keeps-bind _ _ (Keeps-aside self env R stable _ _ (λ s. refl) (λ s. refl))
            (λ u. Keeps-pure _)))

  Kept-permanent : (reason : Text) → Kept (report_permanent_failure self env reason)
  Kept-permanent reason =
      Keeps-bind _ _ (Keeps-update_failed_status self env R stable reason) (λ u. Keeps-pure _)

  Kept-unobserved : (reason : Text) (delay : ℕ) → Kept (unobserved self env reason delay)
  Kept-unobserved reason delay =
      Keeps-bind _ _ (Keeps-report_unobserved_failure self env R stable reason) (λ u. Keeps-pure _)

  module _ (valid : desired_state_ok self ≡ true)
      (workload : (setup : Setup) (definition : Definition) (configuration : Text)
          (secret : Option Text × ℕ)
        → self.spec.selected_setup ≡ some setup
        → Kept (reconcile_workload self env setup definition configuration secret))
      (unloaded : self.spec.selected_setup ≡ none → Kept (reconcile_unloaded self env)) where
    Keeps-on_configuration :
        (setup : Setup) (definition : Definition) (secret : Option Text × ℕ)
        (configuration : Option Text)
        → self.spec.selected_setup ≡ some setup
        → Kept (on_configuration self env setup definition secret configuration)
    Keeps-on_configuration setup definition secret none chosen = Kept-unobserved _ _
    Keeps-on_configuration setup definition secret (some configuration) chosen =
        Keeps-otherwise _ _ _ (Keeps-validate_mod_artifacts self env R stable setup definition)
          (λ error. Kept-unobserved _ _)
          (λ u. workload setup definition configuration secret chosen)

    Keeps-reconcile_setup :
        (setup : Setup) (definition : Definition)
        → self.spec.selected_setup ≡ some setup
        → Kept (reconcile_setup self env setup definition)
    unfolding reconcile_setup
    Keeps-reconcile_setup setup definition chosen =
        Keeps-if (not (text_eq setup.schema_version definition.management_schema_version)) _ _
          (λ e. Kept-unobserved _ _)
          (λ e.
            Keeps-otherwise _ _ _ (Keeps-validate_setup_secret self env R stable setup definition)
              (λ error. Kept-unobserved _ _)
              (λ secret. Keeps-on_configuration setup definition secret _ chosen))

    Keeps-on_quiesced :
        (setup : Setup) (definition : Definition) (requeue : Option Requeue)
        → self.spec.selected_setup ≡ some setup
        → Kept (on_quiesced self env setup definition requeue)
    Keeps-on_quiesced setup definition none chosen = Keeps-reconcile_setup setup definition chosen
    Keeps-on_quiesced setup definition (some requeue) chosen = Keeps-pure _

    Keeps-on_game :
        (setup : Setup) (definition : Option Definition)
        → self.spec.selected_setup ≡ some setup
        → Kept (on_game self env setup definition)
    Keeps-on_game setup none chosen = Kept-permanent _
    Keeps-on_game setup (some definition) chosen =
        Keeps-if (is_nil definition.container_name) _ _ (λ e. Kept-permanent _)
          (λ e.
            Keeps-if (is_stopped_power self.spec.desired_power) _ _
              (λ stops.
                Keeps-bind _ _ (Keeps-quiesce_before_secret_validation self env R stable)
                  (λ requeue. Keeps-on_quiesced setup definition requeue chosen))
              (λ runs. Keeps-reconcile_setup setup definition chosen))

    pub Keeps-on_setup :
        (setup : Option Setup) → self.spec.selected_setup ≡ setup → Kept (on_setup self env setup)
    Keeps-on_setup none chosen = unloaded chosen
    Keeps-on_setup (some setup) chosen = Keeps-on_game setup _ chosen

  module _
      (workload : (setup : Setup) (definition : Definition) (configuration : Text)
          (secret : Option Text × ℕ)
        → desired_state_ok self ≡ true
        → self.spec.selected_setup ≡ some setup
        → Kept (reconcile_workload self env setup definition configuration secret))
      (unloaded : desired_state_ok self ≡ true
        → self.spec.selected_setup ≡ none
        → Kept (reconcile_unloaded self env)) where
    Keeps-on_valid :
        (valid : Bool)
        → desired_state_ok self ≡ valid
        → Kept (
            if not valid
            then report_permanent_failure self env (codes "InvalidDesiredState")
            else on_setup self env self.spec.selected_setup)
    Keeps-on_valid false invalid = Kept-permanent _
    Keeps-on_valid true valid =
        Keeps-on_setup valid
          (λ setup definition configuration secret.
            workload setup definition configuration secret valid)
          (unloaded valid) _ refl

    Keeps-reconcile_live : Kept (reconcile_live self env)
    unfolding reconcile_live
    Keeps-reconcile_live =
        Keeps-bind _ _ Kept-metadata
          (λ changed. Keeps-if changed _ _ (λ e. Keeps-pure _) (λ e. Keeps-on_valid _ refl))

    pub Keeps-reconcile : Kept (reconcile self env)
    unfolding reconcile
    Keeps-reconcile = Keeps-bind _ _ (Kept-get _) (λ status.
        Keeps-if self.deleting _ _ (λ e. Keeps-reconcile_delete self env R stable)
          (λ e. Keeps-reconcile_live))
