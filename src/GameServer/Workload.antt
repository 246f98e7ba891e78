-- ===== src/GameServer/Workload.antt =====
-- internal/controller/gameserver_controller.go, workload_name.go: the claim, the Service and the
-- Deployment of a running GameServer, and what is observed of them.
-- CreateOrUpdate of controller-runtime reads an object, and creates or updates it.
use mathlib.Core.List.{map}
use plexus_controller.Common.{
  Text, codes, text_eq, ℕ, ◌+◌, max, Bool, false, ◌&&◌, ◌||◌, not, Option, none, some, List, [],
  ◌∷◌, ltb, ◌==◌, if◌then◌else◌, is_nil, any,
}
use plexus_controller.GameServer.Types.{
  Setup, Meta, Revision, Deployment, Service, Claim, Definition, Self, Store, not_controlled,
  name_invalid, name_collision, configuration_invalid, no_shutdown_policy, Surroundings,
}
use plexus_controller.Api.{pure, fail, ◌>>=◌, ◌>>◌, when}
use plexus_controller.GameServer.Objects.{
  Run, write, get, is_controlled, is_deleted, marked, find_named, select, meta_of, name_source,
  delete_owned_object, mark_named,
}
use plexus_controller.Naming.Workload.{NameResult, ok, err, workload_deployment_name}
use plexus_controller.GameServer.Inputs.{own_meta}

module _ (self : Self) (env : Surroundings) where
  abbrev pub labelled_meta : Meta → Meta
  labelled_meta meta = record meta { server_uid = self.uid }

  abbrev pub on_claim : Definition → Option Claim → Run (Unit {0})
  on_claim definition none = write (λ s. record s {
    claim = some (record { meta = own_meta self env self.name; gibibytes = definition.gibibytes });
  })
  on_claim definition (some claim) =
      if is_controlled self claim.meta
      then write (λ s. record s {
        claim = some (record claim {
          meta = labelled_meta claim.meta;
          gibibytes = max claim.gibibytes definition.gibibytes;
        });
      })
      else fail not_controlled

  unfoldable pub ensure_claim : Definition → Run (Unit {0})
  ensure_claim definition = get (λ s. s.claim) >>= on_claim definition

  abbrev pub service_for : Setup → Definition → Service
  service_for setup definition = record {
    meta = own_meta self env self.name;
    game_id = setup.game_id;
    ports = definition.ports;
    ingress = [];
  }

  abbrev pub put_service : Service → Run Service
  put_service service = write (λ s. record s { service = some service }) >>= (λ u. pure service)

  abbrev pub on_service : Setup → Definition → Option Service → Run Service
  on_service setup definition none = put_service (service_for setup definition)
  on_service setup definition (some service) =
      if is_controlled self service.meta
      then put_service (record service {
        meta = labelled_meta service.meta;
        game_id = setup.game_id;
        ports = definition.ports;
      })
      else fail not_controlled

  unfoldable pub ensure_service : Setup → Definition → Run Service
  ensure_service setup definition = get (λ s. s.service) >>= on_service setup definition

  abbrev pub service_meta : Store → Option Meta
  service_meta s = elim s.service [ none ↦ none | some service ↦ some service.meta ]

  abbrev pub mark_service : Store → Store
  mark_service s = record s {
    service = elim s.service [
      | none ↦ none
      | some service ↦ some (record service { meta = marked env.now service.meta })
    ];
  }

  unfoldable pub delete_service : Run Bool
  delete_service = delete_owned_object self env service_meta mark_service

  unfoldable pub replace_service_if_game_changed : Option Setup → Run Bool
  replace_service_if_game_changed none = pure false
  replace_service_if_game_changed (some setup) = get (λ s. s.service) >>= (λ found. elim found [
    | none ↦ pure false
    | some service ↦ if text_eq service.game_id setup.game_id then pure false else delete_service
  ])

  -- gracefulShutdownLifecycle: whether there is a policy.
  unfoldable pub has_shutdown_policy : Definition → Bool
  has_shutdown_policy definition =
      not (ltb definition.timeout_seconds 1)
      && (definition.supervisor
          || (text_eq definition.strategy (codes "rcon-command") && not (is_nil definition.command))
          || text_eq definition.strategy (codes "process-signal"))

  abbrev pub on_existing : Option Deployment → Run (Unit {0})
  on_existing none = pure tt
  on_existing (some deployment) =
      if text_eq deployment.meta.server_uid self.uid || is_controlled self deployment.meta
      then pure tt
      else fail name_collision

  unfoldable pub ensure_workload_name_available : Text → Run (Unit {0})
  ensure_workload_name_available name =
      get (λ s. find_named meta_of name s.deployments) >>= on_existing

  abbrev pub revision_of : ℕ → Revision
  revision_of secret_revision = record {
    restart_generation = self.spec.restart_generation;
    configuration_generation = self.generation;
    secret_revision = secret_revision;
  }

  unfoldable pub deployment_for : Text → ℕ → Deployment
  deployment_for name secret_revision = record {
    meta = own_meta self env name;
    uid = env.deployment_uid;
    generation = 1;
    observed_generation = 0;
    desired = some 1;
    replicas = 0;
    updated = 0;
    available = 0;
    conditions = [];
    revision = revision_of secret_revision;
  }

  -- What else stands in the template follows from the generation of the GameServer. The update raises
  -- the Deployment's generation, as the API server does when a spec changes.
  abbrev pub updated_deployment : ℕ → Deployment → Deployment
  updated_deployment secret_revision deployment = record deployment {
    meta = labelled_meta deployment.meta;
    generation = deployment.generation + 1;
    desired = some 1;
    revision = revision_of secret_revision;
  }

  unfoldable pub replace_deployment : Deployment → List Deployment → List Deployment
  replace_deployment deployment [] = []
  replace_deployment deployment (d ∷ ds) =
      (if text_eq d.meta.name deployment.meta.name then deployment else d)
      ∷ replace_deployment deployment ds

  abbrev pub same_revision : Revision → Revision → Bool
  same_revision a b =
      a.restart_generation == b.restart_generation
      && a.configuration_generation == b.configuration_generation
      && a.secret_revision == b.secret_revision

  abbrev pub is_one : Option ℕ → Bool
  is_one none = false
  is_one (some n) = n == 1

  abbrev pub is_current : ℕ → Deployment → Bool
  is_current secret_revision deployment =
      same_revision deployment.revision (revision_of secret_revision)
      && is_one deployment.desired
      && text_eq deployment.meta.server_uid self.uid

  abbrev pub put_deployment : Deployment → Run Deployment
  put_deployment deployment =
      write (λ s. record s { deployments = replace_deployment deployment s.deployments })
      >>= (λ u. pure deployment)

  abbrev pub on_deployment : Text → ℕ → Option Deployment → Run Deployment
  on_deployment name secret_revision none =
      write (λ s. record s { deployments = deployment_for name secret_revision ∷ s.deployments })
      >>= (λ u. pure (deployment_for name secret_revision))
  on_deployment name secret_revision (some deployment) =
      if not (is_controlled self deployment.meta)
      then fail not_controlled
      else if is_current secret_revision deployment
      then pure deployment
      else put_deployment (updated_deployment secret_revision deployment)

  unfoldable pub delete_stale_workload_deployment : Text → Deployment → Run (Unit {0})
  delete_stale_workload_deployment current deployment =
      if text_eq deployment.meta.name current
      then pure tt
      else if not (is_controlled self deployment.meta)
      then pure tt
      else when (not (is_deleted deployment.meta)) (
          write (λ s. record s {
            deployments = map (mark_named env.now deployment.meta.name) s.deployments;
          }))

  unfoldable pub delete_stale : Text → List Deployment → Run (Unit {0})
  delete_stale current [] = pure tt
  delete_stale current (d ∷ ds) = do
    delete_stale_workload_deployment current d
    delete_stale current ds

  abbrev pub has_label : Deployment → Bool
  has_label d = text_eq d.meta.server_uid self.uid

  abbrev pub on_legacy : Text → Option Deployment → Run (Unit {0})
  on_legacy current none = pure tt
  on_legacy current (some deployment) = delete_stale_workload_deployment current deployment

  unfoldable pub delete_stale_workload_deployments : Text → Run (Unit {0})
  delete_stale_workload_deployments current =
      if is_nil current
      then pure tt
      else (get (λ s. select has_label s.deployments) >>= (λ listed.
          delete_stale current listed >>= (λ u.
            if text_eq current self.name || any (λ d. text_eq d.meta.name self.name) listed
            then pure tt
            else (get (λ s. find_named meta_of self.name s.deployments) >>= on_legacy current))))

  unfoldable pub ensure_named_deployment : Text → ℕ → Run Deployment
  ensure_named_deployment name secret_revision = do
    ensure_workload_name_available name >>= (λ u.
        get (λ s. find_named meta_of name s.deployments)
        >>= on_deployment name secret_revision
        >>= (λ deployment. delete_stale_workload_deployments name >>= (λ v. pure deployment)))

  abbrev pub on_name : ℕ → NameResult → Run Deployment
  on_name secret_revision (err e) = fail name_invalid
  on_name secret_revision (ok name) = ensure_named_deployment name secret_revision

  unfoldable pub ensure_deployment : Definition → Text → ℕ → Run Deployment
  ensure_deployment definition configuration secret_revision =
      if not (has_shutdown_policy definition)
      then fail no_shutdown_policy
      else if not (env.environment_ok definition.id configuration)
      then fail configuration_invalid
      else on_name secret_revision (workload_deployment_name env.lower_high (name_source self))
