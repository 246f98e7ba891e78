-- ===== src/GameServer/Inputs.antt =====
-- internal/controller/gameserver_controller.go: validateDesiredState, validateSetupSecret,
-- validateModArtifacts, and the immutable inputs of a workload: ensureConfigMap, ensureRuntimeSecret.
use plexus_controller.Common.{
  Text, codes, text_eq, trim_space, ℕ, Bool, true, false, ◌&&◌, ◌||◌, not, Option, none, some, List,
  [], ◌∷◌, ◌++◌, ltb, ◌==◌, if◌then◌else◌, length, is_nil,
}
use plexus_controller.GameServer.Types.{
  Power, stopped, other, ModSpec, Setup, Meta, ConfigMap, Secret, Definition, Self, not_controlled,
  mismatch, secret_migration, secret_invalid, configuration_invalid, mods_invalid, Surroundings,
}
use plexus_controller.Api.{pure, fail, ◌>>=◌}
use plexus_controller.GameServer.Objects.{Run, write, get, is_controlled, find_named}

abbrev pub secret_meta : Secret → Meta
secret_meta secret = secret.meta

abbrev pub config_map_meta : ConfigMap → Meta
config_map_meta config_map = config_map.meta

abbrev pub is_true : Option Bool → Bool
is_true none = false
is_true (some b) = b

abbrev pub is_stopped_power : Power → Bool
is_stopped_power stopped = true
is_stopped_power _ = false

abbrev pub is_other : Power → Bool
is_other (other power) = true
is_other _ = false

unfoldable pub desired_state_ok : Self → Bool
desired_state_ok self = elim self.spec.selected_setup [
  | none ↦ is_stopped_power self.spec.desired_power
  | some setup ↦ not (is_other self.spec.desired_power)
]

unfoldable pub manages_mods : Definition → Bool
manages_mods definition = definition.supports_mods || definition.workshop_startup

module _ (self : Self) (env : Surroundings) where
  unfoldable pub owns_secret : Setup → Secret → Bool
  owns_secret setup secret =
      text_eq secret.server_id self.spec.server_id
      && text_eq secret.owner_user_id self.spec.owner_user_id
      && text_eq secret.game_id setup.game_id
      && text_eq secret.setup_id setup.id

  abbrev pub positive_revision : Option ℕ → Option ℕ
  positive_revision none = none
  positive_revision (some revision) = if ltb revision 1 then none else some revision

  -- The environment of the pod and the revision, or the error's class.
  abbrev pub with_environment : ℕ → Option (Option Text) → Run (Option Text × ℕ)
  with_environment revision none = fail secret_invalid
  with_environment revision (some environment) = pure (environment, revision)

  abbrev pub with_revision : Text → Secret → Option ℕ → Run (Option Text × ℕ)
  with_revision game_id secret none = fail secret_invalid
  with_revision game_id secret (some revision) =
      if not (is_true secret.immutable) || not secret.opaque || not (secret.keys == 1)
      then fail secret_invalid
      else with_environment revision (env.runtime_secret game_id secret.payload)

  unfoldable pub check_setup_secret : Setup → Text → Text → Option Secret → Run (Option Text × ℕ)
  check_setup_secret setup game_id schema none = fail secret_invalid
  check_setup_secret setup game_id schema (some secret) =
      if not (owns_secret setup secret)
      then fail secret_invalid
      else if not (text_eq secret.schema schema)
      then fail secret_migration
      else with_revision game_id secret (positive_revision secret.revision)

  unfoldable pub validate_setup_secret : Setup → Definition → Run (Option Text × ℕ)
  validate_setup_secret setup definition = elim (env.secret_schema definition.id) [
    | none ↦ fail secret_invalid
    | some schema ↦
        get (λ s. find_named secret_meta setup.secret_ref s.secrets)
        >>= check_setup_secret setup definition.id schema
  ]

  unfoldable pub staged_for : ModSpec → Secret → Bool
  staged_for spec secret =
      text_eq secret.artifact.provider_id spec.provider_id
      && text_eq secret.artifact.provider_mod_id spec.provider_mod_id
      && text_eq secret.artifact.version spec.version
      && text_eq secret.artifact_sha256 spec.archive_sha256

  unfoldable pub archive_name_ok : ModSpec → Bool
  archive_name_ok spec =
      text_eq spec.archive_file_name (spec.name ++ codes "_" ++ spec.version ++ codes ".zip")
      && not (is_nil (trim_space spec.artifact_ref))

  unfoldable pub artifact_ok : Setup → ModSpec → Secret → Bool
  artifact_ok setup spec secret =
      owns_secret setup secret
      && is_controlled self secret.meta
      && staged_for spec secret
      && is_true secret.immutable
      && secret.opaque
      && secret.keys == 1
      && env.archive_ok spec secret.payload

  abbrev pub on_artifact : Setup → ModSpec → Option Secret → Run (Unit {0})
  on_artifact setup spec none = fail mods_invalid
  on_artifact setup spec (some secret) =
      if artifact_ok setup spec secret then pure tt else fail mods_invalid

  -- The loop over the mods that have an archive.
  unfoldable pub validate_archives : Setup → List ModSpec → Run (Unit {0})
  validate_archives setup [] = pure tt
  validate_archives setup (spec ∷ specs) =
      if env.release_ok spec && archive_name_ok spec
      then (get (λ s. find_named secret_meta spec.artifact_ref s.secrets)
          >>= (λ found. on_artifact setup spec found >>= (λ u. validate_archives setup specs)))
      else fail mods_invalid

  unfoldable pub validate_workshop_mods : List ModSpec → Bool
  validate_workshop_mods [] = true
  validate_workshop_mods (spec ∷ specs) =
      is_nil (trim_space spec.artifact_ref)
      && is_nil (trim_space spec.archive_sha256)
      && env.workshop_ok spec
      && validate_workshop_mods specs

  unfoldable pub validate_mod_artifacts : Setup → Definition → Run (Unit {0})
  validate_mod_artifacts setup definition =
      if not (manages_mods definition)
      then if is_nil setup.mods then pure tt else fail mods_invalid
      else if ltb 1 (length setup.mods)
      then fail mods_invalid
      else if definition.workshop_startup
      then if validate_workshop_mods setup.mods then pure tt else fail mods_invalid
      else validate_archives setup setup.mods

  abbrev pub own_meta : Text → Meta
  own_meta name = record {
    name = name;
    controller = some self.uid;
    server_uid = self.uid;
    deleted_at = none;
  }

  unfoldable pub config_map_for : Text → Text → ConfigMap
  config_map_for name files = record { meta = own_meta name; immutable = some true; files = files }

  -- An existing ConfigMap is used as it is or refused.
  abbrev pub on_config_map : Text → Text → Option ConfigMap → Run (Unit {0})
  on_config_map name files none =
      write (λ s. record s { config_maps = config_map_for name files ∷ s.config_maps })
  on_config_map name files (some config_map) =
      if not (is_controlled self config_map.meta)
      then fail not_controlled
      else if is_true config_map.immutable && text_eq config_map.files files
      then pure tt
      else fail mismatch

  unfoldable pub ensure_config_map : Definition → Text → Text → Run (Unit {0})
  ensure_config_map definition configuration name = elim (env.render definition.id configuration) [
    | none ↦ fail configuration_invalid
    | some files ↦
        get (λ s. find_named config_map_meta name s.config_maps) >>= on_config_map name files
  ]

  unfoldable pub runtime_secret_for : Text → Text → ℕ → Secret
  runtime_secret_for name environment revision = record {
    meta = own_meta name;
    server_id = [];
    owner_user_id = [];
    game_id = [];
    setup_id = [];
    schema = [];
    revision = some revision;
    artifact = record { provider_id = []; provider_mod_id = []; name = []; version = [] };
    artifact_sha256 = [];
    immutable = some true;
    opaque = true;
    keys = 0;
    payload = environment;
  }

  abbrev pub on_runtime_secret : Text → Text → ℕ → Option Secret → Run (Unit {0})
  on_runtime_secret name environment revision none =
      write (λ s. record s { secrets = runtime_secret_for name environment revision ∷ s.secrets })
  on_runtime_secret name environment revision (some secret) =
      if not (is_controlled self secret.meta)
      then fail not_controlled
      else if is_true secret.immutable && secret.opaque && text_eq secret.payload environment
      then pure tt
      else fail mismatch

  unfoldable pub ensure_runtime_secret : Option Text → ℕ → Text → Run (Unit {0})
  ensure_runtime_secret none revision name = fail configuration_invalid
  ensure_runtime_secret (some environment) revision name =
      get (λ s. find_named secret_meta name s.secrets)
      >>= on_runtime_secret name environment revision
