-- ===== src/GameServer/Types.antt =====
-- api/v1alpha1/gameserver_types.go, internal/games/types.go: the GameServer and the objects that its
-- reconciler reads and writes.
-- A time is a number of seconds. The contents of ConfigMaps and Secrets are texts. Status messages, and
-- what of a pod template does not tell one revision from another, are left out.
use plexus_controller.Common.{Text, ℕ, Bool, Option, List}

pub data Power : Type 0 where
  running stopped : Power
  other : Text → Power

pub data Phase : Type 0 where
  unset unknown provisioning stopped starting running stopping failed : Phase

pub record InstalledMod : Type 0 where
  pub provider_id : Text
  pub provider_mod_id : Text
  pub name : Text
  pub version : Text

pub record ModSpec : Type 0 where
  pub provider_id : Text
  pub provider_mod_id : Text
  pub name : Text
  pub version : Text
  pub game_version : Text
  pub dependencies : List Text
  pub load_ids : List Text
  pub archive_file_name : Text
  pub archive_sha256 : Text
  pub artifact_ref : Text

pub record Setup : Type 0 where
  pub id : Text
  pub game_id : Text
  pub schema_version : Text
  pub values : Text
  pub secret_ref : Text
  pub mods : List ModSpec

pub record Spec : Type 0 where
  pub server_id : Text
  pub owner_user_id : Text
  pub customer_slug : Text
  pub display_name : Text
  pub desired_power : Power
  pub selected_setup : Option Setup
  pub restart_generation : ℕ
  pub force : Bool  -- ShutdownMode is Force

pub record Condition : Type 0 where
  pub kind : Text
  pub holds : Bool
  pub generation : ℕ
  pub reason : Text

-- What meta.FindStatusCondition tells of a condition.
pub record Found : Type 0 where
  pub holds : Bool
  pub since : Option ℕ

pub record Status : Type 0 where
  pub phase : Phase
  pub active_setup_id : Text
  pub observed_generation : ℕ
  pub observed_restart_generation : ℕ
  pub observed_configuration_generation : ℕ
  pub observed_secret_revision : ℕ
  pub installed_mods : List InstalledMod
  pub installed_mods_generation : ℕ
  pub endpoint : Text
  pub conditions : List Condition
  pub last_observed_at : Option ℕ

-- The metadata of an object that the GameServer may control. `controller` is the uid of the controlling
-- owner, `server_uid` the label plexus.gg/gameserver-uid.
pub record Meta : Type 0 where
  pub name : Text
  pub controller : Option Text
  pub server_uid : Text
  pub deleted_at : Option ℕ

pub record Rollout : Type 0 where
  pub kind : Text
  pub holds : Bool
  pub reason : Text

-- The annotations of the pod template.
pub record Revision : Type 0 where
  pub restart_generation : ℕ
  pub configuration_generation : ℕ
  pub secret_revision : ℕ

pub record Deployment : Type 0 where
  pub meta : Meta
  pub uid : Text
  pub generation : ℕ
  pub observed_generation : ℕ
  pub desired : Option ℕ
  pub replicas : ℕ
  pub updated : ℕ
  pub available : ℕ
  pub conditions : List Rollout
  pub revision : Revision

pub record Ingress : Type 0 where
  pub hostname : Text
  pub ip : Text

pub record Service : Type 0 where
  pub meta : Meta
  pub game_id : Text  -- the label
  pub ports : List ℕ
  pub ingress : List Ingress

pub record Claim : Type 0 where
  pub meta : Meta
  pub gibibytes : ℕ

pub record DiskJob : Type 0 where
  pub meta : Meta
  pub command : Text  -- of the only container
  pub artifact : Option Text  -- the Secret that is mounted beside the claim
  pub fingerprint : Text  -- the annotation plexus.gg/disk-fingerprint
  pub succeeded : ℕ
  pub failed : ℕ
  pub failed_condition : Bool

pub record ConfigMap : Type 0 where
  pub meta : Meta
  pub immutable : Option Bool
  pub files : Text

-- The labels that name a setup, and the annotations that the reconciler reads.
pub record Secret : Type 0 where
  pub meta : Meta
  pub server_id : Text
  pub owner_user_id : Text
  pub game_id : Text
  pub setup_id : Text
  pub schema : Text
  pub revision : Option ℕ  -- the annotation, if it is a decimal int64 that is not negative
  pub artifact : InstalledMod  -- the annotations of a staged mod
  pub artifact_sha256 : Text
  pub immutable : Option Bool
  pub opaque : Bool
  pub keys : ℕ
  pub payload : Text

pub record Container : Type 0 where
  pub waiting : Option Text  -- the reason
  pub exit_code : Option ℕ  -- of a terminated one

pub record Pod : Type 0 where
  pub name : Text
  pub server_id : Text
  pub component : Text
  pub server_uid : Text
  pub configuration_generation : Text  -- the annotation
  pub controller : Option (Text × Text)  -- its kind and its name
  pub unschedulable : Bool  -- PodScheduled is False for the reason Unschedulable
  pub init_containers : List Container
  pub containers : List Container

pub record ReplicaSet : Type 0 where
  pub name : Text
  pub controller : Option (Text × Text)  -- its kind and its uid

-- A SaveImport or a SaveExport.
pub data TransferPhase : Type 0 where
  unset pending running succeeded failed expired : TransferPhase

pub record Transfer : Type 0 where
  pub server_id : Text
  pub phase : TransferPhase

-- What the reconciler uses of games.GameDefinition.
pub record Definition : Type 0 where
  pub id : Text
  pub container_name : Text
  pub management_schema_version : Text
  pub supports_mods : Bool
  pub workshop_startup : Bool
  pub supervisor : Bool
  pub strategy : Text
  pub command : Text
  pub timeout_seconds : ℕ
  pub ports : List ℕ
  pub gibibytes : ℕ  -- games.CalculateDiskSize(id, 0, 0)

-- What the reconciler never writes of the GameServer.
pub record Self : Type 0 where
  pub name : Text
  pub uid : Text
  pub generation : ℕ
  pub deleting : Bool
  pub spec : Spec

pub record ServerLabels : Type 0 where
  pub server_id : Option Text
  pub owner_user_id : Option Text
  pub game_id : Option Text

-- The stored state. The Service and the claim bear the GameServer's name, the Job the name of its disk
-- Job.
pub record Store : Type 0 where
  pub status : Status
  pub labels : ServerLabels
  pub finalizer : Bool
  pub deployments : List Deployment
  pub service : Option Service
  pub claim : Option Claim
  pub job : Option DiskJob
  pub config_maps : List ConfigMap
  pub secrets : List Secret
  pub pods : List Pod

-- The errors of the reconciler, as far as it tells them apart.
pub data Error : Type 0 where
  api not_controlled name_invalid name_collision no_uid mismatch : Error
  invalid_state unsupported_game migration secret_migration secret_invalid : Error
  configuration_invalid mods_invalid panicked no_shutdown_policy transfer_failed : Error

pub data Requeue : Type 0 where
  never at_once : Requeue
  after : ℕ → Requeue

-- What is only read: the clock, the catalogue of games, the other resources, and the packages that the
-- reconciler calls. `set_condition` and `find_condition` are apimachinery's SetStatusCondition and
-- FindStatusCondition; `same_status` is reflect.DeepEqual on statuses with their messages.
pub record Surroundings : Type 0 where
  pub now : ℕ
  pub lower_high : ℕ → ℕ
  pub game : Text → Option Definition
  pub imports : List Transfer
  pub exports : List Transfer
  pub replica_sets : List ReplicaSet
  pub set_condition : List Condition → Condition → List Condition
  pub find_condition : List Condition → Text → Option Found
  pub same_status : Status → Status → Bool
  pub digest_hex : Text → Text
  pub fingerprint : List InstalledMod → Text
  pub secret_schema : Text → Option Text
  pub runtime_secret : Text → Text → Option (Option Text)  -- the environment, which may be nil
  pub normalize : Text → Text → Option Text
  pub render : Text → Text → Option Text
  pub environment_ok : Text → Text → Bool
  pub release_ok : ModSpec → Bool
  pub archive_ok : ModSpec → Text → Bool
  pub workshop_ok : ModSpec → Bool
  pub deployment_uid : Text
