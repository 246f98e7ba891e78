-- ===== src/SaveImport/Cluster.antt =====
-- internal/controller/saveimport_controller.go, api/v1alpha1/saveimport_types.go: the SaveImport object
-- and the part of the cluster that its reconciler reads and writes.
-- A time is a number of nanoseconds. An object is identified by its uid, a number.
use plexus_controller.Common.{Text, ℕ, Bool, true, false, Option, List, [], ◌∷◌}
use plexus_controller.Common.Int.{ℤ}

pub data Phase : Type 0 where
  unset pending running succeeded failed expired : Phase

pub record Spec : Type 0 where
  pub server_id : Text
  pub owner_user_id : Text
  pub setup_id : Text
  pub game_id : Text
  pub archive_name : Text
  pub download_url_secret_ref : Text
  pub expires_at : ℕ

-- The API server keeps progressPercent and archiveBytes from being negative.
pub record Status : Type 0 where
  pub phase : Phase
  pub progress_percent : ℕ
  pub stage : Text
  pub archive_name : Text
  pub archive_bytes : ℕ
  pub message : Text
  pub recovery : Text
  pub started_at : Option ℕ
  pub finished_at : Option ℕ

-- The labels that name the transfer's owner; an absent label reads as the empty string.
pub record Labels : Type 0 where
  pub server_id : Text
  pub owner_user_id : Text
  pub setup_id : Text
  pub game_id : Text
  pub save_import_id : Text

-- `controller` is the uid of the controlling owner.
pub record Job : Type 0 where
  pub uid : ℕ
  pub controller : Option ℕ
  pub labels : Labels
  pub deadline_seconds : ℕ
  pub secret_ref : Text
  pub claim_name : Text
  pub succeeded : ℕ
  pub failed : ℕ

pub record Secret : Type 0 where
  pub labels : Labels
  pub immutable : Option Bool
  pub opaque : Bool
  pub data_keys : ℕ  -- len(secret.Data)
  pub download_url : List ℕ  -- secret.Data["download-url"]

pub record Setup : Type 0 where
  pub id : Text
  pub game_id : Text

pub record GameServer : Type 0 where
  pub deleting : Bool
  pub server_id : Text
  pub owner_user_id : Text
  pub selected_setup : Option Setup
  pub desired_stopped : Bool
  pub phase_stopped : Bool
  pub observed_generation : ℕ
  pub generation : ℕ
  pub last_observed_at : Option ℕ

pub record Progress : Type 0 where
  pub stage : Text
  pub percent : ℕ

-- What the progress reader answers for a pod.
pub data Latest : Type 0 where
  unreadable absent : Latest
  seen : Progress → Latest

pub record Container : Type 0 where
  pub name : Text
  pub terminated : Option Text  -- the termination message

pub record Pod : Type 0 where
  pub controller : Option ℕ
  pub latest : Latest
  pub containers : List Container

-- The fields of the SaveImport that the reconciler never writes.
pub record Identity : Type 0 where
  pub name : Text
  pub uid : ℕ
  pub deleting : Bool
  pub spec : Spec

-- The stored state: the import's status and finalizer, the Job of the import's name and the Secret that
-- its spec refers to. `faults` tells for each coming call of the API whether it fails with an error other
-- than NotFound, `true` if it does; behind its end no call fails.
pub record World : Type 0 where
  pub status : Status
  pub finalizer : Bool
  pub job : Option Job
  pub secret : Option Secret
  pub faults : List Bool

-- What is only read: the GameServer of the spec's id, the pods with the Job's label, the clock, the
-- importer's image, whether a progress reader is set, and whether games.Get finds a game that supports
-- save replacement.
pub record Surroundings : Type 0 where
  pub server : Option GameServer
  pub pods : List Pod
  pub now : ℕ
  pub importer_image : Text
  pub has_progress_reader : Bool
  pub replaceable : Text → Bool

-- The termination message of the importer, decoded.
pub record Termination : Type 0 where
  pub stage : Text
  pub archive_bytes : ℤ
  pub message : Text
  pub recovery : Text

pub data Reply {ℓ} (A : Type ℓ) : Type ℓ where
  done : A → Reply A
  fault : Reply A

-- A computation on the cluster that may end early with an error.
abbrev pub Action {ℓ} : (A : Type ℓ) → Type ℓ
Action A = World → World × Reply A

abbrev pub continue {ℓ κ} :
    {A : Type ℓ} {B : Type κ} → World × Reply A → (A → Action B) → World × Reply B
continue (w, done a) next = next a w
continue (w, fault) next = (w, fault)

infixl 5 ◌>>=◌ ◌>>◌
unfoldable pub ◌>>=◌ {ℓ κ} : {A : Type ℓ} {B : Type κ} → Action A → (A → Action B) → Action B
(m >>= next) w = continue (m w) next

abbrev pub ◌>>◌ {κ} : {B : Type κ} → Action (Unit {0}) → Action B → Action B
m >> next = m >>= λ _. next

abbrev pub pure {ℓ} : {A : Type ℓ} → A → Action A
pure a w = (w, done a)

-- One call of the API: it fails, or changes the stored state by `change` and answers `read` of it.
unfoldable pub call {ℓ} : {A : Type ℓ} → (World → World) → (World → A) → Action A
call change read w = elim w.faults [
  | [] ↦ (change w, done (read w))
  | true ∷ faults ↦ (record w { faults = faults }, fault)
  | false ∷ faults ↦ (change (record w { faults = faults }), done (read w))
]
