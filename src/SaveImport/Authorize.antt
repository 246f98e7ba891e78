-- ===== src/SaveImport/Authorize.antt =====
-- internal/controller/saveimport_controller.go: authorize, importObservationFresh and the ownership of
-- the transfer's Secret.
use plexus_controller.Common.{
  Text, codes, text_eq, ℕ, ◌+◌, ◌*◌, Bool, false, ◌&&◌, not, Option, none, some, leb, ◌==◌,
  if◌then◌else◌, is_nil,
}
use plexus_controller.SaveImport.Cluster.{
  Spec, Labels, Secret, Setup, GameServer, Identity, Surroundings,
}

abbrev pub seconds : ℕ → ℕ
seconds n = n * 1000000000

unfoldable pub import_observation_fresh : ℕ → ℕ → Bool
import_observation_fresh now observed =
    leb observed (now + seconds 30) && leb now (observed + seconds 120)

abbrev pub setup_matches : Spec → Option Setup → Bool
setup_matches spec none = false
setup_matches spec (some setup) =
    text_eq setup.id spec.setup_id && text_eq setup.game_id spec.game_id

abbrev pub observed_fresh : ℕ → Option ℕ → Bool
observed_fresh now none = false
observed_fresh now (some observed) = import_observation_fresh now observed

unfoldable pub labels_match : Labels → Identity → Bool
labels_match labels import =
    text_eq labels.server_id import.spec.server_id
    && text_eq labels.owner_user_id import.spec.owner_user_id
    && text_eq labels.setup_id import.spec.setup_id
    && text_eq labels.game_id import.spec.game_id
    && text_eq labels.save_import_id import.name

unfoldable pub save_import_authorization_owned_by : Secret → Identity → Bool
save_import_authorization_owned_by secret import = labels_match secret.labels import

abbrev pub is_true : Option Bool → Bool
is_true none = false
is_true (some b) = b

unfoldable pub owned_server : Identity → GameServer → Bool
owned_server import server =
    text_eq server.server_id import.spec.server_id
    && text_eq server.owner_user_id import.spec.owner_user_id
    && setup_matches import.spec server.selected_setup

unfoldable pub confirmed_stopped : ℕ → GameServer → Bool
confirmed_stopped now server =
    server.desired_stopped
    && server.phase_stopped
    && server.observed_generation == server.generation
    && observed_fresh now server.last_observed_at

-- The checks up to the importer's image: the error, if there is one.
unfoldable pub server_refusal : Identity → Surroundings → Option GameServer → Option Text
server_refusal import env none = some (codes "owned server runtime was not found")
server_refusal import env (some server) =
    if server.deleting
    then some (codes "owned server runtime is being deleted")
    else if not (owned_server import server)
    then some (codes "server ownership or selected setup changed")
    else if not (confirmed_stopped env.now server)
    then some (codes "server is not freshly confirmed stopped")
    else if not (env.replaceable import.spec.game_id)
    then some (codes "selected game does not support save replacement")
    else if is_nil env.importer_image
    then some (codes "save importer image is not configured")
    else none

unfoldable pub usable_secret : Identity → Secret → Bool
usable_secret import secret =
    labels_match secret.labels import
    && is_true secret.immutable
    && secret.opaque
    && secret.data_keys == 1
    && not (is_nil secret.download_url)

unfoldable pub secret_refusal : Identity → Option Secret → Option Text
secret_refusal import none = some (codes "save replacement transfer authorization is unavailable")
secret_refusal import (some secret) =
    if usable_secret import secret
    then none
    else some
        (codes "save replacement transfer authorization has different ownership or invalid content")
