-- ===== src/SaveImport/Authorized.antt =====
-- internal/controller/saveimport_controller.go: what authorize makes sure of.
use plexus_controller.Common.{
  text_eq, text_eq_iff, ℕ, ◌+◌, ◌≤◌, ◌≡◌, refl, Bool, true, false, Option, none, some, arith,
}
use plexus_controller.SaveImport.Cluster.{Labels, Secret, Setup, GameServer, Identity, Surroundings}
use plexus_controller.SaveImport.Authorize.{
  server_refusal, secret_refusal, seconds, import_observation_fresh, setup_matches, observed_fresh,
  labels_match, owned_server, confirmed_stopped, usable_secret, is_true,
}

-- What a running importer relies on: the server is the owner's, with the selected setup, and was seen
-- stopped at most two minutes ago; the Secret was made for this import and cannot change.
pub record Authorized (import : Identity) (env : Surroundings) (held : Option Secret) : Type 0 where
  pub server : GameServer
  pub setup : Setup
  pub secret : Secret
  pub observed : ℕ
  pub found : env.server ≡ some server
  pub live : server.deleting ≡ false
  pub owner :
      (server.server_id ≡ import.spec.server_id)
      × (server.owner_user_id ≡ import.spec.owner_user_id)
  pub selected :
      (server.selected_setup ≡ some setup)
      × (setup.id ≡ import.spec.setup_id)
      × (setup.game_id ≡ import.spec.game_id)
  pub stopped :
      (server.desired_stopped ≡ true)
      × (server.phase_stopped ≡ true)
      × (server.observed_generation ≡ server.generation)
  pub fresh :
      (server.last_observed_at ≡ some observed)
      × (observed ≤ env.now + seconds 30)
      × (env.now ≤ observed + seconds 120)
  pub supported : env.replaceable import.spec.game_id ≡ true
  pub stored : held ≡ some secret
  pub addressed :
      (secret.labels.server_id ≡ import.spec.server_id)
      × (secret.labels.owner_user_id ≡ import.spec.owner_user_id)
      × (secret.labels.save_import_id ≡ import.name)
  pub fixed : (secret.immutable ≡ some true) × (secret.data_keys ≡ 1)

module _ (import : Identity) (env : Surroundings) where
  server_refusal-passed :
      (server : Option GameServer)
      → server_refusal import env server ≡ none
      → (s : GameServer) × (server ≡ some s)
        × (s.deleting ≡ false)
        × (owned_server import s ≡ true)
        × (confirmed_stopped env.now s ≡ true)
        × (env.replaceable import.spec.game_id ≡ true)
  unfolding server_refusal
  server_refusal-passed none h = cc
  server_refusal-passed (some s) h =
      (s, refl, ground arith, ground arith, ground arith, ground arith)

  secret_refusal-passed :
      (secret : Option Secret)
      → secret_refusal import secret ≡ none
      → (s : Secret) × (secret ≡ some s) × (usable_secret import s ≡ true)
  unfolding secret_refusal
  secret_refusal-passed none h = cc
  secret_refusal-passed (some s) h = (s, refl, ground arith)

  observed_fresh-passed :
      (observed : Option ℕ)
      → observed_fresh env.now observed ≡ true
      → (o : ℕ) × (observed ≡ some o) × (o ≤ env.now + seconds 30) × (env.now ≤ o + seconds 120)
  unfolding import_observation_fresh
  observed_fresh-passed none h = cc
  observed_fresh-passed (some o) h = (o, refl, ground arith, ground arith)

  setup_matches-passed :
      (setup : Option Setup)
      → setup_matches import.spec setup ≡ true
      → (s : Setup) × (setup ≡ some s)
        × (s.id ≡ import.spec.setup_id)
        × (s.game_id ≡ import.spec.game_id)
  setup_matches-passed none h = cc
  setup_matches-passed (some s) h =
      (s, refl, (text_eq_iff _ _).0 (ground arith), (text_eq_iff _ _).0 (ground arith))

  is_true-passed : (b : Option Bool) → is_true b ≡ true → b ≡ some true
  is_true-passed none h = cc
  is_true-passed (some b) h = cc

  owned_server-passed :
      (s : GameServer)
      → owned_server import s ≡ true
      → (text_eq s.server_id import.spec.server_id ≡ true)
        × (text_eq s.owner_user_id import.spec.owner_user_id ≡ true)
        × (setup_matches import.spec s.selected_setup ≡ true)
  unfolding owned_server
  owned_server-passed s h = (ground arith, ground arith, ground arith)

  confirmed_stopped-passed :
      (s : GameServer)
      → confirmed_stopped env.now s ≡ true
      → (s.desired_stopped ≡ true)
        × (s.phase_stopped ≡ true)
        × (s.observed_generation ≡ s.generation)
        × (observed_fresh env.now s.last_observed_at ≡ true)
  unfolding confirmed_stopped
  confirmed_stopped-passed s h = (ground arith, ground arith, ground arith, ground arith)

  usable_secret-passed :
      (s : Secret)
      → usable_secret import s ≡ true
      → (labels_match s.labels import ≡ true) × (is_true s.immutable ≡ true) × (s.data_keys ≡ 1)
  unfolding usable_secret
  usable_secret-passed s h = (ground arith, ground arith, ground arith)

  labels_match-passed :
      (labels : Labels)
      → labels_match labels import ≡ true
      → (text_eq labels.server_id import.spec.server_id ≡ true)
        × (text_eq labels.owner_user_id import.spec.owner_user_id ≡ true)
        × (text_eq labels.save_import_id import.name ≡ true)
  unfolding labels_match
  labels_match-passed labels h = (ground arith, ground arith, ground arith)

  pub Authorized-of_passed :
      (held : Option Secret)
      → server_refusal import env env.server ≡ none
      → secret_refusal import held ≡ none
      → Authorized import env held
  Authorized-of_passed held h k =
      let (server, found, live, owned, stopped, supported) = server_refusal-passed env.server h in
      let (secret, stored, usable) = secret_refusal-passed held k in
      let (same_server, same_owner, matches) = owned_server-passed server owned in
      let (setup, chosen, same_id, same_game) =
        setup_matches-passed server.selected_setup matches in
      let (power, phase, generation, seen) = confirmed_stopped-passed server stopped in
      let (observed, seen_at, not_later, recent) =
        observed_fresh-passed server.last_observed_at seen in
      let (labels, immutable, one_key) = usable_secret-passed secret usable in
      let (for_server, for_owner, for_import) = labels_match-passed secret.labels labels in
      record {
        server = server;
        setup = setup;
        secret = secret;
        observed = observed;
        found = found;
        live = live;
        owner = ((text_eq_iff _ _).0 same_server, (text_eq_iff _ _).0 same_owner);
        selected = (chosen, same_id, same_game);
        stopped = (power, phase, generation);
        fresh = (seen_at, not_later, recent);
        supported = supported;
        stored = stored;
        addressed = (
          (text_eq_iff _ _).0 for_server,
          (text_eq_iff _ _).0 for_owner,
          (text_eq_iff _ _).0 for_import,
        );
        fixed = (is_true-passed secret.immutable immutable, one_key);
      }
