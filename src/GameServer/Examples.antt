-- ===== src/GameServer/Examples.antt =====
-- A GameServer in a small cluster, and the theorems about its reconciler there.
use plexus_controller.Common.{
  Text, codes, text_eq, ◌≡◌, refl, Bool, true, false, none, some, List, [], ◌∷◌, All,
}
use plexus_controller.GameServer.Types.{
  Power, running, stopped, Phase, Setup, Status, Deployment, Transfer, Definition, Self, Store,
  Surroundings, ConfigMap,
}
use plexus_controller.Api.{Cluster, pure, gets, call, ◌>>=◌}
use plexus_controller.GameServer.Objects.{
  find_named, meta_of, select, is_controlled, delete_owned_object, labelled, look_up,
  owned_workload_deployments, delete_all, names_of,
}
use plexus_controller.GameServer.Shutdown.{
  delete_owned, delete_singletons, delete_config_maps, delete_secrets, delete_owned_runtime_inputs,
  reconcile_delete,
}
use plexus_controller.GameServer.Reconcile.{reconcile}
use plexus_controller.GameServer.Absent.{NoWorkload, lookup_names, is_free}
use plexus_controller.GameServer.Honest.{IsHonest, reconcile-IsHonest}
use plexus_controller.GameServer.Held.{holds_disk, reconcile-held}
use plexus_controller.GameServer.Released.{Released}
use plexus_controller.GameServer.Finalized.{reconcile-finalizer}
use plexus_controller.GameServer.Objects.{mem_name}
use plexus_controller.Naming.Workload.{workload_deployment_lookup_names}
use plexus_controller.Naming.Slug.{dns1123_slug, customer_name_slug}
use plexus_controller.GameServer.Disk.{save_import_holds_claim}
use plexus_controller.GameServer.Stable.{is_stopped_phase}
use plexus_controller.SaveImport.Cluster.{
  Surroundings as ImportSurroundings, ◌>>=◌ as ◌>>>=◌, call as import_call,
}
use plexus_controller.SaveImport.Examples.{
  import, env as import_env, identity, opaque_message, fresh,
}
use plexus_controller.SaveImport.Authorize.{
  import_observation_fresh, labels_match, save_import_authorization_owned_by, owned_server,
  confirmed_stopped, server_refusal, usable_secret, secret_refusal,
}
use plexus_controller.SaveImport.Operations.{is_controlled_by, cleanup, finish, job_for}
use plexus_controller.SaveImport.Reconcile.{
  authorize, with_job, create_job, advance, settle, reconcile_deleted, reconcile_live,
  reconcile as reconcile_import,
}
use plexus_controller.GameServer.Seen.{server_of, import_job-NoWorkload}

run : Unit {0}
unfolding ◌>>>=◌ import_call text_eq import_observation_fresh labels_match
    save_import_authorization_owned_by owned_server confirmed_stopped server_refusal usable_secret
    secret_refusal is_controlled_by cleanup finish job_for authorize with_job create_job advance
    settle reconcile_deleted reconcile_live reconcile_import server_of is_stopped_phase
run = tt

abbrev setup : Setup
setup = record {
  id = codes "u";
  game_id = codes "g";
  schema_version = codes "1";
  values = [];
  secret_ref = codes "k";
  mods = [];
}

-- A server that is wanted stopped.
abbrev server : Power → Bool → Self
server power deleting = record {
  name = codes "n";
  uid = codes "7";
  generation = 3;
  deleting = deleting;
  spec = record {
    server_id = codes "s";
    owner_user_id = codes "o";
    customer_slug = codes "c";
    display_name = codes "d";
    desired_power = power;
    selected_setup = some setup;
    restart_generation = 0;
    force = false;
  };
}

abbrev game : Definition
game = record {
  id = codes "g";
  container_name = codes "g";
  management_schema_version = codes "1";
  supports_mods = true;
  workshop_startup = false;
  supervisor = true;
  strategy = [];
  command = [];
  timeout_seconds = 30;
  ports = 34197 ∷ [];
  gibibytes = 10;
}

abbrev env : List Transfer → Surroundings
env imports = record {
  now = 600;
  lower_high = λ c. c;
  game = λ id. some game;
  imports = imports;
  exports = [];
  replica_sets = [];
  set_condition = λ conditions condition. condition ∷ conditions;
  find_condition = λ conditions kind. none;
  same_status = λ a b. false;
  digest_hex = λ t. codes "0123456789abcdef0123456789abcdef0123456789abcdef0123456789abcdef";
  fingerprint = λ mods. codes "f";
  secret_schema = λ id. some (codes "1");
  runtime_secret = λ id payload. some (some payload);
  normalize = λ id values. some values;
  render = λ id values. some values;
  environment_ok = λ id values. true;
  release_ok = λ spec. true;
  archive_ok = λ spec payload. true;
  workshop_ok = λ spec. true;
  deployment_uid = codes "9";
}

abbrev first_status : Phase → Status
first_status phase = record {
  phase = phase;
  active_setup_id = [];
  observed_generation = 3;
  observed_restart_generation = 0;
  observed_configuration_generation = 0;
  observed_secret_revision = 0;
  installed_mods = [];
  installed_mods_generation = 0;
  endpoint = [];
  conditions = [];
  last_observed_at = some 590;
}

-- The workload of the server.
abbrev workload : Deployment
workload = record {
  meta = record {
    name = codes "n";
    controller = some (codes "7");
    server_uid = codes "7";
    deleted_at = none;
  };
  uid = codes "9";
  generation = 1;
  observed_generation = 1;
  desired = some 1;
  replicas = 1;
  updated = 1;
  available = 1;
  conditions = [];
  revision = record { restart_generation = 0; configuration_generation = 3; secret_revision = 1 };
}

-- Its ConfigMap is another owner's.
abbrev foreign : ConfigMap
foreign = record {
  meta = record {
    name = codes "m";
    controller = some (codes "8");
    server_uid = [];
    deleted_at = none;
  };
  immutable = none;
  files = [];
}

abbrev store : Phase → List Deployment → Store
store phase deployments = record {
  status = first_status phase;
  labels = record {
    server_id = some (codes "s");
    owner_user_id = some (codes "o");
    game_id = some (codes "g");
  };
  finalizer = true;
  deployments = deployments;
  service = none;
  claim = none;
  job = none;
  config_maps = foreign ∷ [];
  secrets = [];
  pods = [];
}

abbrev cluster : Phase → List Deployment → Cluster Store
cluster phase deployments = record { store = store phase deployments; faults = [] }

-- Without Deployments there is no workload.
free_in_nil :
    (self : Self) (imports : List Transfer) (names : List Text)
    → All (λ name. is_free self (env imports) (find_named meta_of name []) ≡ true) names
unfolding find_named
free_in_nil self imports [] = tt
free_in_nil self imports (name ∷ names) = (refl, free_in_nil self imports names)

nil-NoWorkload : (self : Self) (imports : List Transfer) → NoWorkload self (env imports) []
nil-NoWorkload self imports = record {
  unlabelled = tt;
  unnamed = free_in_nil self imports (lookup_names self (env imports));
}

-- While the workload runs, the status does not claim a stop.
running-IsHonest : IsHonest (server stopped false) (env []) (first_status running) (workload ∷ [])
unfolding IsHonest is_stopped_phase
running-IsHonest e f = cc

reconcile-IsHonest_example :
    IsHonest
      (server stopped false)
      (env [])
      (reconcile (server stopped false) (env []) (cluster running (workload ∷ []))).0.store.status
      (reconcile
        (server stopped false)
        (env [])
        (cluster running (workload ∷ []))).0.store.deployments
reconcile-IsHonest_example =
    reconcile-IsHonest (server stopped false) (env []) (cluster running (workload ∷ []))
      running-IsHonest

-- An import of the server that is under way.
abbrev held : List Transfer
held = record { server_id = codes "s"; phase = running } ∷ []

holds : holds_disk (server running false) (env held) ≡ true
unfolding save_import_holds_claim text_eq
holds = refl

reconcile-held_example :
    NoWorkload
      (server running false)
      (env held)
      (reconcile (server running false) (env held) (cluster stopped [])).0.store.deployments
reconcile-held_example =
    reconcile-held (server running false) (env held) (cluster stopped []) holds
      (nil-NoWorkload (server running false) held)

-- The status claims a stop, and there is no workload.
stopped-IsHonest : IsHonest (server stopped false) (env []) (first_status stopped) []
unfolding IsHonest
stopped-IsHonest e f = (refl, nil-NoWorkload (server stopped false) [])

abbrev seen_env : ImportSurroundings
seen_env = record import_env { server = some (server_of (server stopped false) (store stopped [])) }

import_job-NoWorkload_example : NoWorkload (server stopped false) (env []) []
unfolding run
import_job-NoWorkload_example =
    import_job-NoWorkload (server stopped false) (env []) (store stopped []) import seen_env
      identity opaque_message 1 fresh (job_for import 600000000000 1) refl stopped-IsHonest refl
      refl

removed : (reconcile (server stopped true) (env []) (cluster stopped [])).0.store.finalizer ≡ false
unfolding reconcile reconcile_delete delete_owned gets ◌>>=◌ owned_workload_deployments call look_up
    delete_all workload_deployment_lookup_names dns1123_slug customer_name_slug mem_name labelled
    select find_named pure names_of delete_singletons delete_owned_object
    delete_owned_runtime_inputs delete_config_maps is_controlled delete_secrets
removed = refl

reconcile-finalizer_example :
    Released
      (server stopped true)
      (env [])
      (reconcile (server stopped true) (env []) (cluster stopped [])).0.store
reconcile-finalizer_example =
    reconcile-finalizer (server stopped true) (env []) (cluster stopped []) refl refl removed
