-- ===== src/Naming/Examples.antt =====
-- The names of a few GameServers, and the naming theorems at them.
use plexus_controller.Common.{
  Text, codes, byte_len, ℕ, ◌≤◌, ◌≡◌, ◌≢◌, refl, none, some, [], ◌∷◌, arith,
}
use plexus_controller.Naming.Slug.{dns1123_slug, customer_name_slug}
use plexus_controller.Naming.Slug.Canonical.{IsSlug}
use plexus_controller.Naming.Slug.Output.{dns1123_slug-IsSlug, byte_len-dns1123_slug}
use plexus_controller.Naming.Slug.FixedPoint.{dns1123_slug_idempotent}
use plexus_controller.Naming.Workload.{
  NameSource, ok, err, no_setup, workload_deployment_name, workload_deployment_lookup_names,
}
use plexus_controller.Naming.Workload.Total.{
  IsUnnamed, workload_deployment_name_total, workload_deployment_name_errors,
}
use plexus_controller.Naming.Revision.{runtime_config_map_name, runtime_secret_name, disk_job_name}
use plexus_controller.Naming.Revision.Bounded.{runtime_names_bound}
use plexus_controller.Naming.Revision.Distinct.{
  runtime_config_map_name_injective, runtime_secret_name_injective,
}

-- A table that leaves the letters beyond ASCII alone.
abbrev same_high : ℕ → ℕ
same_high c = c

abbrev alice : NameSource
alice = record {
  name = codes "srv-1";
  customer_slug = codes "Alice.Smith@example.org";
  owner_user_id = codes "USR_0042-abcdef";
  display_name = codes "  My  Server! ";
  game_id = some (codes "factorio");
}

abbrev nobody : NameSource
nobody = record alice { customer_slug = codes "@"; display_name = codes "***" }

abbrev unloaded : NameSource
unloaded = record alice { game_id = none }

name_tests :
    (workload_deployment_name same_high alice ≡ ok (codes "alice-smith-my-server-factorio"))
    × (workload_deployment_name same_high nobody ≡ ok (codes "uusr-0042-server-factorio"))
    × (workload_deployment_name same_high unloaded ≡ err no_setup)
    × (workload_deployment_lookup_names same_high alice
        ≡ codes "srv-1" ∷ codes "alice-smith-my-server-factorio" ∷ [])
    × (dns1123_slug same_high (codes "abcdefghijklmno--pq") 16 ≡ codes "abcdefghijklmno")
unfolding workload_deployment_name workload_deployment_lookup_names dns1123_slug customer_name_slug
name_tests = (refl, refl, refl, refl, refl)

-- A digest of eight characters.
abbrev fixed_digest : Text → Text
fixed_digest s = codes "0a1b2c3d"

long_name : Text
long_name = codes "a-server-with-a-rather-long-name-that-does-not-leave-room-enough"

revision_tests :
    (runtime_config_map_name fixed_digest (codes "srv-1") 12 ≡ some (codes "srv-1-config-g12"))
    × (runtime_secret_name fixed_digest (codes "srv.1") 3 7
        ≡ some (codes "srv-1-0a1b2c3d-runtime-g3-r7"))
    × (disk_job_name fixed_digest long_name
        ≡ some (codes "a-server-with-a-rather-long-name-that-does-not-le-0a1b2c3d-disk"))
unfolding runtime_config_map_name runtime_secret_name disk_job_name long_name
revision_tests = (refl, refl, refl)

dns1123_slug-IsSlug_example : IsSlug (dns1123_slug same_high (codes "-A_b..C-") 4)
dns1123_slug-IsSlug_example = dns1123_slug-IsSlug same_high (codes "-A_b..C-") 4

byte_len-dns1123_slug_example : byte_len (dns1123_slug same_high (codes "-A_b..C-") 4) ≤ 4
byte_len-dns1123_slug_example = byte_len-dns1123_slug same_high (codes "-A_b..C-") 4 (omega arith)

dns1123_slug_idempotent_example :
    dns1123_slug same_high (dns1123_slug same_high (codes "A  b") 16) 16
    ≡ dns1123_slug same_high (codes "A  b") 16
dns1123_slug_idempotent_example = dns1123_slug_idempotent same_high (codes "A  b") 16

workload_deployment_name_total_example :
    (name : Text) × (workload_deployment_name same_high alice ≡ ok name)
    × IsSlug name
    × (name ≢ [])
    × (byte_len name ≤ 50)
unfolding dns1123_slug
workload_deployment_name_total_example =
    workload_deployment_name_total same_high alice (codes "factorio") refl refl

workload_deployment_name_errors_example : IsUnnamed same_high unloaded no_setup
unfolding workload_deployment_name
workload_deployment_name_errors_example =
    workload_deployment_name_errors same_high unloaded {e = no_setup} refl

runtime_names_bound_example :
    ((n : Text) × (runtime_config_map_name fixed_digest (codes "srv.1") 12 ≡ some n)
      × (byte_len n ≤ 63))
    × ((n : Text) × (runtime_secret_name fixed_digest (codes "srv.1") 12 7 ≡ some n)
        × (byte_len n ≤ 63))
unfolding byte_len
runtime_names_bound_example =
    runtime_names_bound fixed_digest (codes "srv.1") 12 7 (omega arith) refl (omega arith)
      (omega arith)

runtime_config_map_name_injective_example : ◌≡◌ {A = ℕ} 12 12
unfolding runtime_config_map_name
runtime_config_map_name_injective_example =
    runtime_config_map_name_injective fixed_digest (codes "srv-1") (codes "srv-1") 12 12
      {n = codes "srv-1-config-g12"} refl refl

runtime_secret_name_injective_example : (◌≡◌ {A = ℕ} 3 3) × (◌≡◌ {A = ℕ} 7 7)
unfolding runtime_secret_name
runtime_secret_name_injective_example =
    runtime_secret_name_injective fixed_digest (codes "srv.1") (codes "srv.1") 3 3 7 7
      {n = codes "srv-1-0a1b2c3d-runtime-g3-r7"} refl refl
