-- ===== src/Naming/Workload.antt =====
-- internal/controller/workload_name.go: workloadDeploymentName, the Deployment's name
-- <customer>-<server>-<game>, and workloadDeploymentLookupNames.
pub mod Valid
pub mod Total
use plexus_controller.Common.{
  Text, codes, text_eq, byte_len, is_nil, ℕ, Bool, Option, none, some, List, [], ◌∷◌, ◌++◌, ltb,
  if◌then◌else◌, not, ◌&&◌,
}
use plexus_controller.Naming.Slug.{
  workload_name_slug_max, workload_name_max, dns1123_slug, customer_name_slug,
}

-- The fields of a GameServer that its workload's name is made of.
pub record NameSource : Type 0 where
  pub name : Text
  pub customer_slug : Text
  pub owner_user_id : Text
  pub display_name : Text
  pub game_id : Option Text  -- of the selected setup, if there is one

-- The error returns of workloadDeploymentName, in the order of the code.
pub data NameError : Type 0 where
  no_setup game_not_dns customer_empty too_long : NameError

pub data NameResult : Type 0 where
  ok : Text → NameResult
  err : NameError → NameResult

abbrev pub server_or : Text → Text
server_or server = if is_nil server then codes "server" else server

-- customer + "-" + server + "-" + game
abbrev pub join_name : Text → Text → Text → Text
join_name customer server game = customer ++ b'-' ∷ (server ++ b'-' ∷ game)

abbrev check_length : Text → NameResult
check_length name = if ltb workload_name_max (byte_len name) then err too_long else ok name

module _ (lower_high : ℕ → ℕ) where
  abbrev workload_name_of : Text → Text → Text → NameResult
  workload_name_of game customer server =
      if is_nil game
      then err game_not_dns
      else if is_nil customer
      then err customer_empty
      else check_length (join_name customer (server_or server) game)

  abbrev workload_name_for : NameSource → Option Text → NameResult
  workload_name_for source none = err no_setup
  workload_name_for source (some game_id) =
      workload_name_of (dns1123_slug lower_high game_id workload_name_slug_max)
        (customer_name_slug lower_high source.customer_slug source.owner_user_id)
        (dns1123_slug lower_high source.display_name workload_name_slug_max)

  unfoldable pub workload_deployment_name : NameSource → NameResult
  workload_deployment_name source = workload_name_for source source.game_id

  abbrev lookup_names : Text → NameResult → List Text
  lookup_names own (ok name) = if not (text_eq name own) then own ∷ name ∷ [] else own ∷ []
  lookup_names own (err e) = own ∷ []

  unfoldable pub workload_deployment_lookup_names : NameSource → List Text
  unfolding workload_deployment_name text_eq
  workload_deployment_lookup_names source =
      lookup_names source.name (workload_deployment_name source)
