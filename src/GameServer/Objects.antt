-- ===== src/GameServer/Objects.antt =====
-- internal/controller/gameserver_controller.go, workload_name.go: reading and deleting the objects that
-- a GameServer controls.
-- Delete marks an object as deleted; the API server removes it later, when nothing holds it. In a
-- namespace a name belongs to one object.
use mathlib.Core.List.{map}
use plexus_controller.Common.{
  Text, codes, text_eq, ℕ, Bool, true, false, ◌&&◌, ◌||◌, not, Option, none, some, List, [], ◌∷◌,
  ◌++◌, if◌then◌else◌, is_nil,
}
use plexus_controller.GameServer.Types.{
  Meta, Deployment, ConfigMap, Secret, Pod, Self, Store, Error, api, not_controlled, no_uid,
  Surroundings,
}
use plexus_controller.Api.{Action, pure, fail, call, ◌>>=◌, ◌>>◌, when}
use plexus_controller.Naming.Workload.{NameSource, workload_deployment_lookup_names}

-- Labels that childLabels and selectorLabels set.
abbrev pub component : Text
component = codes "gameserver"

abbrev pub name_source : Self → NameSource
name_source self = record {
  name = self.name;
  customer_slug = self.spec.customer_slug;
  owner_user_id = self.spec.owner_user_id;
  display_name = self.spec.display_name;
  game_id = elim self.spec.selected_setup [ none ↦ none | some setup ↦ some setup.game_id ];
}

abbrev pub Run : Type 0 → Type 0
Run A = Action Store Error A

-- A write, and a read.
abbrev pub write : (Store → Store) → Run (Unit {0})
write change = call api change (λ s. tt)

abbrev pub get : {A : Type 0} → (Store → A) → Run A
get read = call api (λ s. s) read

unfoldable pub is_controlled : Self → Meta → Bool
is_controlled self meta = elim meta.controller [ none ↦ false | some uid ↦ text_eq uid self.uid ]

-- Marks what is not deleted yet.
abbrev pub marked : ℕ → Meta → Meta
marked now meta = record meta {
  deleted_at = elim meta.deleted_at [ none ↦ some now | some at ↦ some at ];
}

abbrev pub is_deleted : Meta → Bool
is_deleted meta = elim meta.deleted_at [ none ↦ false | some at ↦ true ]

-- What passes a test.
unfoldable pub select {ℓ} : {A : Type ℓ} → (A → Bool) → List A → List A
select keep [] = []
select keep (a ∷ rest) = let later = select keep rest in if keep a then a ∷ later else later

module _ {A : Type 0} (meta_of : A → Meta) where
  -- The object of a name.
  unfoldable pub find_named : Text → List A → Option A
  find_named name [] = none
  find_named name (a ∷ rest) =
      let later = find_named name rest in if text_eq (meta_of a).name name then some a else later

abbrev pub meta_of : Deployment → Meta
meta_of d = d.meta

abbrev pub mark_named : ℕ → Text → Deployment → Deployment
mark_named now name d =
    if text_eq d.meta.name name then record d { meta = marked now d.meta } else d

abbrev pub mark_config_map : ℕ → Text → ConfigMap → ConfigMap
mark_config_map now name d =
    if text_eq d.meta.name name then record d { meta = marked now d.meta } else d

abbrev pub mark_secret : ℕ → Text → Secret → Secret
mark_secret now name d =
    if text_eq d.meta.name name then record d { meta = marked now d.meta } else d

module _ (self : Self) (env : Surroundings) where
  abbrev pub on_owned : (Store → Store) → Option Meta → Run Bool
  on_owned mark none = pure false
  on_owned mark (some meta) =
      if is_controlled self meta
      then when (not (is_deleted meta)) (write mark) >>= (λ u. pure true)
      else fail not_controlled

  -- deleteOwnedObject: whether there is such an object. `read` is the metadata that Get answers, `none`
  -- being NotFound.
  unfoldable pub delete_owned_object : (Store → Option Meta) → (Store → Store) → Run Bool
  delete_owned_object read mark = get read >>= on_owned mark

  abbrev pub meta_named : Text → Store → Option Meta
  meta_named name s = elim (find_named meta_of name s.deployments) [
    | none ↦ none
    | some d ↦ some d.meta
  ]

  unfoldable pub delete_named : Text → Run Bool
  delete_named name =
      delete_owned_object (meta_named name)
        (λ s. record s { deployments = map (mark_named env.now name) s.deployments })

  -- The Deployments with the label of the GameServer's uid that it controls.
  unfoldable pub labelled : List Deployment → List Deployment
  labelled deployments =
      select (λ d. text_eq d.meta.server_uid self.uid && is_controlled self d.meta) deployments

  unfoldable pub mem_name : Text → List Deployment → Bool
  mem_name name [] = false
  mem_name name (d ∷ ds) = text_eq d.meta.name name || mem_name name ds

  abbrev pub add_found : Option Deployment → List Deployment → List Deployment
  add_found none owned = owned
  add_found (some d) owned = if is_controlled self d.meta then owned ++ d ∷ [] else owned

  -- The loop over the lookup names.
  unfoldable pub look_up : List Text → List Deployment → Run (List Deployment)
  look_up [] owned = pure owned
  look_up (name ∷ names) owned =
      if mem_name name owned
      then look_up names owned
      else (get (λ s. find_named meta_of name s.deployments)
          >>= (λ found. look_up names (add_found found owned)))

  unfoldable pub owned_workload_deployments : Run (List Deployment)
  owned_workload_deployments = do
    listed ← get (λ s. s.deployments)
    look_up (workload_deployment_lookup_names env.lower_high (name_source self)) (labelled listed)

  -- `remaining = remaining || exists` over a list of objects
  unfoldable pub delete_all : List Text → Bool → Run Bool
  delete_all [] remaining = pure remaining
  delete_all (name ∷ names) remaining = do
    exists ← delete_named name
    delete_all names (remaining || exists)

  unfoldable pub names_of : List Deployment → List Text
  names_of deployments = map (λ d. d.meta.name) deployments

  abbrev pub is_force_target : Pod → Bool
  is_force_target pod =
      text_eq pod.server_id self.spec.server_id
      && text_eq pod.component component
      && text_eq pod.server_uid self.uid

  abbrev pub pod_gone : Text → Store → Store
  pod_gone name s = record s { pods = select (λ pod. not (text_eq pod.name name)) s.pods }

  unfoldable pub delete_pods : List Pod → Run (Unit {0})
  delete_pods [] = pure tt
  delete_pods (pod ∷ pods) = do write (pod_gone pod.name); delete_pods pods

  -- Pods are deleted without grace, so they are gone.
  unfoldable pub force_delete_pods : Run Bool
  force_delete_pods =
      if not self.spec.force
      then pure false
      else if is_nil self.uid
      then fail no_uid
      else (get (λ s. select is_force_target s.pods)
          >>= (λ pods. delete_pods pods >>= (λ u. pure (not (is_nil pods)))))

  unfoldable pub delete_deployment : Run Bool
  delete_deployment = do
    owned ← owned_workload_deployments
    remaining ← delete_all (names_of owned) false
    pods ← force_delete_pods
    pure (remaining || pods)
