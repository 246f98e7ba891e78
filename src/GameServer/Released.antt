-- ===== src/GameServer/Released.antt =====
-- internal/controller/gameserver_controller.go: what deleteOwned leaves, when it finds nothing more.
use plexus_controller.Common.{
  Text, text_eq_self, ◌≡◌, refl, ◌≢◌, ◌⊎◌, inl, inr, Bool, false, not, Option, none, List, [], ◌∷◌,
  arith, All, All-imp,
}
use plexus_controller.GameServer.Types.{Meta, ConfigMap, Secret, Self, Store, Surroundings}
use plexus_controller.GameServer.Objects.{
  is_controlled, find_named, meta_of, delete_owned_object, owned_workload_deployments, delete_all,
  names_of,
}
use plexus_controller.GameServer.Absent.{NoWorkload, Present}
use plexus_controller.GameServer.Inputs.{secret_meta, config_map_meta}
use plexus_controller.GameServer.Workload.{service_meta}
use plexus_controller.GameServer.Shutdown.{
  claim_meta, job_meta, delete_singletons, config_map_named, secret_named, delete_config_maps,
  delete_secrets, delete_owned_runtime_inputs, delete_owned,
}
use plexus_controller.GameServer.Absent.{delete_owned_object-false}
use plexus_controller.GameServer.Gone.{owned-store, owned-Ensures, delete_all-false, owned_gone}
use plexus_controller.Api.Tells.{
  Asks, Tells, Asks-call, Tells-pure, Tells-ask, Tells-bind, Tells-if,
}

-- What is in a list is found there under its name.
module _ {A : Type 0} (meta : A → Meta) where
  found_later :
      (x y : A) (xs : List A)
      → find_named meta (meta y).name xs ≢ none
      → find_named meta (meta y).name (x ∷ xs) ≢ none
  unfolding find_named
  found_later x y xs p h = p (ground arith)

  pub find_named-All : (xs : List A) → All (λ x. find_named meta (meta x).name xs ≢ none) xs
  unfolding find_named
  find_named-All [] = tt
  find_named-All (x ∷ xs) = (
    (λ h. ground (arith, text_eq_self (meta x).name)),
    All-imp (λ y. find_named meta (meta y).name xs ≢ none)
        (λ y. find_named meta (meta y).name (x ∷ xs) ≢ none) xs (λ y. found_later x y xs)
        (find_named-All xs),
  )

  -- Where nothing controlled is found, nothing is controlled.
  pub none_controlled :
      (controlled : A → Bool) (whole xs : List A)
      → All (λ x. find_named meta (meta x).name whole ≢ none) xs
      → All (λ x. (controlled x ≡ false) ⊎ (find_named meta (meta x).name whole ≡ none)) xs
      → All (λ x. controlled x ≡ false) xs
  none_controlled controlled whole [] p h = tt
  none_controlled controlled whole (x ∷ xs) (p, ps) (h, hs) =
      (elim h [ inl e ↦ e | inr e ↦ absurd (p e) ], none_controlled controlled whole xs ps hs)

module _ (self : Self) (env : Surroundings) where
  -- Nothing is left that the GameServer owns.
  pub record Released (s : Store) : Type 0 where
    pub workload : NoWorkload self env s.deployments
    pub service : s.service ≡ none
    pub job : s.job ≡ none
    pub claim : s.claim ≡ none
    pub config_maps : All (λ m. is_controlled self m.meta ≡ false) s.config_maps
    pub secrets : All (λ m. is_controlled self m.meta ≡ false) s.secrets

  Tells-delete_owned_object :
      (read : Store → Option Meta) (mark : Store → Store)
      → Tells false (delete_owned_object self env read mark) (λ s. read s ≡ none)
  Tells-delete_owned_object read mark = record {
    of = λ c h. delete_owned_object-false self env read mark c h;
  }

  absent_service : (s : Store) → service_meta self env s ≡ none → s.service ≡ none
  absent_service s h = ground arith

  absent_job : (s : Store) → job_meta self env s ≡ none → s.job ≡ none
  absent_job s h = ground arith

  absent_claim : (s : Store) → claim_meta self env s ≡ none → s.claim ≡ none
  absent_claim s h = ground arith

  Tells-delete_singletons :
      Tells false
        (delete_singletons self env)
        (λ s. (s.service ≡ none) × (s.job ≡ none) × (s.claim ≡ none))
  unfolding delete_singletons
  Tells-delete_singletons =
      Tells-bind false (λ s. service_meta self env s ≡ none) _ _ (Tells-delete_owned_object _ _)
        (λ service.
          Tells-bind false (λ s. job_meta self env s ≡ none) _ _ (Tells-delete_owned_object _ _)
            (λ job.
              Tells-bind false (λ s. claim_meta self env s ≡ none) _ _
                (Tells-delete_owned_object _ _)
                (λ claim. Tells-pure _ (λ s none_left. (
                  ground arith,
                  λ c. (
                    ground arith,
                    λ b.
                        (ground arith, λ a. (absent_service s a, absent_job s b, absent_claim s c)),
                  ),
                )))))

  abbrev MapGone : Store → ConfigMap → Type 0
  MapGone s m =
      (is_controlled self m.meta ≡ false)
      ⊎ (find_named config_map_meta m.meta.name s.config_maps ≡ none)

  map_gone :
      (s : Store) (m : ConfigMap) → config_map_named self env m.meta.name s ≡ none → MapGone s m
  map_gone s m h = inr (ground arith)

  Tells-delete_config_maps :
      (maps : List ConfigMap)
      → Tells false (delete_config_maps self env maps) (λ s. All (MapGone s) maps)
  unfolding delete_config_maps
  Tells-delete_config_maps [] = Tells-pure _ (λ s h. tt)
  Tells-delete_config_maps (m ∷ maps) =
      Tells-if (not (is_controlled self m.meta)) _ _
        (λ e. record {
          of = λ c h.
              let (rest, same) = (Tells-delete_config_maps maps).of c h in
              ((inl (ground arith), rest), same);
        })
        (λ e.
          Tells-bind false (λ s. config_map_named self env m.meta.name s ≡ none) _ _
            (Tells-delete_owned_object _ _)
            (λ exists.
              Tells-bind false (λ s. All (MapGone s) maps) _ _ (Tells-delete_config_maps maps)
                (λ remaining. Tells-pure _ (λ s none_left.
                  (ground arith, λ rest. (ground arith, λ gone. (map_gone s m gone, rest)))))))

  abbrev SecretGone : Store → Secret → Type 0
  SecretGone s m =
      (is_controlled self m.meta ≡ false) ⊎ (find_named secret_meta m.meta.name s.secrets ≡ none)

  secret_gone :
      (s : Store) (m : Secret) → secret_named self env m.meta.name s ≡ none → SecretGone s m
  secret_gone s m h = inr (ground arith)

  Tells-delete_secrets :
      (secrets : List Secret)
      → Tells false (delete_secrets self env secrets) (λ s. All (SecretGone s) secrets)
  unfolding delete_secrets
  Tells-delete_secrets [] = Tells-pure _ (λ s h. tt)
  Tells-delete_secrets (m ∷ secrets) =
      Tells-if (not (is_controlled self m.meta)) _ _
        (λ e. record {
          of = λ c h.
              let (rest, same) = (Tells-delete_secrets secrets).of c h in
              ((inl (ground arith), rest), same);
        })
        (λ e.
          Tells-bind false (λ s. secret_named self env m.meta.name s ≡ none) _ _
            (Tells-delete_owned_object _ _)
            (λ exists.
              Tells-bind false (λ s. All (SecretGone s) secrets) _ _ (Tells-delete_secrets secrets)
                (λ remaining. Tells-pure _ (λ s none_left.
                  (ground arith, λ rest. (ground arith, λ gone. (secret_gone s m gone, rest)))))))

  abbrev InputsGone : Store → Type 0
  InputsGone s =
      All (λ m. is_controlled self m.meta ≡ false) s.config_maps
      × All (λ m. is_controlled self m.meta ≡ false) s.secrets

  Tells-delete_owned_runtime_inputs : Tells false (delete_owned_runtime_inputs self env) InputsGone
  unfolding delete_owned_runtime_inputs
  Tells-delete_owned_runtime_inputs =
      Tells-ask (λ maps s. maps ≡ s.config_maps) _ _ (Asks-call _ _)
        (λ maps.
          Tells-bind false (λ s. All (MapGone s) maps) _ _ (Tells-delete_config_maps maps)
            (λ maps_left.
              Tells-ask (λ secrets s. secrets ≡ s.secrets) _ _ (Asks-call _ _)
                (λ secrets.
                  Tells-bind false (λ s. All (SecretGone s) secrets) _ _
                    (Tells-delete_secrets secrets)
                    (λ secrets_left. Tells-pure _ (λ s none_left. (
                      ground arith,
                      λ secrets_gone. λ same_secrets. (
                        ground arith,
                        λ maps_gone. λ same_maps. (
                          none_controlled config_map_meta (λ m. is_controlled self m.meta)
                              s.config_maps s.config_maps
                              (find_named-All config_map_meta s.config_maps)
                              (rw same_maps at maps_gone),
                          none_controlled secret_meta (λ m. is_controlled self m.meta) s.secrets
                              s.secrets (find_named-All secret_meta s.secrets)
                              (rw same_secrets at secrets_gone),
                        ),
                      ),
                    ))))))

  -- The Deployments that were looked up are still there, if any.
  Asks-owned : Asks (owned_workload_deployments self env) (λ owned s.
      All (Present self env s.deployments) owned × (owned ≡ [] → NoWorkload self env s.deployments))
  Asks-owned = record {
    of = λ c owned h.
        let same = (owned-store self env c.store).at c refl in
        (rw same at ((owned-Ensures self env).of c tt owned h), same);
  }

  Tells-delete_all :
      (names : List Text)
      → Tells false
          (delete_all self env names false)
          (λ s. All (λ name. find_named meta_of name s.deployments ≡ none) names)
  Tells-delete_all names = record {
    of = λ c h. let (_, free, same) = delete_all-false self env names false c h in (free, same);
  }

  pub Tells-delete_owned : Tells false (delete_owned self env) Released
  unfolding delete_owned
  Tells-delete_owned = Tells-ask _ _ _ Asks-owned (λ owned.
      Tells-bind false _ _ _ (Tells-delete_all (names_of self env owned)) (λ deployments.
        Tells-bind false _ _ _ Tells-delete_singletons (λ singletons.
          Tells-bind false _ _ _ Tells-delete_owned_runtime_inputs (λ inputs.
            Tells-pure _ (λ s none_left. (
              ground arith,
              λ (maps, secrets). (
                ground arith,
                λ (service, job, claim). (
                  ground arith,
                  λ free. λ (present, empty). record {
                    workload = empty (owned_gone self env s.deployments owned present free);
                    service = service;
                    job = job;
                    claim = claim;
                    config_maps = maps;
                    secrets = secrets;
                  },
                ),
              ),
            ))))))
