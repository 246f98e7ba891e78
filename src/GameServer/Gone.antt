-- ===== src/GameServer/Gone.antt =====
-- internal/controller/workload_name.go, gameserver_controller.go: ownedWorkloadDeployments and
-- deleteDeployment, when they find nothing.
use plexus_controller.Common.{
  Text, text_eq, text_eq_iff, ◌≡◌, refl, sym, ap, ◌∙◌, inl, inr, Bool, true, false, ◌||◌, Option,
  none, some, List, [], ◌∷◌, arith, Bool-cases, Option-cases, All, All-append,
}
use plexus_controller.GameServer.Types.{Deployment, Pod, Self, Store, api, Surroundings}
use plexus_controller.Api.{Cluster, done, pure}
use plexus_controller.GameServer.Objects.{
  is_controlled, find_named, meta_of, delete_named, owned_workload_deployments, delete_all,
  names_of, force_delete_pods, delete_deployment,
}
use plexus_controller.GameServer.Objects.{labelled, look_up, add_found, mem_name, delete_pods}
use plexus_controller.Api.Ensures.{Ensures, Ensures-pure, Ensures-bind, Ensures-of_keeps}
use plexus_controller.Api.Keeps.{Keeps, keeps_rules, >>=-done, get-done}
use plexus_controller.GameServer.Absent.{
  is_free, NoWorkload, delete_owned_object-false, Present, All-Present, select-Present, select_nil,
}

module _ (self : Self) (env : Surroundings) where
  -- Reads leave the store alone.
  look_up-store :
      (names : List Text) (owned : List Deployment) (s : Store)
      → Keeps (λ t. t ≡ s) (look_up self env names owned)
  unfolding look_up
  look_up-store [] owned s = search keeps_rules
  look_up-store (name ∷ names) owned s =
      let ih = λ (o : List Deployment). look_up-store names o s in search (keeps_rules, ih)

  added_nil :
      (found : Option Deployment) (owned : List Deployment)
      → add_found self env found owned ≡ []
      → (owned ≡ []) × (is_free self env found ≡ true)
  added_nil none owned h = (h, refl)
  added_nil (some d) [] h = (refl, ground arith)
  added_nil (some d) (x ∷ owned) h = ground arith

  -- Nothing is found under the names, if nothing comes back.
  look_up_nil :
      (names : List Text) (owned : List Deployment) (c : Cluster Store)
      → (look_up self env names owned c).1 ≡ done []
      → (owned ≡ [])
        × All (λ name. is_free self env (find_named meta_of name c.store.deployments) ≡ true) names
  unfolding look_up pure mem_name
  look_up_nil [] owned c h = (cc, tt)
  look_up_nil (name ∷ names) owned c h = elim (Bool-cases (mem_name self env name owned)) [
    | inl e ↦ let (empty, rest) = look_up_nil names owned c (rw e at h) in cc
    | inr e ↦
        let (d, same, rest) =
          get-done api (λ s. find_named meta_of name s.deployments) _ c (rw e at h) in
        let (added, free) = look_up_nil names _ d (ap (λ r. r.1) (sym rest) ∙ (rw e at h)) in
        let (empty, here) = added_nil (find_named meta_of name c.store.deployments) owned added in
        (empty, (here, rw same at free))
  ]

  find_named-name :
      (name : Text) (ds : List Deployment) (d : Deployment)
      → find_named meta_of name ds ≡ some d
      → d.meta.name ≡ name
  unfolding find_named
  find_named-name name [] d h = cc
  find_named-name name (x ∷ ds) d h = elim (Bool-cases (text_eq x.meta.name name)) [
    | inl e ↦
        let same : x ≡ d = ground (arith, (rw e at h)) in
        ap (λ y. y.meta.name) (sym same) ∙ (text_eq_iff x.meta.name name).0 e
    | inr e ↦ find_named-name name ds d (rw e at h)
  ]

  added-Present :
      (name : Text) (ds owned : List Deployment)
      → All (Present self env ds) owned
      → All (Present self env ds) (add_found self env (find_named meta_of name ds) owned)
  unfolding Present
  added-Present name ds owned h = elim (Option-cases (find_named meta_of name ds)) [
    | inl e ↦ rw e h
    | inr (d, e) ↦ elim (Bool-cases (is_controlled self d.meta)) [
      | inl own ↦ rw e (
          rw own (
            All-append _ owned (d ∷ []) h
              ((λ gone. cc (rw (find_named-name name ds d e) at gone)), tt)))
      | inr foreign ↦ rw e (rw foreign h)
    ]
  ]

  -- What is looked up is there.
  look_up-Present :
      (names : List Text) (owned : List Deployment) (c : Cluster Store) (out : List Deployment)
      → All (Present self env c.store.deployments) owned
      → (look_up self env names owned c).1 ≡ done out
      → All (Present self env c.store.deployments) out
  unfolding look_up pure
  look_up-Present [] owned c out h e = let same : owned ≡ out = ground arith in rw same at h
  look_up-Present (name ∷ names) owned c out h e =
      elim (Bool-cases (mem_name self env name owned)) [
        | inl old ↦ look_up-Present names owned c out h (rw old at e)
        | inr new ↦
            let (d, same, rest) =
              get-done api (λ s. find_named meta_of name s.deployments) _ c (rw new at e) in
            rw same at (
              look_up-Present names _ d out
                (rw same (added-Present name c.store.deployments owned h))
                (ap (λ r. r.1) (sym rest) ∙ (rw new at e)))
      ]

  pub owned-store : (s : Store) → Keeps (λ t. t ≡ s) (owned_workload_deployments self env)
  unfolding owned_workload_deployments
  owned-store s = search (keeps_rules, look_up-store)

  owned_nil :
      (c : Cluster Store)
      → (owned_workload_deployments self env c).1 ≡ done []
      → NoWorkload self env c.store.deployments
  unfolding owned_workload_deployments labelled
  owned_nil c h =
      let (d, same, rest) = get-done api (λ s. s.deployments) _ c h in
      let (none_labelled, free) = look_up_nil _ _ d (ap (λ r. r.1) (sym rest) ∙ h) in
      record {
        unlabelled = select_nil self env c.store.deployments none_labelled;
        unnamed = rw same at free;
      }

  owned-Present :
      (c : Cluster Store) (out : List Deployment)
      → (owned_workload_deployments self env c).1 ≡ done out
      → All (Present self env c.store.deployments) out
  unfolding owned_workload_deployments labelled
  owned-Present c out h =
      let (d, same, rest) = get-done api (λ s. s.deployments) _ c h in
      rw same at (
        look_up-Present _ _ d out
          (rw same (
            select-Present self env c.store.deployments c.store.deployments
              (All-Present self env c.store.deployments)))
          (ap (λ r. r.1) (sym rest) ∙ h))

  -- Each of the names was free.
  pub delete_all-false :
      (names : List Text) (remaining : Bool) (c : Cluster Store)
      → (delete_all self env names remaining c).1 ≡ done false
      → (remaining ≡ false)
        × All (λ name. find_named meta_of name c.store.deployments ≡ none) names
        × ((delete_all self env names remaining c).0.store ≡ c.store)
  unfolding delete_all delete_named pure
  delete_all-false [] remaining c h = (cc, tt, refl)
  delete_all-false (name ∷ names) remaining c h =
      let (exists, first, rest) = >>=-done _ _ c h in
      let (before, free, same) = delete_all-false names _ _ (ap (λ r. r.1) (sym rest) ∙ h) in
      let (gone, kept) =
        delete_owned_object-false self env _ _ c (first ∙ ap done (ground arith)) in
      (ground arith, (ground arith, rw kept at free), ap (λ r. r.0.store) rest ∙ (same ∙ kept))

  delete_pods-deployments :
      (pods : List Pod) (P : List Deployment → Type 0)
      → Keeps (λ s. P s.deployments) (delete_pods self env pods)
  unfolding delete_pods
  delete_pods-deployments [] P = search keeps_rules
  delete_pods-deployments (pod ∷ pods) P =
      let ih = delete_pods-deployments pods P in
      search (keeps_rules, λ (s : Store) (h : P s.deployments). h)

  pub force_delete_pods-deployments :
      (P : List Deployment → Type 0) → Keeps (λ s. P s.deployments) (force_delete_pods self env)
  unfolding force_delete_pods
  force_delete_pods-deployments P =
      search (keeps_rules, λ (pods : List Pod). delete_pods-deployments pods P)

  -- Where something was owned, something was found, so `false` means that nothing was.
  pub owned_gone :
      (ds owned : List Deployment)
      → All (Present self env ds) owned
      → All (λ name. find_named meta_of name ds ≡ none) (names_of self env owned)
      → owned ≡ []
  unfolding Present names_of
  owned_gone ds [] p h = refl
  owned_gone ds (d ∷ owned) (p, _) (h, _) = absurd (p h)

  -- What ownedWorkloadDeployments returns is there, and if it is empty there is no workload.
  pub owned-Ensures :
      Ensures
        (λ s. Unit {0})
        (owned_workload_deployments self env)
        (λ owned s.
          All (Present self env s.deployments) owned
          × (owned ≡ [] → NoWorkload self env s.deployments))
  owned-Ensures = record {
    of = λ c p owned h.
        let same = (owned-store c.store).at c refl in
        (rw same (owned-Present c owned h), (λ empty. rw same (owned_nil c (rw empty at h))));
  }

  delete_all-Ensures :
      (owned : List Deployment)
      → Ensures
          (λ s.
            All (Present self env s.deployments) owned
            × (owned ≡ [] → NoWorkload self env s.deployments))
          (delete_all self env (names_of self env owned) false)
          (λ remaining s. remaining ≡ false → NoWorkload self env s.deployments)
  delete_all-Ensures owned = record {
    of = λ c p remaining h none_left.
        let (_, free, same) =
          delete_all-false (names_of self env owned) false c (rw none_left at h) in
        rw same (p.1 (owned_gone c.store.deployments owned p.0 free));
  }

  -- deleteDeployment answers `false` only if there is no workload.
  pub delete_deployment-Ensures :
      Ensures
        (λ s. Unit {0})
        (delete_deployment self env)
        (λ remaining s. remaining ≡ false → NoWorkload self env s.deployments)
  unfolding delete_deployment
  delete_deployment-Ensures = Ensures-bind _ _ _ owned-Ensures (λ owned.
      Ensures-bind _ _ _ (delete_all-Ensures owned) (λ remaining.
        Ensures-bind (λ pods s. remaining ≡ false → NoWorkload self env s.deployments) _ _
          (Ensures-of_keeps _
            (force_delete_pods-deployments (λ ds. remaining ≡ false → NoWorkload self env ds))
            (λ pods s h. h))
          (λ pods. Ensures-pure (remaining || pods) (λ s h e. h (ground arith)))))
