-- ===== src/GameServer/Absent.antt =====
-- internal/controller/gameserver_controller.go, workload_name.go: what it means that a deletion has
-- nothing left to do.
use plexus_controller.Common.{
  Text, text_eq, text_eq_self, ◌≡◌, ◌≢◌, inl, inr, Bool, true, false, ◌&&◌, not, Option, none, some,
  List, [], ◌∷◌, arith, Bool-cases, all, All, All-imp,
}
use plexus_controller.GameServer.Types.{Meta, Deployment, Self, Store, Surroundings}
use plexus_controller.Api.{Cluster, done, pure, fail, call, ◌>>=◌, when}
use plexus_controller.GameServer.Objects.{
  is_controlled, find_named, select, meta_of, name_source, delete_owned_object,
}
use plexus_controller.Naming.Workload.{workload_deployment_lookup_names}

module _ (self : Self) (env : Surroundings) where
  abbrev pub lookup_names : List Text
  lookup_names = workload_deployment_lookup_names env.lower_high (name_source self)

  abbrev pub is_labelled : Deployment → Bool
  is_labelled d = text_eq d.meta.server_uid self.uid && is_controlled self d.meta

  -- No Deployment of this name is controlled by the GameServer.
  abbrev pub is_free : Option Deployment → Bool
  is_free none = true
  is_free (some d) = not (is_controlled self d.meta)

  -- The GameServer has no workload: it controls no Deployment with its label, and none under the names
  -- that a workload of it may have.
  pub record NoWorkload (ds : List Deployment) : Type 0 where
    pub unlabelled : All (λ d. is_labelled d ≡ false) ds
    pub unnamed : All (λ name. is_free (find_named meta_of name ds) ≡ true) lookup_names

  -- An object that is not there: nothing happens, and `false` comes back.
  pub delete_owned_object-false :
      (read : Store → Option Meta) (mark : Store → Store) (c : Cluster Store)
      → (delete_owned_object self env read mark c).1 ≡ done false
      → (read c.store ≡ none) × ((delete_owned_object self env read mark c).0.store ≡ c.store)
  unfolding delete_owned_object call ◌>>=◌ pure fail when
  delete_owned_object-false read mark c h = (ground arith, ground arith)

  -- The Deployment of a name in a list is there.
  unfoldable pub Present : List Deployment → Deployment → Type 0
  Present ds d = find_named meta_of d.meta.name ds ≢ none

  pub Present-here : (d : Deployment) (ds : List Deployment) → Present (d ∷ ds) d
  unfolding Present find_named
  Present-here d ds h = ground (arith, text_eq_self d.meta.name)

  pub Present-later : (x d : Deployment) (ds : List Deployment) → Present ds d → Present (x ∷ ds) d
  unfolding Present find_named
  Present-later x d ds p h = p (ground arith)

  pub All-Present : (ds : List Deployment) → All (Present ds) ds
  All-Present [] = tt
  All-Present (d ∷ ds) = (
    Present-here d ds,
    All-imp (Present ds) (Present (d ∷ ds)) ds (λ x. Present-later d x ds) (All-Present ds),
  )

  pub select-Present :
      (all ds : List Deployment) → All (Present all) ds → All (Present all) (select is_labelled ds)
  unfolding select
  select-Present all [] h = tt
  select-Present all (d ∷ ds) (p, h) = elim (Bool-cases (is_labelled d)) [
    | inl e ↦ rw e (p, select-Present all ds h)
    | inr e ↦ rw e (select-Present all ds h)
  ]

  pub select_nil :
      (ds : List Deployment) → select is_labelled ds ≡ [] → All (λ d. is_labelled d ≡ false) ds
  unfolding select
  select_nil [] h = tt
  select_nil (d ∷ ds) h = elim (Bool-cases (is_labelled d)) [
    | inl e ↦ cc (rw e at h)
    | inr e ↦ (e, select_nil ds (rw e at h))
  ]
