-- ===== src/Naming/Workload/Total.antt =====
-- When workloadDeploymentName returns a name, and what that name looks like.
use plexus_controller.Common.{
  Text, byte_len, ℕ, ◌≤◌, ◌≡◌, ◌≢◌, [], ◌⊎◌, inl, inr, true, false, none, some, arith, Bool-cases,
  Option-cases, is_nil,
}
use plexus_controller.Naming.Slug.{workload_name_slug_max, dns1123_slug}
use plexus_controller.Naming.Slug.Canonical.{IsSlug}
use plexus_controller.Naming.Workload.{
  NameSource, NameError, ok, err, no_setup, game_not_dns, workload_deployment_name,
}
use plexus_controller.Naming.Workload.Valid.{game_slug, the_name, the_name_valid, the_name-returned}

module _ (lower_high : ℕ → ℕ) where
  -- Where a setup is selected and its game id has a slug that is not empty, a name is returned; it
  -- is a slug (lower-case letters, digits and single inner hyphens) of 1 to 50 bytes, which is below
  -- the limit of 63 that the code tests.
  pub workload_deployment_name_total :
      (source : NameSource) (game : Text)
      → source.game_id ≡ some game
      → is_nil (dns1123_slug lower_high game workload_name_slug_max) ≡ false
      → (name : Text) × (workload_deployment_name lower_high source ≡ ok name)
        × IsSlug name
        × (name ≢ [])
        × (byte_len name ≤ 50)
  workload_deployment_name_total source game e full =
      let (slug, filled, short) = the_name_valid lower_high source game full in
      (
        the_name lower_high source game,
        the_name-returned lower_high source game e full,
        slug,
        filled,
        short,
      )

  abbrev pub IsUnnamed : NameSource → NameError → Type 0
  IsUnnamed source e =
      ((e ≡ no_setup) × (source.game_id ≡ none))
      ⊎ ((e ≡ game_not_dns)
          × ((game : Text) × (source.game_id ≡ some game)
              × (is_nil (dns1123_slug lower_high game workload_name_slug_max) ≡ true)))

  -- An error is returned only without a setup, or for a game id with an empty slug: the errors for
  -- an empty customer slug and for a name that is too long never come back.
  pub workload_deployment_name_errors :
      (source : NameSource) {e : NameError}
      → workload_deployment_name lower_high source ≡ err e
      → IsUnnamed source e
  workload_deployment_name_errors source {e} h = elim (Option-cases source.game_id) [
    | inl missing ↦ inl (ground (arith, unnamed missing), missing)
    | inr (game, given) ↦ elim (Bool-cases (is_nil (game_slug lower_high game))) [
      | inl empty ↦ inr (ground (arith, refused game given empty), (game, given, empty))
      | inr full ↦ absurd (ground (arith, the_name-returned lower_high source game given full))
    ]
  ]
    where
      unnamed : source.game_id ≡ none → workload_deployment_name lower_high source ≡ err no_setup
      unnamed missing = unfold workload_deployment_name in rw missing

      refused :
          (game : Text)
          → source.game_id ≡ some game
          → is_nil (game_slug lower_high game) ≡ true
          → workload_deployment_name lower_high source ≡ err game_not_dns
      refused game given empty = unfold workload_deployment_name in rw given (rw empty)
