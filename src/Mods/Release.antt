-- ===== src/Mods/Release.antt =====
-- pkg/gamemanagement/factorio/v1/mods.go: what ValidateModRelease makes sure of.
use plexus_controller.Common.{
  Text, codes, text_eq_iff, ◌≡◌, refl, ◌≢◌, Bool, true, false, Option, none, some, List, [], ◌∷◌,
  arith, All, is_nil,
}
use plexus_controller.Mods.Version.{dependency_version_matches}
use plexus_controller.Mods.Dependency.{
  ModError, Dependency, Parsed, parsed, refused, ModRelease, parse_dependency, check_dependency,
  check_dependencies, on_match, or_else, validate_mod_release, supported_runtime_version, is_mod_id,
  is_mod_version, supported_factorio_version,
}

-- A dependency that the one mod may have: none that excludes another mod, only the base game is
-- required, and the runtime satisfies what it says of the base game's version.
pub record IsSupported (text : Text) : Type 0 where
  pub dependency : Dependency
  pub parses : parse_dependency text ≡ parsed dependency
  pub compatible : dependency.incompatible ≡ false
  pub required : dependency.required ≡ true → dependency.name ≡ codes "base"
  pub version :
      dependency.name ≡ codes "base"
      → dependency.operator ≢ []
      → dependency_version_matches supported_runtime_version dependency.operator dependency.version
        ≡ some true

pub record IsSound (release : ModRelease) : Type 0 where
  pub provider : release.provider_id ≡ codes "factorio-mod-portal"
  pub name : release.name ≡ release.provider_mod_id
  pub id : is_mod_id release.provider_mod_id ≡ true
  pub version : is_mod_version release.version ≡ true
  pub game : release.game_version ≡ supported_factorio_version
  pub dependencies : All IsSupported release.dependencies

matched : (m : Option Bool) → on_match m ≡ none → m ≡ some true
matched none h = cc
matched (some true) h = refl
matched (some false) h = cc

checked_version :
    (d : Dependency)
    → check_dependency (parsed d) ≡ none
    → d.name ≡ codes "base"
    → d.operator ≢ []
    → dependency_version_matches supported_runtime_version d.operator d.version ≡ some true
checked_version d h base constrained =
    let named = (text_eq_iff d.name (codes "base")).1 base in
    let operator = filled d.operator constrained in matched _ (ground arith)
  where
    filled : (s : Text) → s ≢ [] → is_nil s ≡ false
    filled [] h = absurd (h refl)
    filled (c ∷ s) h = refl

IsSupported-of_parsed :
    (text : Text) (p : Parsed)
    → parse_dependency text ≡ p
    → check_dependency p ≡ none
    → IsSupported text
IsSupported-of_parsed text (refused e) h k = cc
IsSupported-of_parsed text (parsed d) h k = record {
  dependency = d;
  parses = h;
  compatible = ground arith;
  required = λ r. (text_eq_iff d.name (codes "base")).0 (ground arith);
  version = checked_version d k;
}

both_none : (a b : Option ModError) → or_else a b ≡ none → (a ≡ none) × (b ≡ none)
both_none none b h = (refl, h)
both_none (some e) b h = cc

check_dependencies-IsSupported :
    (dependencies : List Text)
    → check_dependencies dependencies ≡ none
    → All IsSupported dependencies
unfolding check_dependencies
check_dependencies-IsSupported [] h = tt
check_dependencies-IsSupported (d ∷ rest) h =
    let (first, later) = both_none (check_dependency (parse_dependency d)) _ h in
    (IsSupported-of_parsed d _ refl first, check_dependencies-IsSupported rest later)

-- A release that ValidateModRelease accepts names the mod portal's mod consistently, has a version of
-- three numbers, targets the supported game version, and has only dependencies that are supported.
pub validate_mod_release-IsSound :
    (release : ModRelease) → validate_mod_release release ≡ none → IsSound release
unfolding validate_mod_release
validate_mod_release-IsSound release h = record {
  provider = (text_eq_iff release.provider_id (codes "factorio-mod-portal")).0 (ground arith);
  name = (text_eq_iff release.name release.provider_mod_id).0 (ground arith);
  id = ground arith;
  version = ground arith;
  game = (text_eq_iff release.game_version supported_factorio_version).0 (ground arith);
  dependencies = check_dependencies-IsSupported release.dependencies (ground arith);
}
