-- ===== src/Mods/Dependency.antt =====
-- pkg/gamemanagement/factorio/v1/mods.go: dependencies and releases of Factorio mods.
use plexus_controller.Common.{
  Text, codes, text_eq, has_prefix, split_on, trim_space, is_digit, is_lower, is_upper, ℕ, Bool,
  true, false, ◌&&◌, ◌||◌, not, Option, none, some, List, [], ◌∷◌, leb, ◌==◌, if◌then◌else◌, length,
  drop, is_nil, all,
}
use plexus_controller.Mods.Version.{
  fields, Version, parse_factorio_version, dependency_version_matches,
}

pub data ModError : Type 0 where
  identity_invalid version_invalid game_version_unsupported : ModError
  dependency_empty dependency_syntax dependency_name dependency_constrained : ModError
  dependency_operator dependency_version : ModError
  incompatible_declared required_unsupported base_invalid base_incompatible : ModError

pub record Dependency : Type 0 where
  pub name : Text
  pub operator : Text
  pub version : Text
  pub required : Bool
  pub incompatible : Bool

pub data Parsed : Type 0 where
  parsed : Dependency → Parsed
  refused : ModError → Parsed

abbrev pub is_mod_id_char : ℕ → Bool
is_mod_id_char c = is_lower c || is_upper c || is_digit c || c == b'_' || c == b'-'

-- modIDPattern
unfoldable pub is_mod_id : Text → Bool
is_mod_id s = not (is_nil s) && leb (length s) 100 && all is_mod_id_char s

abbrev are_numbers : List Text → Bool
are_numbers (a ∷ b ∷ c ∷ []) = number a && number b && number c
  where
    number : Text → Bool
    number part = not (is_nil part) && all is_digit part
are_numbers _ = false

-- modVersionPattern
unfoldable pub is_mod_version : Text → Bool
is_mod_version s = are_numbers (split_on b'.' s)

abbrev pub prefixes : List Text
prefixes = codes "(?)" ∷ codes "?" ∷ codes "+" ∷ codes "~" ∷ codes "!" ∷ []

-- The value without its prefix, whether it is required and whether it is incompatible.
unfoldable pub strip_prefix : List Text → Text → Text × Bool × Bool
strip_prefix [] value = (value, true, false)
strip_prefix (prefix ∷ rest) value =
    let later = strip_prefix rest value in
    if has_prefix value prefix
    then (
      trim_space (drop (length prefix) value),
      text_eq prefix (codes "+"),
      text_eq prefix (codes "!"),
    )
    else later

abbrev pub is_operator : Text → Bool
is_operator s =
    text_eq s (codes "<")
    || text_eq s (codes "<=")
    || text_eq s (codes "=")
    || text_eq s (codes ">=")
    || text_eq s (codes ">")

abbrev pub is_version : Option Version → Bool
is_version none = false
is_version (some version) = true

abbrev pub of_fields : Bool → Bool → List Text → Parsed
of_fields required incompatible (name ∷ []) =
    if not (is_mod_id name)
    then refused dependency_name
    else parsed (record {
      name = name;
      operator = [];
      version = [];
      required = required;
      incompatible = incompatible;
    })
of_fields required incompatible (name ∷ operator ∷ version ∷ []) =
    if not (is_mod_id name)
    then refused dependency_name
    else if incompatible
    then refused dependency_constrained
    else if not (is_operator operator)
    then refused dependency_operator
    else if not (is_version (parse_factorio_version version))
    then refused dependency_version
    else parsed (record {
      name = name;
      operator = operator;
      version = version;
      required = required;
      incompatible = incompatible;
    })
of_fields required incompatible _ = refused dependency_syntax

abbrev pub of_stripped : Text × Bool × Bool → Parsed
of_stripped (value, required, incompatible) = of_fields required incompatible (fields value)

unfoldable pub parse_dependency : Text → Parsed
parse_dependency value =
    let trimmed = trim_space value in
    if is_nil trimmed then refused dependency_empty else of_stripped (strip_prefix prefixes trimmed)

abbrev pub supported_factorio_version : Text
supported_factorio_version = codes "2.0"

abbrev pub supported_runtime_version : Text
supported_runtime_version = codes "2.0.77"

pub record ModRelease : Type 0 where
  pub provider_id : Text
  pub provider_mod_id : Text
  pub name : Text
  pub version : Text
  pub game_version : Text
  pub dependencies : List Text

abbrev pub on_match : Option Bool → Option ModError
on_match none = some base_invalid
on_match (some compatible) = if compatible then none else some base_incompatible

-- The body of the loop over the dependencies: the error, if there is one.
abbrev pub check_dependency : Parsed → Option ModError
check_dependency (refused error) = some error
check_dependency (parsed d) =
    if d.incompatible
    then some incompatible_declared
    else if d.required && not (text_eq d.name (codes "base"))
    then some required_unsupported
    else if text_eq d.name (codes "base") && not (is_nil d.operator)
    then on_match (dependency_version_matches supported_runtime_version d.operator d.version)
    else none

abbrev pub or_else : Option ModError → Option ModError → Option ModError
or_else none later = later
or_else (some error) later = some error

unfoldable pub check_dependencies : List Text → Option ModError
check_dependencies [] = none
check_dependencies (dependency ∷ rest) =
    or_else (check_dependency (parse_dependency dependency)) (check_dependencies rest)

unfoldable pub validate_mod_release : ModRelease → Option ModError
validate_mod_release release =
    if not (text_eq release.provider_id (codes "factorio-mod-portal"))
      || not (is_mod_id release.provider_mod_id)
      || not (text_eq release.name release.provider_mod_id)
    then some identity_invalid
    else if not (is_mod_version release.version)
    then some version_invalid
    else if not (text_eq release.game_version supported_factorio_version)
    then some game_version_unsupported
    else check_dependencies release.dependencies
