-- ===== src/Mods/Examples.antt =====
-- Versions, dependencies and releases of Factorio mods, and the theorems about them at these.
use plexus_controller.Common.{
  Text, codes, text_eq, has_prefix, split_on, trim_left, trim_right, trim_space, is_space,
  contains_char, ℕ, ◌+◌, ◌*◌, ◌^◌, ◌≡◌, refl, true, false, Option, none, some, List, [], ◌∷◌, All,
  arith,
}
use plexus_controller.Common.Decimal.{number_from}
use plexus_controller.Mods.Version.{
  Version, parse_factorio_version, version_part, atoi, digits_value, fields, pieces,
  compare_versions, satisfies, dependency_version_matches,
}
use plexus_controller.Mods.Dependency.{
  ModRelease, incompatible_declared, required_unsupported, base_incompatible,
  dependency_constrained, strip_prefix, is_mod_id, is_mod_version, parse_dependency,
  check_dependencies, validate_mod_release,
}
use plexus_controller.Mods.Order.{IsOrdered, dependency_version_matches-IsOrdered}
use plexus_controller.Mods.Decimal.{print_version, parse_factorio_version-print_version}
use plexus_controller.Mods.Archive.{
  ModEntry, ModInfo, mode_refused, is_dir_mode, mode_bit, is_regular_mode, safe_mod_archive_path,
  path_clean, clean_components, trim_slash, join, in_root, info_path, read_entry, scan_mod_entry,
  scan_mod_entries, validate_mod_info, validate_mod_archive,
}
use plexus_controller.Mods.Accepted.{
  IsInstallable, validate_mod_archive-IsInstallable, mode_refused-typed,
}
use plexus_controller.Mods.Contained.{IsName, safe_mod_archive_path-IsName}
use plexus_controller.Mods.Release.{IsSound, validate_mod_release-IsSound}

run : Unit {0}
unfolding text_eq has_prefix split_on trim_left trim_right trim_space is_space number_from
    parse_factorio_version version_part atoi digits_value fields pieces strip_prefix is_mod_id
    is_mod_version parse_dependency compare_versions satisfies dependency_version_matches
    check_dependencies validate_mod_release
run = tt

abbrev version : ℕ → ℕ → ℕ → Version
version a b c = record { major = a; minor = b; patch = c }

version_tests :
    (parse_factorio_version (codes "2.0.77") ≡ some (version 2 0 77))
    × (parse_factorio_version (codes "2.0") ≡ some (version 2 0 0))
    × (parse_factorio_version (codes "2") ≡ none)
    × (parse_factorio_version (codes "2.01") ≡ none)
    × (parse_factorio_version (codes "2.9223372036854775808") ≡ none)
unfolding run
version_tests = (refl, refl, refl, refl, refl)

-- strconv.Atoi reads a sign.
sign_test : parse_factorio_version (codes "+2.-0") ≡ some (version 2 0 0)
unfolding run
sign_test = refl

abbrev release : List Text → ModRelease
release dependencies = record {
  provider_id = codes "factorio-mod-portal";
  provider_mod_id = codes "mod-1";
  name = codes "mod-1";
  version = codes "1.2.3";
  game_version = codes "2.0";
  dependencies = dependencies;
}

release_tests :
    (validate_mod_release (release (codes "! other" ∷ [])) ≡ some incompatible_declared)
    × (validate_mod_release (release (codes "? other > 1.1" ∷ [])) ≡ none)
    × (validate_mod_release (release (codes "other" ∷ [])) ≡ some required_unsupported)
    × (validate_mod_release (release (codes "+ base >= 2.1" ∷ [])) ≡ some base_incompatible)
    × (validate_mod_release (release (codes "!other < 1.0" ∷ [])) ≡ some dependency_constrained)
unfolding run
release_tests = (refl, refl, refl, refl, refl)

accepted : validate_mod_release (release (codes "base >= 2.0.7" ∷ [])) ≡ none
unfolding run
accepted = refl

validate_mod_release-IsSound_example : IsSound (release (codes "base >= 2.0.7" ∷ []))
validate_mod_release-IsSound_example =
    validate_mod_release-IsSound (release (codes "base >= 2.0.7" ∷ [])) accepted

runtime_version : parse_factorio_version (codes "2.0.77") ≡ some (version 2 0 77)
unfolding run
runtime_version = refl

wanted_version : parse_factorio_version (codes "2.1") ≡ some (version 2 1 0)
unfolding run
wanted_version = refl

dependency_version_matches-IsOrdered_example :
    IsOrdered (codes "2.0.77") (codes "2.1") (version 2 0 77) (version 2 1 0)
dependency_version_matches-IsOrdered_example =
    dependency_version_matches-IsOrdered (codes "2.0.77") (codes "2.1") (version 2 0 77)
      (version 2 1 0) runtime_version wanted_version

parse_factorio_version-print_version_example :
    parse_factorio_version (print_version (version 2 0 77)) ≡ some (version 2 0 77)
parse_factorio_version-print_version_example =
    parse_factorio_version-print_version (version 2 0 77) (omega arith) (omega arith) (omega arith)

entry_run : Unit {0}
unfolding run contains_char mode_refused is_dir_mode mode_bit is_regular_mode safe_mod_archive_path
    path_clean clean_components trim_slash join in_root info_path read_entry scan_mod_entry
    scan_mod_entries validate_mod_info validate_mod_archive
entry_run = tt

path_tests :
    (safe_mod_archive_path (codes "mod-1_1.2.3/") ≡ some (codes "mod-1_1.2.3"))
    × (safe_mod_archive_path (codes "mod-1_1.2.3/../a") ≡ none)
    × (safe_mod_archive_path (codes "../a") ≡ none)
    × (safe_mod_archive_path (codes "a//b") ≡ none)
unfolding entry_run
path_tests = (refl, refl, refl, refl)

abbrev file : Text → ℕ → List ℕ → ModEntry
file name mode content = record {
  name = name;
  mode = mode;
  opens = true;
  content = content;
  read_fails = false;
  close_fails = false;
}

-- A directory, the description of the mod and a symbolic link.
abbrev mod_entries : List ModEntry
mod_entries =
    file (codes "mod-1_1.2.3/") (493 + 2 ^ 31) []
    ∷ file (codes "mod-1_1.2.3/info.json") 420 (1 ∷ 2 ∷ [])
    ∷ file (codes "mod-1_1.2.3/link") (511 + 2 ^ 27) (3 ∷ [])
    ∷ []

abbrev mod_info : ModInfo
mod_info = record {
  name = codes "mod-1";
  version = codes "1.2.3";
  factorio = codes "2.0";
  dependencies = codes "base >= 2.0.7" ∷ [];
}

abbrev unzip : List ℕ → Option (List ModEntry)
unzip archive = some mod_entries

abbrev digest_hex : List ℕ → Text
digest_hex archive = codes "ab"

abbrev lower : Text → Text
lower text = text

abbrev decode : List ℕ → Option ModInfo
decode content = some mod_info

installable :
    validate_mod_archive unzip digest_hex lower decode
      (release (codes "base >= 2.0.7" ∷ []))
      (1 ∷ 2 ∷ 3 ∷ [])
      (codes " ab")
    ≡ none
unfolding entry_run
installable = refl

validate_mod_archive-IsInstallable_example :
    IsInstallable unzip digest_hex lower decode
      (release (codes "base >= 2.0.7" ∷ []))
      (1 ∷ 2 ∷ 3 ∷ [])
      (codes " ab")
validate_mod_archive-IsInstallable_example =
    validate_mod_archive-IsInstallable unzip digest_hex lower decode
      (release (codes "base >= 2.0.7" ∷ [])) (1 ∷ 2 ∷ 3 ∷ []) (codes " ab") installable

-- A symbolic link with all permissions.
mode_refused-typed_example : mode_refused (511 + 256 * 2 ^ 19) ≡ false
mode_refused-typed_example = mode_refused-typed 511 256 (omega arith)

safe_path : safe_mod_archive_path (codes "a/b.lua") ≡ some (codes "a/b.lua")
unfolding entry_run
safe_path = refl

safe_mod_archive_path-IsName_example : All IsName (split_on b'/' (codes "a/b.lua"))
safe_mod_archive_path-IsName_example =
    safe_mod_archive_path-IsName (codes "a/b.lua") (codes "a/b.lua") safe_path
