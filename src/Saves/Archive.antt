-- ===== src/Saves/Archive.antt =====
-- pkg/gamemanagement/factorio/v1/saves.go: ValidateSaveArchive, with its helpers factorioSaveRoot,
-- unsafeArchivePath and windowsDriveAbsolutePath.
pub mod Loop
pub mod Entries
pub mod Sound
pub mod Spec
use mathlib.Core.List.{map}
use plexus_controller.Common.{
  ◌≡◌, refl, Text, codes, text_eq, has_prefix, contains_char, split_on, ℕ, zero, suc, ◌+◌, ◌-◌,
  Bool, true, false, ◌&&◌, ◌||◌, not, Option, none, some, List, [], ◌∷◌, ◌++◌, ltb, leb, ◌==◌,
  if◌then◌else◌, take, is_nil, is_lower, is_upper, trim_right, any, all, length,
}
use plexus_controller.Common.Int.{ℤ, pos, negsuc}
use plexus_controller.Saves.Paths.{path_ext, path_base, is_zip_ext, is_abs, cut_suffix}

-- The size is an int64, so a caller may hand over a negative one.
pub record ArchiveEntry : Type 0 where
  pub name : Text
  pub uncompressed_bytes : ℤ
  pub directory : Bool

abbrev pub maximum_save_archive_bytes : ℕ
maximum_save_archive_bytes = 2147483648

abbrev pub maximum_save_expanded_bytes : ℕ
maximum_save_expanded_bytes = 8589934592

abbrev pub maximum_save_entries : ℕ
maximum_save_entries = 100000

abbrev pub level_entry_name : Text
level_entry_name = codes "level.dat"

abbrev pub level_init_entry_name : Text
level_init_entry_name = codes "level-init.dat"

-- The error returns of ValidateSaveArchive in the order of the code.
pub data SaveError : Type 0 where
  not_zip bad_media_type bad_archive_size bad_entry_count : SaveError
  unsafe_entry duplicate_entry too_large misplaced_required split_roots outside_root : SaveError
  missing_required : SaveError

pub data SaveResult {ℓ} (A : Type ℓ) : Type ℓ where
  ok : A → SaveResult A
  err : SaveError → SaveResult A

infixl 5 ◌>>=◌ ◌>>◌
-- The early return: what follows a check runs only if the check has passed.
abbrev pub ◌>>=◌ {ℓ} : {S : Type ℓ} {T : Type 0} → SaveResult S → (S → SaveResult T) → SaveResult T
err reason >>= next = err reason
ok value >>= next = next value

abbrev pub ◌>>◌ : {T : Type 0} → SaveResult (Unit {0}) → SaveResult T → SaveResult T
err reason >> next = err reason
ok passed >> next = next

-- A chain that ends well was passed up to its last part.
pub >>=-eq-ok :
    {S T : Type 0} (first : SaveResult S) (next : S → SaveResult T) {t : T}
    → (first >>= next) ≡ ok t
    → (value : S) × (first ≡ ok value) × (next value ≡ ok t)
>>=-eq-ok (err reason) next h = cc
>>=-eq-ok (ok value) next h = (value, refl, h)

-- `if test { return error }`
abbrev pub reject_if : Bool → SaveError → SaveResult (Unit {0})
reject_if true e = err e
reject_if false e = ok tt

-- A check that was passed.
pub reject_if-passed :
    {B : Type 0} (test : Bool) (e : SaveError) (rest : SaveResult B) {b : B}
    → (reject_if test e >> rest) ≡ ok b
    → (test ≡ false) × (rest ≡ ok b)
reject_if-passed true e rest h = cc
reject_if-passed false e rest h = (refl, h)

abbrev pub is_letter : ℕ → Bool
is_letter c = is_lower c || is_upper c

unfoldable pub windows_drive_absolute_path : Text → Bool
windows_drive_absolute_path (a ∷ b ∷ c ∷ s) = b == b':' && c == b'/' && is_letter a
windows_drive_absolute_path _ = false

-- The loop over the components; only the last one may be empty.
unfoldable pub unsafe_components : List Text → Bool
unfolding text_eq
unsafe_components [] = false
unsafe_components (component ∷ rest) =
    text_eq component (codes ".")
    || text_eq component (codes "..")
    || (is_nil component && not (is_nil rest))
    || unsafe_components rest

unfoldable pub unsafe_archive_path : Text → Bool
unsafe_archive_path name =
    is_nil name
    || contains_char b'\\' name
    || is_abs name
    || windows_drive_absolute_path name
    || unsafe_components (split_on b'/' name)

-- The root that is cut off, unless it is empty or has a slash itself.
abbrev pub root_of : Option Text → Option Text
root_of none = none
root_of (some root) = if is_nil root || contains_char b'/' root then none else some root

unfoldable pub factorio_save_root : Text → Text → Option Text
factorio_save_root name basename =
    if text_eq name basename then some [] else root_of (cut_suffix name (b'/' ∷ basename))

-- The local variables of ValidateSaveArchive's loop. `save_root` is none until saveRootSet.
pub record Scan : Type 0 where
  pub level : Bool  -- required["level.dat"]
  pub level_init : Bool  -- required["level-init.dat"]
  pub seen : List Text
  pub entry_names : List Text
  pub save_root : Option Text
  pub expanded_bytes : ℕ

abbrev pub start : Scan
start = record {
  level = false;
  level_init = false;
  seen = [];
  entry_names = [];
  save_root = none;
  expanded_bytes = 0;
}

unfoldable pub mem_text : Text → List Text → Bool
unfolding text_eq
mem_text name [] = false
mem_text name (x ∷ xs) = text_eq x name || mem_text name xs

-- entry.UncompressedBytes < 0 || entry.UncompressedBytes > MaximumSaveExpandedBytes-expandedBytes
abbrev pub exceeds : ℤ → ℕ → Bool
exceeds (negsuc n) expanded = true
exceeds (pos n) expanded = ltb (maximum_save_expanded_bytes - expanded) n

-- A size that `exceeds` has let through.
abbrev pub size_of : ℤ → ℕ
size_of (pos n) = n
size_of (negsuc n) = 0

-- `saveRootSet && entryRoot != saveRoot`
abbrev pub splits : Option Text → Text → Bool
splits none root = false
splits (some other) root = not (text_eq root other)

abbrev pub is_level : Text → Bool
is_level name = text_eq name level_entry_name

abbrev pub is_level_init : Text → Bool
is_level_init name = text_eq name level_init_entry_name

-- The entry's root is known: it is recorded, and the required entry is found.
abbrev pub found : Scan → Text → Text → Scan
found s base root = record s {
  save_root = some root;
  level = s.level || is_level base;
  level_init = s.level_init || is_level_init base;
}

abbrev pub place : Scan → Text → Option Text → SaveResult Scan
place s base none = err misplaced_required
place s base (some root) =
    if splits s.save_root root then err split_roots else ok (found s base root)

-- The part of a round for entries that are no directories.
unfoldable pub scan_file : Scan → Text → SaveResult Scan
scan_file s name =
    let base = path_base name in
    if is_level base || is_level_init base
    then place s base (factorio_save_root name base)
    else ok s

-- One round of the loop.
unfoldable pub scan_entry : Scan → ArchiveEntry → SaveResult Scan
scan_entry s entry = do
  reject_if (unsafe_archive_path entry.name) unsafe_entry
  reject_if (mem_text entry.name s.seen) duplicate_entry
  reject_if (exceeds entry.uncompressed_bytes s.expanded_bytes) too_large
  let next : Scan = record s {
    seen = entry.name ∷ s.seen;
    entry_names = s.entry_names ++ entry.name ∷ [];
    expanded_bytes = s.expanded_bytes + size_of entry.uncompressed_bytes;
  }
  if entry.directory then ok next else scan_file next entry.name

unfoldable pub scan_entries : Scan → List ArchiveEntry → SaveResult Scan
scan_entries s [] = ok s
scan_entries s (entry ∷ entries) = do next ← scan_entry s entry; scan_entries next entries

-- The test of the loop over entryNames.
unfoldable pub under_root : Text → Text → Bool
under_root root name =
    text_eq name root || text_eq name (root ++ codes "/") || has_prefix name (root ++ codes "/")

-- `if saveRoot != ""`
abbrev pub names_share_root : Option Text → List Text → Bool
names_share_root none names = true
names_share_root (some root) names = is_nil root || all (under_root root) names

-- The checks behind the loop. The missing name that the code reports depends on the iteration order
-- of a map, so it is left out.
abbrev pub conclude : Scan → SaveResult (Unit {0})
conclude s = do
  reject_if (not (names_share_root s.save_root s.entry_names)) outside_root
  reject_if (not (s.level && s.level_init)) missing_required

abbrev pub archive_size_bad : ℤ → Bool
archive_size_bad (negsuc n) = true
archive_size_bad (pos n) = n == 0 || ltb maximum_save_archive_bytes n

unfoldable pub validate_save_archive : Text → Text → ℤ → List ArchiveEntry → SaveResult (Unit {0})
validate_save_archive file_name media_type archive_bytes entries = do
  reject_if (not (is_zip_ext (path_ext file_name))) not_zip
  reject_if (not (text_eq media_type (codes "application/zip"))) bad_media_type
  reject_if (archive_size_bad archive_bytes) bad_archive_size
  reject_if (is_nil entries || ltb maximum_save_entries (length entries)) bad_entry_count
  s ← scan_entries start entries
  conclude s
