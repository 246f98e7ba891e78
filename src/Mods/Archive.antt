-- ===== src/Mods/Archive.antt =====
-- pkg/gamemanagement/factorio/v1/mods.go: ValidateModArchive, safeModArchivePath, validateModInfo.
-- The ZIP reader, the digest, strings.ToLower and the JSON decoder are parameters. A byte is a number.
use plexus_controller.Common.{
  Text, codes, text_eq, has_prefix, contains_char, split_on, trim_space, ℕ, ◌+◌, ◌-◌, ◌/◌, ◌%◌, ◌^◌,
  min, Bool, ◌&&◌, ◌||◌, not, Option, none, some, List, [], ◌∷◌, ◌++◌, ltb, ◌==◌, if◌then◌else◌,
  length, is_nil, any,
}
use plexus_controller.Mods.Dependency.{ModRelease, ModError, validate_mod_release}

-- An entry of the archive: `mode` is its fs.FileMode, `content` what its reader gives, behind which a
-- read may fail.
pub record ModEntry : Type 0 where
  pub name : Text
  pub mode : ℕ
  pub opens : Bool
  pub content : List ℕ
  pub read_fails : Bool
  pub close_fails : Bool

-- The decoded info.json.
pub record ModInfo : Type 0 where
  pub name : Text
  pub version : Text
  pub factorio : Text
  pub dependencies : List Text

pub data ArchiveError : Type 0 where
  release_refused : ModError → ArchiveError
  size_invalid digest_mismatch not_a_zip entry_count_invalid : ArchiveError
  unsafe_path duplicate_path outside_root not_regular : ArchiveError
  unreadable too_large info_missing info_too_large info_invalid : ArchiveError
  identity_mismatch dependencies_mismatch : ArchiveError

-- The local variables of the loop.
pub record ModScan : Type 0 where
  pub seen : List Text
  pub expanded : ℕ
  pub info : Option (List ℕ)

pub data Scanned : Type 0 where
  scanned : ModScan → Scanned
  refused : ArchiveError → Scanned

abbrev pub maximum_mod_archive_bytes : ℕ
maximum_mod_archive_bytes = 900000

abbrev pub maximum_mod_expanded_bytes : ℕ
maximum_mod_expanded_bytes = 67108864

abbrev pub maximum_mod_archive_entries : ℕ
maximum_mod_archive_entries = 4096

-- strings.Join
unfoldable pub join : Text → List Text → Text
join separator [] = []
join separator (part ∷ []) = part
join separator (part ∷ q ∷ parts) = part ++ separator ++ join separator (q ∷ parts)

-- The components that path.Clean leaves of a path that is not rooted, the last one first.
abbrev pub clean_step : Text → List Text → List Text
clean_step part [] = if is_nil part || text_eq part (codes ".") then [] else part ∷ []
clean_step part (top ∷ stack) =
    if is_nil part || text_eq part (codes ".")
    then top ∷ stack
    else if text_eq part (codes "..") && not (text_eq top (codes ".."))
    then stack
    else part ∷ top ∷ stack

unfoldable pub clean_components : List Text → List Text → List Text
clean_components [] stack = stack
clean_components (part ∷ parts) stack = clean_components parts (clean_step part stack)

abbrev pub reversed : List Text → List Text → List Text
reversed [] onto = onto
reversed (part ∷ parts) onto = reversed parts (part ∷ onto)

abbrev pub or_dot : List Text → Text
or_dot [] = codes "."
or_dot (part ∷ parts) = join (codes "/") (part ∷ parts)

-- path.Clean of a path that does not begin with a slash.
unfoldable pub path_clean : Text → Text
path_clean name = or_dot (reversed (clean_components (split_on b'/' name) []) [])

-- strings.TrimSuffix with "/"
unfoldable pub trim_slash : Text → Text
trim_slash [] = []
trim_slash (c ∷ []) = if c == b'/' then [] else c ∷ []
trim_slash (c ∷ d ∷ s) = c ∷ trim_slash (d ∷ s)

unfoldable pub safe_mod_archive_path : Text → Option Text
safe_mod_archive_path name =
    let clean = path_clean name in
    if is_nil name || contains_char b'\\' name || has_prefix name (codes "/")
    then none
    else if text_eq clean (codes ".")
        || text_eq clean (codes "..")
        || has_prefix clean (codes "../")
        || not (text_eq clean (trim_slash name))
    then none
    else some clean

-- fs.FileMode: ModeDir is bit 31, and the type bits are 31, 27, 26, 25, 24, 21 and 19.
unfoldable pub mode_bit : ℕ → ℕ → Bool
mode_bit mode bit = (mode / 2 ^ bit) % 2 == 1

unfoldable pub is_dir_mode : ℕ → Bool
is_dir_mode mode = mode_bit mode 31

unfoldable pub is_regular_mode : ℕ → Bool
is_regular_mode mode = not (
    mode_bit mode 31
    || mode_bit mode 27
    || mode_bit mode 26
    || mode_bit mode 25
    || mode_bit mode 24
    || mode_bit mode 21
    || mode_bit mode 19)

-- entry.Mode()&0o170000 != 0 && the entry is neither a directory nor a regular file.
unfoldable pub mode_refused : ℕ → Bool
mode_refused mode =
    not ((mode / 4096) % 16 == 0) && not (is_dir_mode mode) && not (is_regular_mode mode)

-- How many bytes streamModArchiveEntry reads, and whether it fails.
abbrev pub written : ℕ → ModEntry → ℕ
written maximum entry = min (length entry.content) maximum

abbrev pub copy_fails : ℕ → ModEntry → Bool
copy_fails maximum entry = entry.read_fails && ltb (length entry.content) maximum

abbrev pub mem_text : Text → List Text → Bool
mem_text s seen = any (text_eq s) seen

abbrev first_component : List Text → Text
first_component [] = []
first_component (part ∷ parts) = part

unfoldable pub in_root : Text → Text → Bool
in_root root clean = text_eq (first_component (split_on b'/' clean)) root

unfoldable pub info_path : Text → Text
info_path root = root ++ codes "/info.json"

-- What is captured of the content is all of it, or the loop has failed. The captured bytes of an empty
-- entry are empty, not nil, since io.Copy has grown the buffer before it reads.
unfoldable pub read_entry : Text → Text → ModEntry → ModScan → Scanned
read_entry root clean entry s =
    let maximum = (maximum_mod_expanded_bytes + 1) - s.expanded in
    let expanded = s.expanded + written maximum entry in
    if not entry.opens
    then refused unreadable
    else if ltb maximum_mod_expanded_bytes expanded
    then refused too_large
    else if copy_fails maximum entry || entry.close_fails
    then refused unreadable
    else scanned (record {
      seen = clean ∷ s.seen;
      expanded = expanded;
      info = if text_eq clean (info_path root) then some entry.content else s.info;
    })

abbrev pub scan_clean : Text → ModEntry → ModScan → Option Text → Scanned
scan_clean root entry s none = refused unsafe_path
scan_clean root entry s (some clean) =
    if mem_text clean s.seen
    then refused duplicate_path
    else if not (in_root root clean)
    then refused outside_root
    else if mode_refused entry.mode
    then refused not_regular
    else if is_dir_mode entry.mode
    then scanned (record s { seen = clean ∷ s.seen })
    else read_entry root clean entry s

-- The body of the loop.
unfoldable pub scan_mod_entry : Text → ModEntry → ModScan → Scanned
scan_mod_entry root entry s = scan_clean root entry s (safe_mod_archive_path entry.name)

abbrev pub and_then : Scanned → (ModScan → Scanned) → Scanned
and_then (scanned s) next = next s
and_then (refused e) next = refused e

unfoldable pub scan_mod_entries : Text → List ModEntry → ModScan → Scanned
scan_mod_entries root [] s = scanned s
scan_mod_entries root (entry ∷ entries) s =
    and_then (scan_mod_entry root entry s) (scan_mod_entries root entries)

module _ (unzip : List ℕ → Option (List ModEntry)) (digest_hex : List ℕ → Text)
    (lower : Text → Text) (decode : List ℕ → Option ModInfo) where
  abbrev pub check_info : ModRelease → Option ModInfo → Option ArchiveError
  check_info release none = some info_invalid
  check_info release (some info) =
      if not (text_eq info.name release.name)
        || not (text_eq info.version release.version)
        || not (text_eq info.factorio release.game_version)
      then some identity_mismatch
      else if not (text_eq (join (0 ∷ []) info.dependencies) (join (0 ∷ []) release.dependencies))
      then some dependencies_mismatch
      else none

  unfoldable pub validate_mod_info : List ℕ → ModRelease → Option ArchiveError
  validate_mod_info content release =
      if ltb 65536 (length content)
      then some info_too_large
      else check_info release (decode content)

  abbrev pub on_info : ModRelease → Option (List ℕ) → Option ArchiveError
  on_info release none = some info_missing
  on_info release (some content) = validate_mod_info content release

  abbrev pub on_scanned : ModRelease → Scanned → Option ArchiveError
  on_scanned release (refused e) = some e
  on_scanned release (scanned s) = on_info release s.info

  abbrev pub root_of_release : ModRelease → Text
  root_of_release release = release.name ++ codes "_" ++ release.version

  abbrev pub first_scan : ModScan
  first_scan = record { seen = []; expanded = 0; info = none }

  abbrev pub on_entries : ModRelease → Option (List ModEntry) → Option ArchiveError
  on_entries release none = some not_a_zip
  on_entries release (some entries) =
      if is_nil entries || ltb maximum_mod_archive_entries (length entries)
      then some entry_count_invalid
      else on_scanned release (scan_mod_entries (root_of_release release) entries first_scan)

  abbrev pub on_release : Option ModError → ModRelease → List ℕ → Text → Option ArchiveError
  on_release (some e) release archive expected = some (release_refused e)
  on_release none release archive expected =
      if is_nil archive || ltb maximum_mod_archive_bytes (length archive)
      then some size_invalid
      else if not (text_eq (digest_hex archive) (lower (trim_space expected)))
      then some digest_mismatch
      else on_entries release (unzip archive)

  -- The error, if there is one.
  unfoldable pub validate_mod_archive : ModRelease → List ℕ → Text → Option ArchiveError
  validate_mod_archive release archive expected =
      on_release (validate_mod_release release) release archive expected
