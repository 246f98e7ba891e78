-- ===== src/Saves/Archive/Sound.antt =====
-- ValidateSaveArchive returns no error only for a save archive.
use mathlib.Core.List.{map}
use mathlib.Core.Path.{subst}
use plexus_controller.Common.{
  Text, codes, text_eq_iff, ℕ, ◌≤◌, ◌≡◌, refl, ap, ◌∙◌, ◌⊎◌, inl, inr, Bool, true, false, ◌||◌, not,
  some, List, [], ◌∷◌, arith, ltb, eq-true_of_not, length, is_nil, all, All,
}
use plexus_controller.Saves.Paths.{path_base, path_ext, is_zip_ext}
use plexus_controller.Common.Int.{ℤ, pos, negsuc}
use plexus_controller.Saves.Archive.{
  >>=-eq-ok, reject_if-passed, not_zip, bad_media_type, bad_archive_size, bad_entry_count,
  ArchiveEntry, ok, Scan, start, is_level, is_level_init, scan_entries, names_share_root, conclude,
  archive_size_bad, validate_save_archive, maximum_save_entries, level_entry_name,
  level_init_entry_name, under_root, maximum_save_archive_bytes,
}
use plexus_controller.Saves.Archive.Loop.{is_required}
use plexus_controller.Saves.Archive.Spec.{in_root, IsFile, Any, IsBelow, IsSave, under_root_sound}
use plexus_controller.Saves.Archive.Entries.{
  scan_entries-IsContained, scan_entries-Distinct, scan_entries-total, scan_entries-names,
  scan_entries-placed, scan_entries-level, scan_entries-level_init, scan_entries-root,
}

-- A test that holds of one required name only.
abbrev Knows : (Text → Bool) → Text → Type 0
Knows test name =
    (base : Text)
    → test base ≡ true
    → (base ≡ name) × ((is_level base || is_level_init base) ≡ true)

Any-required :
    (test : Text → Bool) (name : Text) (es : List ArchiveEntry)
    → Knows test name
    → Any (λ e. (e.directory ≡ false) × (test (path_base e.name) ≡ true)) es
    → Any (λ e. is_required e ≡ true) es
Any-required test name [] known m = elim m [ ]
Any-required test name (e ∷ es) known (inl (file, base)) =
    inl (ground (arith, known (path_base e.name) base))
Any-required test name (e ∷ es) known (inr m) = inr (Any-required test name es known m)

-- The entry that set the flag is the file of that name below the root.
Any-IsFile :
    (test : Text → Bool) (root name : Text) (es : List ArchiveEntry)
    → Knows test name
    → All (λ e. is_required e ≡ true → e.name ≡ in_root root (path_base e.name)) es
    → Any (λ e. (e.directory ≡ false) × (test (path_base e.name) ≡ true)) es
    → Any (IsFile (in_root root name)) es
Any-IsFile test root name [] known placed m = elim m [ ]
Any-IsFile test root name (e ∷ es) known (here, _) (inl (file, base)) =
    let (same, required) = known (path_base e.name) base in
    inl (file, here (rw (file, required)) ∙ ap (in_root root) same)
Any-IsFile test root name (e ∷ es) known (_, placed) (inr m) =
    inr (Any-IsFile test root name es known placed m)

names_share_root_sound :
    (root : Text) (es : List ArchiveEntry)
    → names_share_root (some root) (map (λ (e : ArchiveEntry). e.name) es) ≡ true
    → (root ≡ []) ⊎ All (λ e. IsBelow root e.name) es
names_share_root_sound [] es h = inl refl
names_share_root_sound (c ∷ root) es h = inr (go es h)
  where
    go :
        (rest : List ArchiveEntry)
        → all (under_root (c ∷ root)) (map (λ (e : ArchiveEntry). e.name) rest) ≡ true
        → All (λ e. IsBelow (c ∷ root) e.name) rest
    go [] k = tt
    go (e ∷ rest) k = (under_root_sound (c ∷ root) e.name (ground arith), go rest (ground arith))

know_level : Knows is_level level_entry_name
know_level base h = ((text_eq_iff base level_entry_name).0 h, ground arith)

know_level_init : Knows is_level_init level_init_entry_name
know_level_init base h = ((text_eq_iff base level_init_entry_name).0 h, ground arith)

IsSave-of_scan :
    (es : List ArchiveEntry) (s : Scan)
    → scan_entries start es ≡ ok s
    → conclude s ≡ ok tt
    → (root : Text) × IsSave es root
IsSave-of_scan es s scanned done =
    let (root, set) =
      scan_entries-root start es scanned
        (Any-required is_level level_entry_name es know_level level) in
    let placed = scan_entries-placed start es scanned root set in
    (
      root,
      record {
        contained = scan_entries-IsContained start es scanned;
        distinct = scan_entries-Distinct start es scanned;
        fits = omega (arith, scan_entries-total start es scanned (omega arith));
        has_level = Any-IsFile is_level root level_entry_name es know_level placed level;
        has_level_init =
            Any-IsFile is_level_init root level_init_entry_name es know_level_init placed
              level_init;
        one_root = names_share_root_sound root es (
            subst (λ n. names_share_root (some root) n ≡ true) (scan_entries-names start es scanned)
              (subst (λ r. names_share_root r s.entry_names ≡ true) set shared));
      },
    )
  where
    shared : names_share_root s.save_root s.entry_names ≡ true
    shared = ground arith

    level : Any (λ e. (e.directory ≡ false) × (is_level (path_base e.name) ≡ true)) es
    level = elim (scan_entries-level start es scanned (ground arith)) [ inl a ↦ cc | inr m ↦ m ]

    level_init : Any (λ e. (e.directory ≡ false) × (is_level_init (path_base e.name) ≡ true)) es
    level_init = elim (scan_entries-level_init start es scanned (ground arith)) [
      | inl a ↦ cc
      | inr m ↦ m
    ]

-- What the checks before the loop ask of an upload.
pub record IsUpload (file_name media_type : Text) (archive_bytes : ℤ) (es : List ArchiveEntry)
    : Type 0 where
  pub zip : is_zip_ext (path_ext file_name) ≡ true
  pub media : media_type ≡ codes "application/zip"
  pub archive_size : (n : ℕ) × (archive_bytes ≡ pos n) × (1 ≤ n) × (n ≤ maximum_save_archive_bytes)
  pub entry_count : (1 ≤ length es) × (length es ≤ maximum_save_entries)

archive_size_bad_sound :
    (size : ℤ)
    → archive_size_bad size ≡ false
    → (n : ℕ) × (size ≡ pos n) × (1 ≤ n) × (n ≤ maximum_save_archive_bytes)
archive_size_bad_sound (pos n) h = (n, refl, ground arith, ground arith)
archive_size_bad_sound (negsuc n) h = cc

-- An accepted upload is a .zip of the media type application/zip within the size limits, with
-- between 1 and 100000 entries; and there is one root such that every entry is a contained path, no
-- two entries share a name, the sizes add up to at most 8 GiB, level.dat and level-init.dat are
-- files directly below the root, and all entries lie at or below the root unless it is empty.
pub validate_save_archive_sound :
    (file_name media_type : Text) (archive_bytes : ℤ) (es : List ArchiveEntry)
    → validate_save_archive file_name media_type archive_bytes es ≡ ok tt
    → IsUpload file_name media_type archive_bytes es × ((root : Text) × IsSave es root)
unfolding validate_save_archive
validate_save_archive_sound file_name media_type archive_bytes es h =
    let (zip, h₁) = reject_if-passed (not (is_zip_ext (path_ext file_name))) not_zip _ h in
    let (media, h₂) = reject_if-passed _ bad_media_type _ h₁ in
    let (size, h₃) = reject_if-passed _ bad_archive_size _ h₂ in
    let (count, h₄) = reject_if-passed _ bad_entry_count _ h₃ in
    let (s, scanned, done) = >>=-eq-ok (scan_entries start es) conclude h₄ in
    (
      record {
        zip = eq-true_of_not _ zip;
        media = (text_eq_iff media_type (codes "application/zip")).0 (eq-true_of_not _ media);
        archive_size = archive_size_bad_sound archive_bytes size;
        entry_count = counted es count;
      },
      IsSave-of_scan es s scanned done,
    )
  where
    counted :
        (l : List ArchiveEntry)
        → (is_nil l || ltb maximum_save_entries (length l)) ≡ false
        → (1 ≤ length l) × (length l ≤ maximum_save_entries)
    counted [] k = cc
    counted (e ∷ l) k = (omega arith, ground arith)
