-- ===== src/Saves/Archive/Loop.antt =====
-- What one round of ValidateSaveArchive's loop, and the whole loop, leave behind when they return
-- no error.
use plexus_controller.Common.{
  Text, text_eq_iff, ◌+◌, ◌≡◌, refl, ◌⊎◌, inl, inr, Bool, true, false, ◌&&◌, ◌||◌, not, Option,
  none, some, [], ◌∷◌, ◌++◌, arith, Bool-cases,
}
use plexus_controller.Saves.Paths.{path_base}
use plexus_controller.Saves.Archive.{
  ArchiveEntry, ok, Scan, mem_text, exceeds, size_of, splits, is_level, is_level_init, found, place,
  scan_file, scan_entry, unsafe_archive_path, factorio_save_root,
}

-- A file, not a directory, whose base name is one of the two required names.
abbrev pub is_required : ArchiveEntry → Bool
is_required e = not e.directory && (is_level (path_base e.name) || is_level_init (path_base e.name))

place_lem :
    (s : Scan) (base : Text) (o : Option Text) {s' : Scan}
    → place s base o ≡ ok s'
    → (root : Text) × (o ≡ some root) × (s' ≡ found s base root) × (splits s.save_root root ≡ false)
place_lem s base none h = cc
place_lem s base (some root) h = (root, refl, ground arith, ground arith)

-- What a round adds to the state.
pub record Round (s : Scan) (e : ArchiveEntry) (s' : Scan) : Type 0 where
  pub safe : unsafe_archive_path e.name ≡ false
  pub fresh : mem_text e.name s.seen ≡ false
  pub fits : exceeds e.uncompressed_bytes s.expanded_bytes ≡ false
  pub seen : s'.seen ≡ e.name ∷ s.seen
  pub names : s'.entry_names ≡ s.entry_names ++ e.name ∷ []
  pub size : s'.expanded_bytes ≡ s.expanded_bytes + size_of e.uncompressed_bytes

pub scan_entry-Round :
    (s : Scan) (e : ArchiveEntry) {s' : Scan} → scan_entry s e ≡ ok s' → Round s e s'
unfolding scan_entry scan_file
scan_entry-Round s e h = ground arith

-- The state that a round enters before it looks at the base name.
abbrev entered : Scan → ArchiveEntry → Scan
entered s e = record s {
  seen = e.name ∷ s.seen;
  entry_names = s.entry_names ++ e.name ∷ [];
  expanded_bytes = s.expanded_bytes + size_of e.uncompressed_bytes;
}

scan_file_lem :
    (s : Scan) (name : Text) {s' : Scan}
    → scan_file s name ≡ ok s'
    → (is_level (path_base name) || is_level_init (path_base name)) ≡ true
    → (root : Text) × (factorio_save_root name (path_base name) ≡ some root)
      × (s' ≡ found s (path_base name) root)
      × (splits s.save_root root ≡ false)
unfolding scan_file
scan_file_lem s name h r =
    place_lem s (path_base name) (factorio_save_root name (path_base name)) (ground arith)

-- A round either leaves the root and the two flags alone, or places a required file.
scan_entry-cases :
    (s : Scan) (e : ArchiveEntry) {s' : Scan}
    → scan_entry s e ≡ ok s'
    → ((is_required e ≡ false) × (s' ≡ entered s e))
      ⊎ ((is_required e ≡ true) × (scan_file (entered s e) e.name ≡ ok s'))
unfolding scan_entry
scan_entry-cases s e h = elim (Bool-cases (is_required e)) [
  | inl r ↦ inr (r, ground arith)
  | inr r ↦ inl (r, unfold scan_file in ground arith)
]

-- A root that is set stays as it is.
pub scan_entry-kept :
    (s : Scan) (e : ArchiveEntry) (root : Text) {s' : Scan}
    → scan_entry s e ≡ ok s'
    → s.save_root ≡ some root
    → s'.save_root ≡ some root
scan_entry-kept s e root h set = elim (scan_entry-cases s e h) [
  | inl (_, same) ↦ ground arith
  | inr (r, placed) ↦
      let (root', _, same, one) = scan_file_lem (entered s e) e.name placed (ground arith) in
      ground (arith, text_eq_iff root' root)
]

-- A required file is placed under the root.
pub scan_entry-placed :
    (s : Scan) (e : ArchiveEntry) {s' : Scan}
    → scan_entry s e ≡ ok s'
    → is_required e ≡ true
    → (root : Text) × (s'.save_root ≡ some root)
      × (factorio_save_root e.name (path_base e.name) ≡ some root)
scan_entry-placed s e h r = elim (scan_entry-cases s e h) [
  | inl (not_r, _) ↦ absurd (ground arith)
  | inr (_, placed) ↦
      let (root, cut, same, _) = scan_file_lem (entered s e) e.name placed (ground arith) in
      (root, ground arith, cut)
]

pub scan_entry-level :
    (s : Scan) (e : ArchiveEntry) {s' : Scan}
    → scan_entry s e ≡ ok s'
    → s'.level ≡ true
    → (s.level ≡ true) ⊎ ((e.directory ≡ false) × (is_level (path_base e.name) ≡ true))
unfolding scan_entry scan_file
scan_entry-level s e h l = ground arith

pub scan_entry-level_init :
    (s : Scan) (e : ArchiveEntry) {s' : Scan}
    → scan_entry s e ≡ ok s'
    → s'.level_init ≡ true
    → (s.level_init ≡ true) ⊎ ((e.directory ≡ false) × (is_level_init (path_base e.name) ≡ true))
unfolding scan_entry scan_file
scan_entry-level_init s e h l = ground arith
