-- ===== src/Saves/Examples.antt =====
-- Runs of the validator of save archives.
use plexus_controller.Common.{
  Text, text_eq, has_prefix, contains_char, split_on, codes, ◌≡◌, refl, true, false, [], ◌∷◌, List,
}
use plexus_controller.Common.Int.{pos}
use plexus_controller.Saves.Archive.{
  ArchiveEntry, ok, err, unsafe_entry, missing_required, split_roots, validate_save_archive,
  scan_entries, scan_entry, scan_file, unsafe_archive_path, unsafe_components,
  windows_drive_absolute_path, factorio_save_root, under_root, mem_text, outside_root, not_zip,
}
use plexus_controller.Saves.Archive.Spec.{IsSave}
use plexus_controller.Saves.Archive.Sound.{IsUpload, validate_save_archive_sound}
use plexus_controller.Saves.Paths.{path_base, path_ext, is_zip_ext, cut_suffix}
use Prim.Native.String.{String}
use Prim.Native.Nat.{ℕ}

abbrev file : String → ℕ → ArchiveEntry
file name size = record { name = codes name; uncompressed_bytes = pos size; directory = false }

abbrev good : List ArchiveEntry
good =
    record { name = codes "world/"; uncompressed_bytes = pos 0; directory = true }
    ∷ file "world/level.dat" 10
    ∷ file "world/level-init.dat" 20
    ∷ file "world/lib/x" 1
    ∷ []

-- What a run computes with.
run : Unit {0}
unfolding validate_save_archive scan_entries scan_entry scan_file unsafe_archive_path
    unsafe_components windows_drive_absolute_path factorio_save_root under_root mem_text path_base
    path_ext is_zip_ext cut_suffix text_eq has_prefix contains_char split_on
run = tt

validate_tests :
    (validate_save_archive (codes "a/b.ZIP") (codes "application/zip") (pos 9) good ≡ ok tt)
    × (validate_save_archive (codes "b.tar") (codes "application/zip") (pos 9) good ≡ err not_zip)
    × (validate_save_archive
          (codes "b.zip")
          (codes "application/zip")
          (pos 9)
          (file "w/../level.dat" 1 ∷ good)
        ≡ err unsafe_entry)
    × (validate_save_archive
          (codes "b.zip")
          (codes "application/zip")
          (pos 9)
          (file "w\\level.dat" 1 ∷ good)
        ≡ err unsafe_entry)
    × (validate_save_archive
          (codes "b.zip")
          (codes "application/zip")
          (pos 9)
          (file "C:/level.dat" 1 ∷ good)
        ≡ err unsafe_entry)
    × (validate_save_archive
          (codes "b.zip")
          (codes "application/zip")
          (pos 9)
          (file "other/level.dat" 1 ∷ good)
        ≡ err split_roots)
    × (validate_save_archive
          (codes "b.zip")
          (codes "application/zip")
          (pos 9)
          (file "other/x" 1 ∷ good)
        ≡ err outside_root)
    × (validate_save_archive
          (codes "b.zip")
          (codes "application/zip")
          (pos 9)
          (file "level.dat" 1 ∷ [])
        ≡ err missing_required)
unfolding run
validate_tests = (refl, refl, refl, refl, refl, refl, refl, refl)

validate_save_archive_sound_example :
    IsUpload (codes "b.zip") (codes "application/zip") (pos 9) good
    × ((root : Text) × IsSave good root)
unfolding run
validate_save_archive_sound_example =
    validate_save_archive_sound (codes "b.zip") (codes "application/zip") (pos 9) good refl
