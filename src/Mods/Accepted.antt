-- ===== src/Mods/Accepted.antt =====
-- pkg/gamemanagement/factorio/v1/mods.go: what ValidateModArchive makes sure of.
use plexus_controller.Common.{
  Text, codes, text_eq, text_eq_iff, trim_space, ℕ, ◌+◌, ◌≤◌, ◌<◌, ◌≡◌, refl, inl, inr, true, false,
  Option, none, some, List, [], ◌∷◌, ◌++◌, ◌*◌, ◌/◌, ◌%◌, ◌^◌, arith, length, All,
}
use plexus_controller.Mods.Dependency.{ModRelease, ModError}
use plexus_controller.Mods.Release.{IsSound, validate_mod_release-IsSound}
use plexus_controller.Mods.Archive.{
  ModEntry, ModInfo, ModScan, Scanned, scanned, refused, mode_refused, scan_mod_entries,
  maximum_mod_expanded_bytes, maximum_mod_archive_bytes, maximum_mod_archive_entries,
  validate_mod_info, check_info, on_info, on_scanned, root_of_release, first_scan, on_entries,
  on_release, validate_mod_archive, join,
}
use plexus_controller.Mods.Scanned.{
  total_bytes, IsContained, HaveOwnPaths, HasInfo, IsRun, IsRun-of_scan,
}

module _ (unzip : List ℕ → Option (List ModEntry)) (digest_hex : List ℕ → Text)
    (lower : Text → Text) (decode : List ℕ → Option ModInfo) where
  -- The info.json of the archive says of the mod what the release says.
  pub record IsIdentified (release : ModRelease) (entries : List ModEntry) : Type 0 where
    pub content : List ℕ
    pub info : ModInfo
    pub present : HasInfo (release.name ++ codes "_" ++ release.version) content entries
    pub decoded : decode content ≡ some info
    pub name : info.name ≡ release.name
    pub version : info.version ≡ release.version
    pub game : info.factorio ≡ release.game_version
    pub dependencies : join (0 ∷ []) info.dependencies ≡ join (0 ∷ []) release.dependencies

  pub record IsInstallable (release : ModRelease) (archive : List ℕ) (expected : Text)
      : Type 0 where
    pub sound : IsSound release
    pub size : (1 ≤ length archive) × (length archive ≤ maximum_mod_archive_bytes)
    pub digest : digest_hex archive ≡ lower (trim_space expected)
    pub entries : List ModEntry
    pub unzipped : unzip archive ≡ some entries
    pub count : length entries ≤ maximum_mod_archive_entries
    pub contained : All (IsContained (release.name ++ codes "_" ++ release.version)) entries
    pub own : HaveOwnPaths entries
    pub bytes : total_bytes entries ≤ maximum_mod_expanded_bytes
    pub identified : IsIdentified release entries

  IsIdentified-of_info :
      (release : ModRelease) (entries : List ModEntry) (content : List ℕ) (info : Option ModInfo)
      → HasInfo (release.name ++ codes "_" ++ release.version) content entries
      → decode content ≡ info
      → check_info unzip digest_hex lower decode release info ≡ none
      → IsIdentified release entries
  IsIdentified-of_info release entries content none present d h = cc
  IsIdentified-of_info release entries content (some info) present d h = record {
    content = content;
    info = info;
    present = present;
    decoded = d;
    name = (text_eq_iff info.name release.name).0 (ground arith);
    version = (text_eq_iff info.version release.version).0 (ground arith);
    game = (text_eq_iff info.factorio release.game_version).0 (ground arith);
    dependencies =
        (text_eq_iff (join (0 ∷ []) info.dependencies) (join (0 ∷ []) release.dependencies)).0
          (ground arith);
  }

  checked_info :
      (release : ModRelease) (content : List ℕ)
      → validate_mod_info unzip digest_hex lower decode content release ≡ none
      → check_info unzip digest_hex lower decode release (decode content) ≡ none
  unfolding validate_mod_info
  checked_info release content h = ground arith

  IsIdentified-of_run :
      (release : ModRelease) (entries : List ModEntry) (t : ModScan)
      → IsRun
          (root_of_release unzip digest_hex lower decode release)
          entries
          (first_scan unzip digest_hex lower decode)
          t
      → on_info unzip digest_hex lower decode release t.info ≡ none
      → IsIdentified release entries
  IsIdentified-of_run release entries t run h = elim run.info [
    | inl same ↦ cc (rw same at h)
    | inr (content, found, present) ↦
        IsIdentified-of_info release entries content _ present refl
          (checked_info release content (rw found at h))
  ]

  scan_of_accepted :
      (release : ModRelease) (x : Scanned)
      → on_scanned unzip digest_hex lower decode release x ≡ none
      → (t : ModScan) × (x ≡ scanned t)
        × (on_info unzip digest_hex lower decode release t.info ≡ none)
  scan_of_accepted release (scanned t) h = (t, refl, h)
  scan_of_accepted release (refused e) h = cc

  entries_of_accepted :
      (release : ModRelease) (found : Option (List ModEntry))
      → on_entries unzip digest_hex lower decode release found ≡ none
      → (entries : List ModEntry) × (found ≡ some entries)
        × (length entries ≤ maximum_mod_archive_entries)
        × (on_scanned unzip digest_hex lower decode release (
              scan_mod_entries
                (root_of_release unzip digest_hex lower decode release)
                entries
                (first_scan unzip digest_hex lower decode))
            ≡ none)
  entries_of_accepted release none h = cc
  entries_of_accepted release (some entries) h = (entries, refl, ground arith, ground arith)

  accepted_release :
      (e : Option ModError) (release : ModRelease) (archive : List ℕ) (expected : Text)
      → on_release unzip digest_hex lower decode e release archive expected ≡ none
      → (e ≡ none)
        × ((1 ≤ length archive) × (length archive ≤ maximum_mod_archive_bytes))
        × (text_eq (digest_hex archive) (lower (trim_space expected)) ≡ true)
        × (on_entries unzip digest_hex lower decode release (unzip archive) ≡ none)
  accepted_release (some e) release archive expected h = cc
  accepted_release none release archive expected h =
      (refl, ground arith, ground arith, ground arith)

  -- An archive that ValidateModArchive accepts belongs to a sound release, has the expected digest and a
  -- size of 1 to 900000 bytes; its entries have safe paths below the root, each its own, and at most
  -- 64 MiB of content; one of them is the info.json, which agrees with the release.
  pub validate_mod_archive-IsInstallable :
      (release : ModRelease) (archive : List ℕ) (expected : Text)
      → validate_mod_archive unzip digest_hex lower decode release archive expected ≡ none
      → IsInstallable release archive expected
  unfolding validate_mod_archive
  validate_mod_archive-IsInstallable release archive expected h =
      let start : 0 ≤ maximum_mod_expanded_bytes = omega arith in
      let (sound, size, digest, opened) = accepted_release _ release archive expected h in
      let (entries, unzipped, count, accepted) = entries_of_accepted release _ opened in
      let (t, end, info) = scan_of_accepted release _ accepted in
      let run = IsRun-of_scan _ entries _ t start end in
      record {
        sound = validate_mod_release-IsSound release sound;
        size = size;
        digest = (text_eq_iff (digest_hex archive) (lower (trim_space expected))).0 digest;
        entries = entries;
        unzipped = unzipped;
        count = count;
        contained = run.contained;
        own = run.own;
        bytes = ground (arith, run.bytes, run.bound);
        identified = IsIdentified-of_run release entries t run info;
      }

-- Whatever type the mode of an entry has, beside permissions and the bits from 19 on: the check for
-- regular files lets it pass.
pub mode_refused-typed :
    (permissions type : ℕ) → permissions < 4096 → mode_refused (permissions + type * 2 ^ 19) ≡ false
unfolding mode_refused
mode_refused-typed permissions type h =
    let clear : ((permissions + type * 2 ^ 19) / 4096) % 16 ≡ 0 = omega arith in rw clear refl
