-- ===== src/Naming/Revision.antt =====
-- internal/controller: revisionScopedResourceName and the names built with it (runtimeConfigMapName,
-- runtimeSecretName, diskJobName). `digest_hex` stands for the first four bytes of crypto/sha256 in
-- hexadecimal. Lengths are in bytes; the names of GameServers are ASCII, where a byte is a character.
pub mod Bounded
pub mod Distinct
use mathlib.Core.List.{map}
use plexus_controller.Common.{
  Text, codes, text_eq, byte_len, trim_right, ℕ, ◌+◌, ◌-◌, Bool, ◌&&◌, Option, none, some, List, [],
  ◌∷◌, ◌++◌, ltb, leb, ◌==◌, if◌then◌else◌, take,
}
use plexus_controller.Common.Decimal.{decimal}
use plexus_controller.Naming.Slug.{is_hyphen}

-- strings.ReplaceAll(name, ".", "-")
abbrev pub dot_to_hyphen : ℕ → ℕ
dot_to_hyphen c = if c == b'.' then b'-' else c

-- normalized[:maxPrefixLength] where `used` bytes are taken by the hash and the suffix. The slice
-- expression panics on a negative bound, which is `none`.
abbrev pub cut_prefix : Text → ℕ → Option Text
cut_prefix normalized used =
    if ltb 63 used
    then none
    else some
        (if ltb (63 - used) (byte_len normalized) then take (63 - used) normalized else normalized)

abbrev pub hashed_name : Option Text → Text → Text → Option Text
hashed_name none hash_suffix suffix = none
hashed_name (some normalized) hash_suffix suffix =
    some (trim_right is_hyphen normalized ++ (hash_suffix ++ suffix))

module _ (digest_hex : Text → Text) where
  unfoldable pub revision_scoped_resource_name : Text → Text → Option Text
  unfolding text_eq byte_len trim_right
  revision_scoped_resource_name name suffix =
      let normalized = map dot_to_hyphen name in
      let hash_suffix = b'-' ∷ digest_hex name in
      if text_eq normalized name && leb (byte_len (normalized ++ suffix)) 63
      then some (normalized ++ suffix)
      else hashed_name (cut_prefix normalized (byte_len hash_suffix + byte_len suffix)) hash_suffix
          suffix

  unfoldable pub runtime_config_map_name : Text → ℕ → Option Text
  unfolding revision_scoped_resource_name decimal
  runtime_config_map_name name generation =
      revision_scoped_resource_name name (codes "-config-g" ++ decimal generation)

  unfoldable pub runtime_secret_name : Text → ℕ → ℕ → Option Text
  unfolding revision_scoped_resource_name decimal
  runtime_secret_name name generation revision =
      revision_scoped_resource_name name
        (codes "-runtime-g" ++ (decimal generation ++ (codes "-r" ++ decimal revision)))

  unfoldable pub disk_job_name : Text → Option Text
  unfolding revision_scoped_resource_name
  disk_job_name name = revision_scoped_resource_name name (codes "-disk")
