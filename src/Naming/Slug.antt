-- ===== src/Naming/Slug.antt =====
-- internal/controller/workload_name.go: dns1123Slug and customerNameSlug.
-- A string is its list of code points. `lower_high` stands for the table of unicode.ToLower above
-- ASCII, which is not part of the repository: every statement holds for each such table.
pub mod Canonical
pub mod Output
pub mod FixedPoint
use plexus_controller.Common.{
  Text, codes, text_eq, contains_char, trim_left, trim_right, trim_space, is_space, byte_len,
  is_nil, is_digit, is_lower, is_upper, ℕ, ◌+◌, Bool, true, false, ◌&&◌, ◌||◌, List, [], ◌∷◌, ◌++◌,
  ltb, ◌==◌, if◌then◌else◌, take,
}
use mathlib.Core.List.{map}

abbrev pub workload_name_slug_max : ℕ
workload_name_slug_max = 16

abbrev pub workload_name_max : ℕ
workload_name_max = 63

-- The strings.Builder of the loop, with the local `lastHyphen`.
pub record Builder : Type 0 where
  pub out : Text
  pub last_hyphen : Bool

abbrev pub is_hyphen : ℕ → Bool
is_hyphen c = c == b'-'

-- The runes of the first and of the second case of the switch.
abbrev pub is_alnum : ℕ → Bool
is_alnum r = is_lower r || is_digit r

unfoldable pub is_separator : ℕ → Bool
unfolding is_space
is_separator r = r == b'-' || r == b'_' || r == b'.' || is_space r

-- One round of the loop of dns1123Slug.
unfoldable pub slug_step : Builder → ℕ → Builder
unfolding is_separator
slug_step b r =
    if is_alnum r
    then record { out = b.out ++ r ∷ []; last_hyphen = false }
    else if is_separator r
    then if is_nil b.out || b.last_hyphen
      then b
      else record { out = b.out ++ b'-' ∷ []; last_hyphen = true }
    else b

unfoldable pub slug_loop : Builder → Text → Builder
slug_loop b [] = b
slug_loop b (r ∷ rs) = slug_loop (slug_step b r) rs

abbrev pub empty_builder : Builder
empty_builder = record { out = []; last_hyphen = false }

-- The cut at `max`, for which 0 is no bound.
unfoldable pub cut_slug : Text → ℕ → Text
unfolding trim_right byte_len
cut_slug out max =
    if ltb 0 max && ltb max (byte_len out) then trim_right is_hyphen (take max out) else out

-- The text before the first `c`, all of it if there is none.
unfoldable pub before : ℕ → Text → Text
before c [] = []
before c (a ∷ s) = let rest = before c s in if a == c then [] else a ∷ rest

module _ (lower_high : ℕ → ℕ) where
  -- unicode.ToLower
  unfoldable pub to_lower : ℕ → ℕ
  to_lower c = if ltb c 128 then if is_upper c then c + 32 else c else lower_high c

  unfoldable pub dns1123_slug : Text → ℕ → Text
  unfolding to_lower trim_space slug_loop slug_step cut_slug trim_left trim_right
  dns1123_slug value max =
      let b = slug_loop empty_builder (map to_lower (trim_space value)) in
      cut_slug (trim_right is_hyphen (trim_left is_hyphen b.out)) max

  unfoldable pub customer_name_slug : Text → Text → Text
  unfolding dns1123_slug before
  customer_name_slug raw owner_user_id =
      let slug = dns1123_slug (before b'@' raw) workload_name_slug_max in
      let owner = dns1123_slug owner_user_id 32 in
      let short = if ltb 8 (byte_len owner) then take 8 owner else owner in
      if is_nil slug then dns1123_slug (b'u' ∷ short) workload_name_slug_max else slug
