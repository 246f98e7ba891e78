-- ===== src/Mods/Version.antt =====
-- pkg/gamemanagement/factorio/v1/mods.go: versions.
-- The library functions strings.Fields and strconv.Atoi are defined here.
use plexus_controller.Common.{
  Text, codes, text_eq, split_on, is_space, is_digit, ℕ, zero, suc, ◌^◌, Bool, true, false, ◌||◌,
  not, Option, none, some, List, [], ◌∷◌, ltb, leb, ◌==◌, if◌then◌else◌, is_nil, all,
}
use plexus_controller.Common.Decimal.{number_from, has_leading_zero}
use plexus_controller.Common.Int.{ℤ, pos, negsuc}

-- The word in front of the first space, and the words behind it.
unfoldable pub pieces : Text → Text × List Text
pieces [] = ([], [])
pieces (c ∷ s) = spaced (is_space c) c (pieces s)
  where
    flushed : Text × List Text → List Text
    flushed ([], words) = words
    flushed (d ∷ word, words) = (d ∷ word) ∷ words

    spaced : Bool → ℕ → Text × List Text → Text × List Text
    spaced true d later = ([], flushed later)
    spaced false d (word, words) = (d ∷ word, words)

-- strings.Fields
unfoldable pub fields : Text → List Text
fields s = words (pieces s)
  where
    words : Text × List Text → List Text
    words ([], rest) = rest
    words (c ∷ word, rest) = (c ∷ word) ∷ rest

-- strconv.Atoi of digits, of which the sign is known.
unfoldable pub digits_value : Bool → Text → Option ℤ
digits_value negative digits =
    if is_nil digits || not (all is_digit digits)
    then none
    else signed negative (number_from 0 digits)
  where
    below : ℕ → ℤ
    below zero = pos 0
    below (suc n) = negsuc n

    signed : Bool → ℕ → Option ℤ
    signed false n = if ltb n (2 ^ 63) then some (pos n) else none
    signed true n = if leb n (2 ^ 63) then some (below n) else none

-- strconv.Atoi
unfoldable pub atoi : Text → Option ℤ
atoi [] = none
atoi (c ∷ s) =
    if c == b'-'
    then digits_value true s
    else if c == b'+'
    then digits_value false s
    else digits_value false (c ∷ s)

pub record Version : Type 0 where
  pub major : ℕ
  pub minor : ℕ
  pub patch : ℕ

abbrev pub natural : Option ℤ → Option ℕ
natural none = none
natural (some (pos n)) = some n
natural (some (negsuc n)) = none

unfoldable pub version_part : Text → Option ℕ
version_part part = if is_nil part || has_leading_zero part then none else natural (atoi part)

abbrev pub version_of : Option ℕ → Option ℕ → Option ℕ → Option Version
version_of (some major) (some minor) (some patch) =
    some (record { major = major; minor = minor; patch = patch })
version_of _ _ _ = none

abbrev pub version_of_parts : List Text → Option Version
version_of_parts (a ∷ b ∷ []) = version_of (version_part a) (version_part b) (some 0)
version_of_parts (a ∷ b ∷ c ∷ []) = version_of (version_part a) (version_part b) (version_part c)
version_of_parts _ = none

unfoldable pub parse_factorio_version : Text → Option Version
parse_factorio_version value = version_of_parts (split_on b'.' value)

-- The local variable `comparison`: -1, 0 or 1.
pub data Comparison : Type 0 where
  less equal greater : Comparison

abbrev pub compare_part : ℕ → ℕ → Comparison → Comparison
compare_part runtime wanted later =
    if ltb runtime wanted then less else if ltb wanted runtime then greater else later

unfoldable pub compare_versions : Version → Version → Comparison
compare_versions runtime wanted =
    compare_part runtime.major wanted.major
      (compare_part runtime.minor wanted.minor (compare_part runtime.patch wanted.patch equal))

abbrev is_less : Comparison → Bool
is_less less = true
is_less _ = false

abbrev is_equal : Comparison → Bool
is_equal equal = true
is_equal _ = false

abbrev is_greater : Comparison → Bool
is_greater greater = true
is_greater _ = false

-- The switch on the operator; `none` is an error.
unfoldable pub satisfies : Text → Comparison → Option Bool
satisfies operator comparison =
    if text_eq operator (codes "<")
    then some (is_less comparison)
    else if text_eq operator (codes "<=")
    then some (not (is_greater comparison))
    else if text_eq operator (codes "=")
    then some (is_equal comparison)
    else if text_eq operator (codes ">=")
    then some (not (is_less comparison))
    else if text_eq operator (codes ">")
    then some (is_greater comparison)
    else none

abbrev pub versions_match : Text → Option Version → Option Version → Option Bool
versions_match operator (some runtime) (some wanted) =
    satisfies operator (compare_versions runtime wanted)
versions_match operator _ _ = none

unfoldable pub dependency_version_matches : Text → Text → Text → Option Bool
dependency_version_matches runtime operator wanted =
    versions_match operator (parse_factorio_version runtime) (parse_factorio_version wanted)
