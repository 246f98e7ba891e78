-- ===== src/Mods/Decimal.antt =====
-- pkg/gamemanagement/factorio/v1/mods.go: a version that is printed is read back.
use plexus_controller.Common.{
  Text, split_on, is_digit, ℕ, ◌^◌, ◌<◌, ◌≡◌, refl, ap, ◌∙◌, true, false, some, [], ◌∷◌, ◌++◌,
  arith, ◌==◌, is_nil, all, All, lt→ltb,
}
use plexus_controller.Common.Decimal.{
  decimal, number_from, number_from-decimal, decimal-digits, has_leading_zero,
  has_leading_zero-decimal,
}
use plexus_controller.Mods.Version.{
  Version, parse_factorio_version, version_part, atoi, digits_value, version_of_parts,
}

-- Splitting at a character that only stands between the parts.
pub split_on-free : (c : ℕ) (s : Text) → All (λ d. (d == c) ≡ false) s → split_on c s ≡ s ∷ []
unfolding split_on
split_on-free c [] h = refl
split_on-free c (d ∷ s) (e, h) = ground (arith, split_on-free c s h)

pub split_on-between :
    (c : ℕ) (s t : Text)
    → All (λ d. (d == c) ≡ false) s
    → split_on c (s ++ c ∷ t) ≡ s ∷ split_on c t
unfolding split_on
split_on-between c [] t h = ground arith
split_on-between c (d ∷ s) t (e, h) = ground (arith, split_on-between c s t h)

all_digits : (s : Text) → All (λ c. is_digit c ≡ true) s → all is_digit s ≡ true
all_digits [] h = refl
all_digits (c ∷ s) (e, h) = let ih = all_digits s h in ground (arith, e, ih)

no_dots : (s : Text) → All (λ c. is_digit c ≡ true) s → All (λ d. (d == b'.') ≡ false) s
no_dots [] h = tt
no_dots (c ∷ s) (e, h) = (ground (arith, e), no_dots s h)

-- A numeral without a leading zero.
part_value :
    (s : Text)
    → All (λ c. is_digit c ≡ true) s
    → is_nil s ≡ false
    → has_leading_zero s ≡ false
    → number_from 0 s < 2 ^ 63
    → version_part s ≡ some (number_from 0 s)
unfolding version_part atoi digits_value
part_value [] h e f small = cc
part_value (c ∷ s) (d, h) e f small =
    let digits = all_digits (c ∷ s) (d, h) in
    let minus : (c == b'-') ≡ false = ground (arith, d) in
    let plus : (c == b'+') ≡ false = ground (arith, d) in
    rw f (rw minus (rw plus (rw digits (rw (lt→ltb _ _ small) refl))))

decimal_part : (n : ℕ) → n < 2 ^ 63 → version_part (decimal n) ≡ some n
decimal_part n small =
    let (zero_free, filled) = has_leading_zero-decimal n in
    let value = number_from-decimal n in
    part_value (decimal n) (decimal-digits n) filled zero_free (rw value small) ∙ ap some value

abbrev pub print_version : Version → Text
print_version v = decimal v.major ++ b'.' ∷ (decimal v.minor ++ b'.' ∷ decimal v.patch)

printed_parts :
    (v : Version)
    → split_on b'.' (print_version v) ≡ decimal v.major ∷ decimal v.minor ∷ decimal v.patch ∷ []
printed_parts v =
    split_on-between b'.' (decimal v.major) _ (no_dots _ (decimal-digits v.major))
    ∙ ap (λ parts. decimal v.major ∷ parts)
        (split_on-between b'.' (decimal v.minor) _ (no_dots _ (decimal-digits v.minor))
          ∙ ap (λ parts. decimal v.minor ∷ parts)
              (split_on-free b'.' (decimal v.patch) (no_dots _ (decimal-digits v.patch))))

-- A version of three numbers below 2 ^ 63 that is printed in decimal is read back.
pub parse_factorio_version-print_version :
    (v : Version)
    → v.major < 2 ^ 63
    → v.minor < 2 ^ 63
    → v.patch < 2 ^ 63
    → parse_factorio_version (print_version v) ≡ some v
unfolding parse_factorio_version
parse_factorio_version-print_version v a b c =
    ap version_of_parts (printed_parts v)
    ∙ ground (arith, decimal_part v.major a, decimal_part v.minor b, decimal_part v.patch c)
