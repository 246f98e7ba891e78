-- ===== src/Common/Strings.antt =====
-- Go strings as lists of code points, with the functions of the packages strings, unicode and utf8
-- that the program calls. `byte_len` is Go's `len`: the bytes of the UTF-8 encoding.
use Prim.Native.Nat.{ℕ, ◌+◌, ◌≤◌}
use Prim.Native.Char.{code}
use Prim.Native.String.{String}
use mathlib.Core.Path.{◌≡◌, refl}
use mathlib.Core.Logic.{◌↔◌}
use mathlib.Core.Bool.{Bool, true, false, ◌&&◌, ◌||◌}
use mathlib.Core.List.{List, [], ◌∷◌}
use native.Mathlib.Omega.{arith}
use plexus_controller.Common.Tests.{ltb, leb, ◌==◌, if◌then◌else◌}
use plexus_controller.Common.Lists.{length, is_nil}

abbrev pub Text : Type 0
Text = List ℕ

-- A literal of the source.
abbrev pub codes : String → Text
codes String.[] = []
codes (String.◌∷◌ c s) = code c ∷ codes s

unfoldable pub text_eq : Text → Text → Bool
text_eq [] [] = true
text_eq (a ∷ s) (b ∷ t) = a == b && text_eq s t
text_eq [] (_ ∷ _) = false
text_eq (_ ∷ _) [] = false

pub text_eq_iff : (s t : Text) → (text_eq s t ≡ true) ↔ (s ≡ t)
unfolding text_eq
text_eq_iff [] [] = ((λ h. refl), (λ h. refl))
text_eq_iff [] (b ∷ t) = ((λ h. cc), (λ h. cc))
text_eq_iff (a ∷ s) [] = ((λ h. cc), (λ h. cc))
text_eq_iff (a ∷ s) (b ∷ t) =
    ((λ h. ground (arith, text_eq_iff s t)), (λ h. ground (arith, text_eq_iff s t)))

pub text_eq_self : (s : Text) → text_eq s s ≡ true
text_eq_self s = (text_eq_iff s s).1 refl

abbrev pub is_empty : Text → Bool
is_empty = is_nil

-- strings.HasPrefix
unfoldable pub has_prefix : Text → Text → Bool
has_prefix s [] = true
has_prefix [] (_ ∷ _) = false
has_prefix (a ∷ s) (b ∷ p) = a == b && has_prefix s p

-- strings.Contains; a prefix at some position
unfoldable pub contains : Text → Text → Bool
unfolding has_prefix
contains [] p = is_nil p
contains (a ∷ s) p = has_prefix (a ∷ s) p || contains s p

-- strings.ContainsRune
unfoldable pub contains_char : ℕ → Text → Bool
contains_char c [] = false
contains_char c (a ∷ s) = a == c || contains_char c s

abbrev pub cons_head : ℕ → List Text → List Text
cons_head c [] = (c ∷ []) ∷ []
cons_head c (part ∷ parts) = (c ∷ part) ∷ parts

-- strings.Split at a single character
unfoldable pub split_on : ℕ → Text → List Text
split_on c [] = [] ∷ []
split_on c (a ∷ s) = let rest = split_on c s in if a == c then [] ∷ rest else cons_head a rest

-- strings.TrimLeftFunc
unfoldable pub trim_left : (ℕ → Bool) → Text → Text
trim_left p [] = []
trim_left p (a ∷ s) = let rest = trim_left p s in if p a then rest else a ∷ s

-- strings.TrimRightFunc
unfoldable pub trim_right : (ℕ → Bool) → Text → Text
trim_right p [] = []
trim_right p (a ∷ s) = let rest = trim_right p s in if p a && is_nil rest then [] else a ∷ rest

-- unicode.IsSpace: U+0085 and U+00A0 beside the ASCII spaces, and the White_Space property above.
unfoldable pub is_space : ℕ → Bool
is_space c =
    (leb 9 c && leb c 13)
    || c == 32
    || c == 0x85
    || c == 0xA0
    || c == 0x1680
    || (leb 0x2000 c && leb c 0x200a)
    || c == 0x2028
    || c == 0x2029
    || c == 0x202f
    || c == 0x205f
    || c == 0x3000

-- strings.TrimSpace
unfoldable pub trim_space : Text → Text
unfolding trim_left trim_right is_space
trim_space s = trim_right is_space (trim_left is_space s)

-- The number of bytes of one code point in UTF-8.
unfoldable pub rune_len : ℕ → ℕ
rune_len c = if ltb c 0x80 then 1 else if ltb c 0x800 then 2 else if ltb c 0x10000 then 3 else 4

unfoldable pub byte_len : Text → ℕ
unfolding rune_len
byte_len [] = 0
byte_len (c ∷ s) = rune_len c + byte_len s

pub length-le-byte_len : (s : Text) → length s ≤ byte_len s
unfolding byte_len
length-le-byte_len [] = omega arith
length-le-byte_len (c ∷ s) = ground (arith, length-le-byte_len s)

abbrev pub is_digit : ℕ → Bool
is_digit c = leb b'0' c && leb c b'9'

abbrev pub is_lower : ℕ → Bool
is_lower c = leb b'a' c && leb c b'z'

abbrev pub is_upper : ℕ → Bool
is_upper c = leb b'A' c && leb c b'Z'
