-- ===== src/Saves/Paths.antt =====
-- The functions of Go's package path, and the byte-level tests, that the validators of archive
-- entries call. Paths are lists of code points; "/" is the only separator.
use mathlib.Core.List.{map}
use plexus_controller.Common.{
  Text, codes, text_eq, contains_char, ℕ, ◌+◌, Bool, false, ◌&&◌, not, Option, none, some, [], ◌∷◌,
  ◌==◌, if◌then◌else◌, is_nil, is_upper, trim_right,
}

abbrev pub is_slash : ℕ → Bool
is_slash c = c == b'/'

-- path.IsAbs
abbrev pub is_abs : Text → Bool
is_abs [] = false
is_abs (c ∷ s) = is_slash c

-- path.Ext: from the last dot of the last element on.
unfoldable pub path_ext : Text → Text
unfolding contains_char
path_ext [] = []
path_ext (c ∷ s) =
    let rest = path_ext s in
    if not (is_nil rest)
    then rest
    else if c == b'.' && not (contains_char b'/' s)
    then c ∷ s
    else []

-- The text behind the last slash, the whole text if there is none.
unfoldable pub after_last_slash : Text → Text
unfolding contains_char
after_last_slash [] = []
after_last_slash (c ∷ s) =
    let rest = after_last_slash s in
    if is_slash c && not (contains_char b'/' s)
    then s
    else if contains_char b'/' s
    then rest
    else c ∷ s

abbrev base_of : Text → Text
base_of stripped = if is_nil stripped then codes "/" else after_last_slash stripped

-- path.Base
unfoldable pub path_base : Text → Text
unfolding after_last_slash trim_right
path_base name = if is_nil name then codes "." else base_of (trim_right is_slash name)

abbrev pub ascii_lower : ℕ → ℕ
ascii_lower c = if is_upper c then c + 32 else c

-- strings.EqualFold with ".zip"; no letter beyond ASCII folds to one of it.
unfoldable pub is_zip_ext : Text → Bool
unfolding text_eq
is_zip_ext ext = text_eq (map ascii_lower ext) (codes ".zip")

-- strings.CutSuffix
unfoldable pub cut_suffix : Text → Text → Option Text
unfolding text_eq
cut_suffix [] suffix = if is_nil suffix then some [] else none
cut_suffix (c ∷ s) suffix =
    let rest = cut_suffix s suffix in
    if text_eq (c ∷ s) suffix
    then some []
    else elim rest [ none ↦ none | some front ↦ some (c ∷ front) ]
