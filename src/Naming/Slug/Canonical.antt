-- ===== src/Naming/Slug/Canonical.antt =====
-- The form that dns1123Slug brings a text to: the characters of a DNS-1123 label, no hyphen at
-- either end, no two hyphens in a row.
use plexus_controller.Common.{
  if◌then◌else◌, Text, byte_len, rune_len, trim_left, trim_right, is_nil, ℕ, zero, suc, ◌≡◌, refl,
  Bool, true, false, ◌&&◌, ◌||◌, [], ◌∷◌, ◌++◌, length, take, arith, Bool-cases, inl, inr,
}
use plexus_controller.Naming.Slug.{is_hyphen, is_alnum}

-- A lower-case letter, a digit or a hyphen.
abbrev pub is_slug_char : ℕ → Bool
is_slug_char c = is_alnum c || is_hyphen c

-- Slug characters only, and a hyphen only where the character before is none; `prev` says whether
-- the character before the text is taken for a hyphen.
abbrev pub Canon : Bool → Text → Type 0
Canon prev [] = Unit
Canon prev (c ∷ s) =
    (is_slug_char c ≡ true) × ((is_hyphen c && prev) ≡ false) × Canon (is_hyphen c) s

-- Whether the last character is a hyphen; `prev` answers for the empty text.
abbrev pub ends : Bool → Text → Bool
ends prev [] = prev
ends prev (c ∷ s) = ends (is_hyphen c) s

-- A possibly empty slug.
abbrev pub IsSlug : Text → Type 0
IsSlug s = Canon true s × (ends false s ≡ false)

pub Canon-weaken : (s : Text) → Canon true s → Canon false s
Canon-weaken [] h = tt
Canon-weaken (c ∷ s) (p, q, h) = (p, ground arith, h)

pub Canon-snoc :
    (prev : Bool) (s : Text) (x : ℕ)
    → Canon prev s
    → is_slug_char x ≡ true
    → (is_hyphen x && ends prev s) ≡ false
    → Canon prev (s ++ x ∷ [])
Canon-snoc prev [] x h p q = (p, q, tt)
Canon-snoc prev (c ∷ s) x (a, b, h) p q = (a, b, Canon-snoc (is_hyphen c) s x h p q)

pub ends-snoc : (prev : Bool) (s : Text) (x : ℕ) → ends prev (s ++ x ∷ []) ≡ is_hyphen x
ends-snoc prev [] x = refl
ends-snoc prev (c ∷ s) x = ends-snoc (is_hyphen c) s x

pub Canon-take : (n : ℕ) (prev : Bool) (s : Text) → Canon prev s → Canon prev (take n s)
Canon-take zero prev s h = tt
Canon-take (suc n) prev [] h = tt
Canon-take (suc n) prev (c ∷ s) (p, q, h) = (p, q, Canon-take n (is_hyphen c) s h)

pub Canon-trim_right : (prev : Bool) (s : Text) → Canon prev s → Canon prev (trim_right is_hyphen s)
unfolding trim_right
Canon-trim_right prev [] h = tt
Canon-trim_right prev (c ∷ s) (p, q, h) =
    elim (Bool-cases (is_hyphen c && is_nil (trim_right is_hyphen s))) [
      | inl e ↦ rw e tt
      | inr e ↦ rw e (p, q, Canon-trim_right (is_hyphen c) s h)
    ]

-- Trimming hyphens on the right leaves none at the end.
pub ends-trim_right : (s : Text) → ends false (trim_right is_hyphen s) ≡ false
unfolding trim_right
ends-trim_right [] = refl
ends-trim_right (c ∷ s) = go (trim_right is_hyphen s) (ends-trim_right s)
  where
    go :
        (rest : Text)
        → ends false rest ≡ false
        → ends false (if is_hyphen c && is_nil rest then [] else c ∷ rest) ≡ false
    go [] h = ground arith
    go (d ∷ rest) h = elim (Bool-cases (is_hyphen c)) [ inl e ↦ rw e h | inr e ↦ rw e h ]

pub trim_right_of_ends : (s : Text) → ends false s ≡ false → trim_right is_hyphen s ≡ s
unfolding trim_right
trim_right_of_ends [] h = refl
trim_right_of_ends (c ∷ []) h = ground arith
trim_right_of_ends (c ∷ d ∷ s) h = rw (trim_right_of_ends (d ∷ s) h) (ground arith)

pub trim_left_of_Canon : (s : Text) → Canon true s → trim_left is_hyphen s ≡ s
unfolding trim_left
trim_left_of_Canon [] h = refl
trim_left_of_Canon (c ∷ s) h = ground arith

pub byte_len_of_Canon : (prev : Bool) (s : Text) → Canon prev s → byte_len s ≡ length s
unfolding byte_len rune_len
byte_len_of_Canon prev [] h = refl
byte_len_of_Canon prev (c ∷ s) (p, q, h) = ground (arith, byte_len_of_Canon (is_hyphen c) s h)
