-- ===== src/Naming/Slug/Output.antt =====
-- What dns1123Slug returns: a slug of at most `max` bytes, whatever the text.
use mathlib.Core.List.{map}
use plexus_controller.Common.{
  Text, trim_left, trim_right, trim_space, byte_len, ℕ, ◌≤◌, ◌<◌, ◌≡◌, refl, inl, inr, Bool, true,
  false, ◌&&◌, ◌||◌, [], ◌∷◌, ◌++◌, arith, ltb, Bool-cases, length, take, is_nil, length-take,
}
use plexus_controller.Naming.Slug.{
  Builder, is_hyphen, slug_step, slug_loop, empty_builder, cut_slug, to_lower, dns1123_slug,
}
use plexus_controller.Naming.Slug.Canonical.{
  Canon, ends, IsSlug, Canon-snoc, ends-snoc, Canon-take, Canon-trim_right, ends-trim_right,
  trim_left_of_Canon, byte_len_of_Canon,
}

-- Between two rounds the builder holds a canonical text, and knows how it ends.
record Inv (b : Builder) : Type 0 where
  canon : Canon true b.out
  known : ends true b.out ≡ (is_nil b.out || b.last_hyphen)

is_nil-snoc : (s : Text) (x : ℕ) → is_nil (s ++ x ∷ []) ≡ false
is_nil-snoc [] x = refl
is_nil-snoc (c ∷ s) x = refl

slug_step-Inv : (b : Builder) (r : ℕ) → Inv b → Inv (slug_step b r)
unfolding slug_step
slug_step-Inv b r h = ground (
  arith,
  Canon-snoc true b.out r h.canon,
  Canon-snoc true b.out b'-' h.canon refl,
  ends-snoc true b.out r,
  ends-snoc true b.out b'-',
  is_nil-snoc b.out r,
  is_nil-snoc b.out b'-',
)

slug_loop-Inv : (b : Builder) (s : Text) → Inv b → Inv (slug_loop b s)
unfolding slug_loop
slug_loop-Inv b [] h = h
slug_loop-Inv b (r ∷ rs) h = slug_loop-Inv (slug_step b r) rs (slug_step-Inv b r h)

trim-IsSlug : (s : Text) → Canon true s → IsSlug (trim_right is_hyphen (trim_left is_hyphen s))
trim-IsSlug s h = rw (trim_left_of_Canon s h) (Canon-trim_right true s h, ends-trim_right s)

length-trim_right : (p : ℕ → Bool) (s : Text) → length (trim_right p s) ≤ length s
unfolding trim_right
length-trim_right p [] = omega arith
length-trim_right p (c ∷ s) = ground (arith, length-trim_right p s)

cut_slug-IsSlug : (s : Text) (bound : ℕ) → IsSlug s → IsSlug (cut_slug s bound)
unfolding cut_slug
cut_slug-IsSlug s bound h = elim (Bool-cases (ltb 0 bound && ltb bound (byte_len s))) [
  | inl e ↦ rw e (
    Canon-trim_right true (take bound s) (Canon-take bound true s h.0),
    ends-trim_right (take bound s),
  )
  | inr e ↦ rw e h
]

byte_len-cut_slug :
    (s : Text) (bound : ℕ) → IsSlug s → 0 < bound → byte_len (cut_slug s bound) ≤ bound
byte_len-cut_slug s bound h pos =
    rw (byte_len_of_Canon true (cut_slug s bound) (cut_slug-IsSlug s bound h).0) short
  where
    short : length (cut_slug s bound) ≤ bound
    short =
        unfold cut_slug in
        ground (
          arith,
          length-trim_right is_hyphen (take bound s),
          length-take bound s,
          byte_len_of_Canon true s h.0,
        )

module _ (lower_high : ℕ → ℕ) where
  pub dns1123_slug-IsSlug :
      (value : Text) (bound : ℕ) → IsSlug (dns1123_slug lower_high value bound)
  unfolding dns1123_slug
  dns1123_slug-IsSlug value bound = cut_slug-IsSlug _ bound (
      trim-IsSlug _
        (slug_loop-Inv empty_builder (map (to_lower lower_high) (trim_space value))
          (record { canon = tt; known = refl })).canon)

  pub byte_len-dns1123_slug :
      (value : Text) (bound : ℕ)
      → 0 < bound
      → byte_len (dns1123_slug lower_high value bound) ≤ bound
  unfolding dns1123_slug
  byte_len-dns1123_slug value bound pos =
      byte_len-cut_slug _ bound
        (trim-IsSlug _
          (slug_loop-Inv empty_builder (map (to_lower lower_high) (trim_space value))
            (record { canon = tt; known = refl })).canon)
        pos
