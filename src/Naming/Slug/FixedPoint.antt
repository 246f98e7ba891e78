-- ===== src/Naming/Slug/FixedPoint.antt =====
-- dns1123Slug leaves a slug that is short enough as it is.
use mathlib.Core.List.{map}
use plexus_controller.Common.{
  Text, trim_left, trim_right, is_space, trim_space, byte_len, ℕ, zero, suc, ◌≤◌, ◌≡◌, refl, sym,
  ap, ◌∙◌, Bool, true, false, ◌||◌, [], ◌∷◌, ◌++◌, append_assoc, append-nil, arith, is_nil,
}
use plexus_controller.Naming.Slug.{
  Builder, is_hyphen, is_separator, slug_step, slug_loop, empty_builder, cut_slug, to_lower,
  dns1123_slug,
}
use plexus_controller.Naming.Slug.Output.{dns1123_slug-IsSlug, byte_len-dns1123_slug}
use plexus_controller.Naming.Slug.Canonical.{
  is_slug_char, Canon, IsSlug, trim_right_of_ends, trim_left_of_Canon,
}

is_space_of_slug : (c : ℕ) → is_slug_char c ≡ true → is_space c ≡ false
unfolding is_space
is_space_of_slug c h = ground arith

trim_left_of_head : (prev : Bool) (s : Text) → Canon prev s → trim_left is_space s ≡ s
unfolding trim_left
trim_left_of_head prev [] h = refl
trim_left_of_head prev (c ∷ s) (p, q, h) = rw (is_space_of_slug c p)

trim_right_of_Canon : (prev : Bool) (s : Text) → Canon prev s → trim_right is_space s ≡ s
unfolding trim_right
trim_right_of_Canon prev [] h = refl
trim_right_of_Canon prev (c ∷ s) (p, q, h) =
    rw (is_space_of_slug c p, trim_right_of_Canon (is_hyphen c) s h)

trim_space_of_Canon : (s : Text) → Canon true s → trim_space s ≡ s
unfolding trim_space
trim_space_of_Canon s h = rw (trim_left_of_head true s h) (trim_right_of_Canon true s h)

map-to_lower_of_Canon :
    (lower_high : ℕ → ℕ) (prev : Bool) (s : Text) → Canon prev s → map (to_lower lower_high) s ≡ s
map-to_lower_of_Canon lower_high prev [] h = refl
map-to_lower_of_Canon lower_high prev (c ∷ s) (p, q, h) =
    cc (fixed, map-to_lower_of_Canon lower_high (is_hyphen c) s h)
  where
    fixed : to_lower lower_high c ≡ c
    fixed = unfold to_lower in ground arith

-- A canonical rest is taken over whole.
slug_loop_of_Canon :
    (b : Builder) (s : Text)
    → Canon (is_nil b.out || b.last_hyphen) s
    → (slug_loop b s).out ≡ b.out ++ s
unfolding slug_loop
slug_loop_of_Canon b [] h = sym (append-nil b.out)
slug_loop_of_Canon b (c ∷ s) (p, q, h) =
    ap (λ b'. (slug_loop b' s).out) step
    ∙ (slug_loop_of_Canon next s rest ∙ append_assoc b.out (c ∷ []) s)
  where
    next : Builder
    next = record { out = b.out ++ c ∷ []; last_hyphen = is_hyphen c }

    step : slug_step b c ≡ next
    step = unfold slug_step is_separator in ground arith

    rest : Canon (is_nil (b.out ++ c ∷ []) || is_hyphen c) s
    rest = elim b.out as (λ (o : Text). Canon (is_nil (o ++ c ∷ []) || is_hyphen c) s) [
      | [] ↦ h
      | x ∷ xs ↦ h
    ]

module _ (lower_high : ℕ → ℕ) where
  pub dns1123_slug_of_Canon :
      (s : Text) (bound : ℕ)
      → Canon true s
      → dns1123_slug lower_high s bound ≡ cut_slug (trim_right is_hyphen s) bound
  unfolding dns1123_slug
  dns1123_slug_of_Canon s bound h = rw (trim_space_of_Canon s h) (
      rw (map-to_lower_of_Canon lower_high true s h)
        (rw (slug_loop_of_Canon empty_builder s h) (rw (trim_left_of_Canon s h))))

  pub dns1123_slug_of_IsSlug :
      (s : Text) (bound : ℕ) → IsSlug s → byte_len s ≤ bound → dns1123_slug lower_high s bound ≡ s
  unfolding cut_slug
  dns1123_slug_of_IsSlug s bound h fits =
      rw (dns1123_slug_of_Canon s bound h.0) (rw (trim_right_of_ends s h.1) (ground arith))

  -- A second pass with the same bound changes nothing.
  pub dns1123_slug_idempotent :
      (value : Text) (bound : ℕ)
      → dns1123_slug lower_high (dns1123_slug lower_high value bound) bound
        ≡ dns1123_slug lower_high value bound
  dns1123_slug_idempotent value zero =
      dns1123_slug_of_Canon (dns1123_slug lower_high value 0) 0 slug.0
      ∙ unfold cut_slug in trim_right_of_ends (dns1123_slug lower_high value 0) slug.1
    where
      slug : IsSlug (dns1123_slug lower_high value 0)
      slug = dns1123_slug-IsSlug lower_high value 0
  dns1123_slug_idempotent value (suc bound) =
      dns1123_slug_of_IsSlug _ (suc bound) (dns1123_slug-IsSlug lower_high value (suc bound))
        (byte_len-dns1123_slug lower_high value (suc bound) (omega arith))
