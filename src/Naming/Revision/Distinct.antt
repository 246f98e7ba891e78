-- ===== src/Naming/Revision/Distinct.antt =====
-- The names of one GameServer's ConfigMaps differ from generation to generation, and those of its
-- Secrets from generation to generation and from revision to revision.
use mathlib.Core.List.{map}
use plexus_controller.Common.{
  Text, codes, text_eq, trim_right, byte_len, is_digit, ℕ, ◌+◌, ◌≡◌, refl, sym, ap, ◌∙◌, inl, inr,
  true, false, ◌&&◌, Option, none, some, [], ◌∷◌, ◌++◌, append_assoc, append-nil, arith, leb,
  if◌then◌else◌, Bool-cases, All,
}
use mathlib.Core.List.{append_cancel_right}
use mathlib.Core.Path.{subst}
use plexus_controller.Common.Decimal.{decimal, decimal-digits, number_from, number_from-decimal}
use plexus_controller.Naming.Slug.{is_hyphen}
use plexus_controller.Naming.Revision.{
  dot_to_hyphen, cut_prefix, hashed_name, revision_scoped_resource_name, runtime_config_map_name,
  runtime_secret_name,
}

-- The digits at the end of a text, after those of `acc`.
last_digits : Text → Text → Text
last_digits acc [] = acc
last_digits acc (c ∷ s) = last_digits (if is_digit c then acc ++ c ∷ [] else []) s

last_digits_of_digits :
    (acc s : Text) → All (λ c. is_digit c ≡ true) s → last_digits acc s ≡ acc ++ s
unfolding last_digits
last_digits_of_digits acc [] h = sym (append-nil acc)
last_digits_of_digits acc (c ∷ s) (p, h) =
    rw p (last_digits_of_digits (acc ++ c ∷ []) s h ∙ append_assoc acc (c ∷ []) s)

last_digits-append :
    (acc a : Text) (c : ℕ) (s : Text)
    → is_digit c ≡ false
    → All (λ d. is_digit d ≡ true) s
    → last_digits acc (a ++ c ∷ s) ≡ s
unfolding last_digits
last_digits-append acc [] c s p h =
    ap (λ b. last_digits (if b then acc ++ c ∷ [] else []) s) p ∙ last_digits_of_digits [] s h
last_digits-append acc (d ∷ a) c s p h =
    last_digits-append (if is_digit d then acc ++ d ∷ [] else []) a c s p h

-- Two texts that are equal and end in a numeral behind a character that is no digit have the same
-- number there.
numeral_eq :
    (a b : Text) (c m n : ℕ) → is_digit c ≡ false → a ++ c ∷ decimal m ≡ b ++ c ∷ decimal n → m ≡ n
numeral_eq a b c m n p e =
    sym (number_from-decimal m) ∙ (ap (number_from 0) same ∙ number_from-decimal n)
  where
    same : decimal m ≡ decimal n
    same =
        sym (last_digits-append [] a c (decimal m) p (decimal-digits m))
        ∙ (ap (last_digits []) e ∙ last_digits-append [] b c (decimal n) p (decimal-digits n))

-- A hashed name ends in its suffix.
hashed_name-suffix :
    (kept : Option Text) (hash_suffix suffix : Text) {n : Text}
    → hashed_name kept hash_suffix suffix ≡ some n
    → (front : Text) × (n ≡ front ++ suffix)
hashed_name-suffix none hash_suffix suffix e = cc
hashed_name-suffix (some kept) hash_suffix suffix e = (
  trim_right is_hyphen kept ++ hash_suffix,
  ground (arith, append_assoc (trim_right is_hyphen kept) hash_suffix suffix),
)

-- The text of a Secret's name before its revision.
abbrev secret_front : Text → ℕ → Text
secret_front front generation =
    (front ++ codes "-runtime-") ++ b'g' ∷ (decimal generation ++ codes "-")

secret_regroup :
    (front : Text) (generation revision : ℕ)
    → front ++ (codes "-runtime-g" ++ (decimal generation ++ (codes "-r" ++ decimal revision)))
      ≡ secret_front front generation ++ b'r' ∷ decimal revision
secret_regroup front generation revision = simp append_assoc

secret_front_injective :
    (front front' : Text) (generation generation' : ℕ)
    → secret_front front generation ≡ secret_front front' generation'
    → generation ≡ generation'
secret_front_injective front front' generation generation' e =
    numeral_eq (front ++ codes "-runtime-") (front' ++ codes "-runtime-") b'g' generation
      generation' refl
      (append_cancel_right _ _ (codes "-")
        (regroup front generation ∙ (e ∙ sym (regroup front' generation'))))
  where
    regroup :
        (f : Text) (g : ℕ)
        → ((f ++ codes "-runtime-") ++ b'g' ∷ decimal g) ++ codes "-" ≡ secret_front f g
    regroup f g = simp append_assoc

module _ (digest_hex : Text → Text) where
  -- Every name ends in its suffix.
  pub revision_scoped_resource_name-suffix :
      (name suffix : Text) {n : Text}
      → revision_scoped_resource_name digest_hex name suffix ≡ some n
      → (front : Text) × (n ≡ front ++ suffix)
  unfolding revision_scoped_resource_name
  revision_scoped_resource_name-suffix name suffix {n} e =
      elim (Bool-cases (text_eq normalized name && leb (byte_len (normalized ++ suffix)) 63)) [
        | inl plain ↦ (normalized, ground arith)
        | inr hashed ↦
            hashed_name-suffix
              (cut_prefix normalized (byte_len (b'-' ∷ digest_hex name) + byte_len suffix))
              (b'-' ∷ digest_hex name) suffix (ground arith)
      ]
    where
      normalized : Text
      normalized = map dot_to_hyphen name

  -- Two ConfigMap names that are equal belong to one generation, whichever servers they are of.
  pub runtime_config_map_name_injective :
      (name name' : Text) (generation generation' : ℕ) {n : Text}
      → runtime_config_map_name digest_hex name generation ≡ some n
      → runtime_config_map_name digest_hex name' generation' ≡ some n
      → generation ≡ generation'
  unfolding runtime_config_map_name
  runtime_config_map_name_injective name name' generation generation' e e' =
      let (front, p) = revision_scoped_resource_name-suffix name _ e in
      let (front', p') = revision_scoped_resource_name-suffix name' _ e' in
      numeral_eq (front ++ codes "-config-") (front' ++ codes "-config-") b'g' generation
        generation' refl
        (append_assoc front (codes "-config-") (b'g' ∷ decimal generation)
          ∙ (sym p
              ∙ (p' ∙ sym (append_assoc front' (codes "-config-") (b'g' ∷ decimal generation')))))

  -- Two Secret names that are equal belong to one generation and one secret revision.
  pub runtime_secret_name_injective :
      (name name' : Text) (generation generation' revision revision' : ℕ) {n : Text}
      → runtime_secret_name digest_hex name generation revision ≡ some n
      → runtime_secret_name digest_hex name' generation' revision' ≡ some n
      → (generation ≡ generation') × (revision ≡ revision')
  unfolding runtime_secret_name
  runtime_secret_name_injective name name' generation generation' revision revision' e e' =
      let (front, p) = revision_scoped_resource_name-suffix name _ e in
      let (front', p') = revision_scoped_resource_name-suffix name' _ e' in
      let same =
        sym (secret_regroup front generation revision)
        ∙ (sym p ∙ (p' ∙ secret_regroup front' generation' revision')) in
      let revisions =
        numeral_eq (secret_front front generation) (secret_front front' generation') b'r' revision
          revision' refl same in
      (
        secret_front_injective front front' generation generation' (
            append_cancel_right _ _ (b'r' ∷ decimal revision') (
              subst
                (λ r.
                  secret_front front generation ++ b'r' ∷ decimal r
                  ≡ secret_front front' generation' ++ b'r' ∷ decimal revision')
                revisions same)),
        revisions,
      )
