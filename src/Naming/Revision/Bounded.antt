-- ===== src/Naming/Revision/Bounded.antt =====
-- Every name built from a GameServer's name has at most 63 bytes.
use mathlib.Core.List.{map}
use plexus_controller.Common.{
  Text, codes, text_eq, trim_right, rune_len, byte_len, is_digit, ℕ, ◌+◌, ◌-◌, ◌^◌, ◌≤◌, ◌<◌, ◌≡◌,
  refl, inl, inr, Bool, true, ◌&&◌, Option, none, some, [], ◌∷◌, ◌++◌, arith, leb, Bool-cases,
  length, take, length-take, All, All-take, All-imp,
}
use plexus_controller.Common.Decimal.{decimal, decimal-digits, length-decimal}
use plexus_controller.Naming.Slug.{is_hyphen}
use plexus_controller.Naming.Revision.{
  dot_to_hyphen, cut_prefix, hashed_name, revision_scoped_resource_name, runtime_config_map_name,
  runtime_secret_name,
}

pub byte_len-append : (s t : Text) → byte_len (s ++ t) ≡ byte_len s + byte_len t
unfolding byte_len
byte_len-append [] t = omega arith
byte_len-append (c ∷ s) t = omega (arith, byte_len-append s t)

-- ASCII characters take one byte each.
pub byte_len_of_ascii : (s : Text) → All (λ c. c < 128) s → byte_len s ≡ length s
unfolding byte_len rune_len
byte_len_of_ascii [] h = refl
byte_len_of_ascii (c ∷ s) (p, h) = ground (arith, byte_len_of_ascii s h)

byte_len-trim_right : (p : ℕ → Bool) (s : Text) → byte_len (trim_right p s) ≤ byte_len s
unfolding byte_len trim_right
byte_len-trim_right p [] = omega arith
byte_len-trim_right p (c ∷ s) = ground (arith, byte_len-trim_right p s)

dot_to_hyphen-ascii : (s : Text) → All (λ c. c < 128) s → All (λ c. c < 128) (map dot_to_hyphen s)
dot_to_hyphen-ascii [] h = tt
dot_to_hyphen-ascii (c ∷ s) (p, h) = (ground arith, dot_to_hyphen-ascii s h)

decimal-ascii : (n : ℕ) → All (λ c. c < 128) (decimal n)
decimal-ascii n =
    All-imp (λ c. is_digit c ≡ true) (λ c. c < 128) (decimal n) (λ c h. ground arith)
      (decimal-digits n)

-- The prefix that is kept leaves room for what follows.
byte_len-cut_prefix :
    (s : Text) (used : ℕ) {kept : Text}
    → All (λ c. c < 128) s
    → cut_prefix s used ≡ some kept
    → byte_len kept + used ≤ 63
byte_len-cut_prefix s used ascii e = ground (
  arith,
  byte_len_of_ascii s ascii,
  length-take (63 - used) s,
  byte_len_of_ascii (take (63 - used) s) (All-take (λ c. c < 128) (63 - used) s ascii),
)

hashed_name_bound :
    (s hash_suffix suffix : Text)
    → All (λ c. c < 128) s
    → byte_len hash_suffix + byte_len suffix ≤ 63
    → (n : Text) × (hashed_name
          (cut_prefix s (byte_len hash_suffix + byte_len suffix))
          hash_suffix
          suffix
        ≡ some n)
      × (byte_len n ≤ 63)
hashed_name_bound s hash_suffix suffix ascii room = go (cut_prefix s used) refl
  where
    used : ℕ
    used = byte_len hash_suffix + byte_len suffix

    go :
        (kept : Option Text)
        → cut_prefix s used ≡ kept
        → (n : Text) × (hashed_name kept hash_suffix suffix ≡ some n) × (byte_len n ≤ 63)
    go none e = absurd (ground arith)
    go (some kept) e = (
      trim_right is_hyphen kept ++ (hash_suffix ++ suffix),
      refl,
      omega (
        arith,
        byte_len-append (trim_right is_hyphen kept) (hash_suffix ++ suffix),
        byte_len-append hash_suffix suffix,
        byte_len-trim_right is_hyphen kept,
        byte_len-cut_prefix s used ascii e,
      ),
    )

module _ (digest_hex : Text → Text) where
  -- For an ASCII name, a hash of eight characters and a suffix of at most 54 bytes a name is
  -- returned (the slice expression does not panic), and it has at most 63 bytes.
  pub revision_scoped_resource_name_bound :
      (name suffix : Text)
      → All (λ c. c < 128) name
      → byte_len (digest_hex name) ≡ 8
      → byte_len suffix ≤ 54
      → (n : Text) × (revision_scoped_resource_name digest_hex name suffix ≡ some n)
        × (byte_len n ≤ 63)
  unfolding revision_scoped_resource_name
  revision_scoped_resource_name_bound name suffix ascii hex room =
      elim (Bool-cases (text_eq normalized name && leb (byte_len (normalized ++ suffix)) 63)) [
        | inl e ↦ (normalized ++ suffix, rw e, ground arith)
        | inr e ↦
            let (n, made, short) =
              hashed_name_bound normalized (b'-' ∷ digest_hex name) suffix
                (dot_to_hyphen-ascii name ascii) room' in
            (n, rw e made, short)
      ]
    where
      normalized : Text
      normalized = map dot_to_hyphen name

      room' : byte_len (b'-' ∷ digest_hex name) + byte_len suffix ≤ 63
      room' = unfold byte_len rune_len in omega arith

  -- Generations and revisions are int64 values, here not negative: a ConfigMap name and a Secret
  -- name are returned for each, of at most 63 bytes.
  pub runtime_names_bound :
      (name : Text) (generation revision : ℕ)
      → All (λ c. c < 128) name
      → byte_len (digest_hex name) ≡ 8
      → generation < 2 ^ 63
      → revision < 2 ^ 63
      → ((n : Text) × (runtime_config_map_name digest_hex name generation ≡ some n)
          × (byte_len n ≤ 63))
        × ((n : Text) × (runtime_secret_name digest_hex name generation revision ≡ some n)
            × (byte_len n ≤ 63))
  unfolding runtime_config_map_name runtime_secret_name
  runtime_names_bound name generation revision ascii hex hg hr = (
    revision_scoped_resource_name_bound name _ ascii hex config,
    revision_scoped_resource_name_bound name _ ascii hex secret,
  )
    where
      digits : (n : ℕ) → n < 2 ^ 63 → byte_len (decimal n) ≤ 19
      digits n h = omega (
        arith,
        byte_len_of_ascii (decimal n) (decimal-ascii n),
        length-decimal 18 n (omega arith),
      )

      config : byte_len (codes "-config-g" ++ decimal generation) ≤ 54
      config = unfold byte_len rune_len in omega (arith, digits generation hg)

      secret :
          byte_len (codes "-runtime-g" ++ (decimal generation ++ (codes "-r" ++ decimal revision)))
          ≤ 54
      secret =
          unfold byte_len rune_len in
          omega (
            arith,
            byte_len-append (decimal generation) (codes "-r" ++ decimal revision),
            digits generation hg,
            digits revision hr,
          )
