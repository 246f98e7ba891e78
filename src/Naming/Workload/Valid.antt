-- ===== src/Naming/Workload/Valid.antt =====
-- The names of workloadDeploymentName are DNS-1123 labels, and it has one error only beyond a
-- missing setup.
use plexus_controller.Common.{
  Text, codes, trim_right, rune_len, byte_len, ℕ, ◌+◌, ◌≤◌, ◌≡◌, ◌≢◌, refl, ◌∙◌, inl, inr, Bool,
  true, false, some, [], ◌∷◌, ◌++◌, arith, ltb, if◌then◌else◌, Bool-cases, length, take, is_nil,
  length-append,
}
use plexus_controller.Naming.Slug.{
  is_hyphen, cut_slug, workload_name_slug_max, before, dns1123_slug, customer_name_slug,
}
use plexus_controller.Naming.Slug.Canonical.{
  Canon, ends, IsSlug, byte_len_of_Canon, Canon-weaken, Canon-take,
}
use plexus_controller.Naming.Slug.Output.{dns1123_slug-IsSlug, byte_len-dns1123_slug}
use plexus_controller.Naming.Slug.FixedPoint.{dns1123_slug_of_Canon}
use plexus_controller.Naming.Workload.{
  NameSource, ok, join_name, server_or, workload_deployment_name,
}

-- Slugs that are not empty may be joined by a hyphen.
Canon-join :
    (prev : Bool) (s : Text) (d : ℕ) (t : Text)
    → Canon prev s
    → ends prev s ≡ false
    → Canon true (d ∷ t)
    → Canon prev (s ++ b'-' ∷ d ∷ t)
Canon-join prev [] d t h e k = (refl, e, k)
Canon-join prev (c ∷ s) d t (p, q, h) e k = (p, q, Canon-join (is_hyphen c) s d t h e k)

ends-join :
    (prev : Bool) (s : Text) (d : ℕ) (t : Text) → ends prev (s ++ b'-' ∷ d ∷ t) ≡ ends false (d ∷ t)
ends-join prev [] d t = refl
ends-join prev (c ∷ s) d t = ends-join (is_hyphen c) s d t

IsSlug-join :
    (s t : Text)
    → IsSlug s
    → IsSlug t
    → is_nil s ≡ false
    → is_nil t ≡ false
    → IsSlug (s ++ b'-' ∷ t)
IsSlug-join [] t hs ht ns nt = cc
IsSlug-join (c ∷ s) [] hs ht ns nt = cc
IsSlug-join (c ∷ s) (d ∷ t) hs ht ns nt =
    (Canon-join true (c ∷ s) d t hs.0 hs.1 ht.0, ends-join false (c ∷ s) d t ∙ ht.1)

byte_len_of_IsSlug : (s : Text) → IsSlug s → byte_len s ≡ length s
byte_len_of_IsSlug s h = byte_len_of_Canon true s h.0

-- A non-empty slug of at most 16 bytes.
record IsPart (s : Text) : Type 0 where
  slug : IsSlug s
  short : byte_len s ≤ workload_name_slug_max
  full : is_nil s ≡ false

IsPart-server : IsPart (codes "server")
unfolding byte_len rune_len
IsPart-server = record { slug = ground arith; short = omega arith; full = refl }

byte_len-join :
    (s t : Text)
    → IsPart s
    → IsSlug t
    → is_nil t ≡ false
    → byte_len (s ++ b'-' ∷ t) ≡ length s + 1 + length t
byte_len-join s t hs ht nt =
    byte_len_of_IsSlug _ (IsSlug-join s t hs.slug ht hs.full nt)
    ∙ omega (arith, length-append s (b'-' ∷ t))

is_nil-append : (s : Text) (c : ℕ) (t : Text) → is_nil (s ++ c ∷ t) ≡ false
is_nil-append [] c t = refl
is_nil-append (d ∷ s) c t = refl

-- Three parts make a label of at most 50 bytes.
join_name_valid :
    (customer server game : Text)
    → IsPart customer
    → IsPart server
    → IsPart game
    → IsSlug (join_name customer server game)
      × (join_name customer server game ≢ [])
      × (byte_len (join_name customer server game) ≤ 50)
join_name_valid customer server game hc hs hg = (
  IsSlug-join customer (server ++ b'-' ∷ game) hc.slug inner hc.full full,
  not_nil customer (server ++ b'-' ∷ game),
  omega (
    arith,
    byte_len-join customer (server ++ b'-' ∷ game) hc inner full,
    length-append server (b'-' ∷ game),
    byte_len_of_IsSlug customer hc.slug,
    byte_len_of_IsSlug server hs.slug,
    byte_len_of_IsSlug game hg.slug,
  ),
)
  where
    inner : IsSlug (server ++ b'-' ∷ game)
    inner = IsSlug-join server game hs.slug hg.slug hs.full hg.full

    full : is_nil (server ++ b'-' ∷ game) ≡ false
    full = is_nil-append server b'-' game

    not_nil : (s t : Text) → (s ++ b'-' ∷ t) ≢ []
    not_nil s t e = let filled = is_nil-append s b'-' t in cc

module _ (lower_high : ℕ → ℕ) where
  -- The fallback of customerNameSlug starts with the letter u.
  u_slug :
      (s : Text)
      → Canon true s
      → is_nil (dns1123_slug lower_high (b'u' ∷ s) workload_name_slug_max) ≡ false
  unfolding cut_slug trim_right
  u_slug s h =
      rw
        (dns1123_slug_of_Canon lower_high (b'u' ∷ s) workload_name_slug_max
          (refl, refl, Canon-weaken s h))
        (ground arith)

  IsPart-of_full :
      (value : Text)
      → is_nil (dns1123_slug lower_high value workload_name_slug_max) ≡ false
      → IsPart (dns1123_slug lower_high value workload_name_slug_max)
  IsPart-of_full value full = record {
    slug = dns1123_slug-IsSlug lower_high value workload_name_slug_max;
    short = byte_len-dns1123_slug lower_high value workload_name_slug_max (omega arith);
    full = full;
  }

  -- The customer's part is never empty.
  customer_name_slug-IsPart : (raw owner : Text) → IsPart (customer_name_slug lower_high raw owner)
  unfolding customer_name_slug
  customer_name_slug-IsPart raw owner =
      elim (Bool-cases
        (is_nil (dns1123_slug lower_high (before b'@' raw) workload_name_slug_max))) [
          | inl e ↦ rw e (IsPart-of_full (b'u' ∷ short) (u_slug short short_canon))
          | inr e ↦ rw e (IsPart-of_full (before b'@' raw) e)
        ]
    where
      slug : Text
      slug = dns1123_slug lower_high owner 32

      short : Text
      short = if ltb 8 (byte_len slug) then take 8 slug else slug

      short_canon : Canon true short
      short_canon = elim (Bool-cases (ltb 8 (byte_len slug))) [
        | inl e ↦ rw e (Canon-take 8 true slug (dns1123_slug-IsSlug lower_high owner 32).0)
        | inr e ↦ rw e (dns1123_slug-IsSlug lower_high owner 32).0
      ]

  server_or-IsPart :
      (value : Text) → IsPart (server_or (dns1123_slug lower_high value workload_name_slug_max))
  server_or-IsPart value =
      elim (Bool-cases (is_nil (dns1123_slug lower_high value workload_name_slug_max))) [
        | inl e ↦ rw e IsPart-server
        | inr e ↦ rw e (IsPart-of_full value e)
      ]

  abbrev pub game_slug : Text → Text
  game_slug game = dns1123_slug lower_high game workload_name_slug_max

  pub the_name : NameSource → Text → Text
  the_name source game =
      join_name (customer_name_slug lower_high source.customer_slug source.owner_user_id)
        (server_or (dns1123_slug lower_high source.display_name workload_name_slug_max))
        (game_slug game)

  pub the_name_valid :
      (source : NameSource) (game : Text)
      → is_nil (game_slug game) ≡ false
      → IsSlug (the_name source game)
        × (the_name source game ≢ [])
        × (byte_len (the_name source game) ≤ 50)
  unfolding the_name
  the_name_valid source game full =
      join_name_valid _ _ _ (customer_name_slug-IsPart source.customer_slug source.owner_user_id)
        (server_or-IsPart source.display_name) (IsPart-of_full game full)

  pub the_name-returned :
      (source : NameSource) (game : Text)
      → source.game_id ≡ some game
      → is_nil (game_slug game) ≡ false
      → workload_deployment_name lower_high source ≡ ok (the_name source game)
  unfolding workload_deployment_name the_name
  the_name-returned source game e full = rw e (
      ground (
        arith,
        full,
        customer_name_slug-IsPart source.customer_slug source.owner_user_id,
        the_name_valid source game full,
      ))
