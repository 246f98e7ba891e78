-- ===== src/Mods/Order.antt =====
-- pkg/gamemanagement/factorio/v1/mods.go: the order of versions, and their decimal form.
use plexus_controller.Common.{Text, codes, text_eq, ◌<◌, ◌≡◌, ◌↔◌, ◌⊎◌, inl, inr, true, some, arith}
use plexus_controller.Mods.Version.{
  Version, Comparison, less, equal, greater, compare_versions, satisfies, parse_factorio_version,
  dependency_version_matches,
}

-- The lexicographic order of versions.
unfoldable pub Before : Version → Version → Type 0
Before a b =
    (a.major < b.major)
    ⊎ ((a.major ≡ b.major) × ((a.minor < b.minor) ⊎ ((a.minor ≡ b.minor) × (a.patch < b.patch))))

pub record IsOrdered (runtime : Text) (wanted : Text) (v w : Version) : Type 0 where
  pub lt : (dependency_version_matches runtime (codes "<") wanted ≡ some true) ↔ Before v w
  pub le :
      (dependency_version_matches runtime (codes "<=") wanted ≡ some true) ↔ (Before v w ⊎ (v ≡ w))
  pub eq : (dependency_version_matches runtime (codes "=") wanted ≡ some true) ↔ (v ≡ w)
  pub ge :
      (dependency_version_matches runtime (codes ">=") wanted ≡ some true) ↔ (Before w v ⊎ (v ≡ w))
  pub gt : (dependency_version_matches runtime (codes ">") wanted ≡ some true) ↔ Before w v

compare_less : (v w : Version) → (compare_versions v w ≡ less) ↔ Before v w
unfolding compare_versions Before
compare_less v w = (λ e. ground arith, λ b. ground arith)

compare_greater : (v w : Version) → (compare_versions v w ≡ greater) ↔ Before w v
unfolding compare_versions Before
compare_greater v w = (λ e. ground arith, λ b. ground arith)

same_version : (v w : Version) → v.major ≡ w.major → v.minor ≡ w.minor → v.patch ≡ w.patch → v ≡ w
same_version v w a b c = cc

compare_equal : (v w : Version) → (compare_versions v w ≡ equal) ↔ (v ≡ w)
unfolding compare_versions
compare_equal v w =
    (λ e. same_version v w (ground arith) (ground arith) (ground arith), λ e. ground arith)

-- What the switch makes of the comparison.
switch :
    (c : Comparison)
    → ((satisfies (codes "<") c ≡ some true) ↔ (c ≡ less))
      × ((satisfies (codes "<=") c ≡ some true) ↔ ((c ≡ less) ⊎ (c ≡ equal)))
      × ((satisfies (codes "=") c ≡ some true) ↔ (c ≡ equal))
      × ((satisfies (codes ">=") c ≡ some true) ↔ ((c ≡ greater) ⊎ (c ≡ equal)))
      × ((satisfies (codes ">") c ≡ some true) ↔ (c ≡ greater))
unfolding satisfies text_eq
switch less = ground arith
switch equal = ground arith
switch greater = ground arith

either : {A B C D E : Type 0} → A ↔ (B ⊎ C) → B ↔ D → C ↔ E → A ↔ (D ⊎ E)
either f g h = (
  λ a. elim (f.0 a) [ inl b ↦ inl (g.0 b) | inr c ↦ inr (h.0 c) ],
  λ de. elim de [ inl d ↦ f.1 (inl (g.1 d)) | inr e ↦ f.1 (inr (h.1 e)) ],
)

trans : {A B C : Type 0} → A ↔ B → B ↔ C → A ↔ C
trans f g = (λ a. g.0 (f.0 a), λ c. f.1 (g.1 c))

-- For two texts that are versions, dependencyVersionMatches says for each of the five operators whether
-- the first version stands in that relation to the second, in the lexicographic order.
pub dependency_version_matches-IsOrdered :
    (runtime wanted : Text) (v w : Version)
    → parse_factorio_version runtime ≡ some v
    → parse_factorio_version wanted ≡ some w
    → IsOrdered runtime wanted v w
unfolding dependency_version_matches
dependency_version_matches-IsOrdered runtime wanted v w h k =
    let (lt, le, eq, ge, gt) = switch (compare_versions v w) in
    record {
      lt = rw h (rw k (trans lt (compare_less v w)));
      le = rw h (rw k (either le (compare_less v w) (compare_equal v w)));
      eq = rw h (rw k (trans eq (compare_equal v w)));
      ge = rw h (rw k (either ge (compare_greater v w) (compare_equal v w)));
      gt = rw h (rw k (trans gt (compare_greater v w)));
    }
