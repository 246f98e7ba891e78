-- ===== src/Saves/Archive/Spec.antt =====
-- What a Factorio save archive must be, said without the loop of ValidateSaveArchive.
use mathlib.Core.List.{map}
use plexus_controller.Common.{
  Text, codes, text_eq, text_eq_iff, has_prefix, contains_char, split_on, ℕ, ◌+◌, ◌≤◌, ◌≡◌, refl,
  ◌∙◌, ◌≢◌, ◌⊎◌, inl, inr, true, false, Option, none, some, List, [], ◌∷◌, ◌++◌, append_assoc,
  arith, Bool-cases, is_nil, All,
}
use plexus_controller.Saves.Paths.{is_abs, cut_suffix}
use plexus_controller.Saves.Archive.{
  ArchiveEntry, size_of, unsafe_archive_path, unsafe_components, windows_drive_absolute_path,
  factorio_save_root, root_of, maximum_save_expanded_bytes, level_entry_name, level_init_entry_name,
  under_root,
}

-- A path that stays below the directory it is unpacked in: it is relative, it has no backslash, and
-- none of its components is "." or "..".
pub record IsContained (name : Text) : Type 0 where
  pub not_empty : name ≢ []
  pub no_backslash : contains_char b'\\' name ≡ false
  pub relative : is_abs name ≡ false
  pub no_drive : windows_drive_absolute_path name ≡ false
  pub no_dots : All (λ c. (c ≢ codes ".") × (c ≢ codes "..")) (split_on b'/' name)

-- A file directly below the root, or at the archive's top if the root is empty.
abbrev pub in_root : Text → Text → Text
in_root [] base = base
in_root (c ∷ root) base = (c ∷ root) ++ b'/' ∷ base

abbrev pub IsFile : Text → ArchiveEntry → Type 0
IsFile name e = (e.directory ≡ false) × (e.name ≡ name)

-- Some element satisfies `P`.
abbrev pub Any {ℓ} : {A : Type ℓ} → (A → Type 0) → List A → Type 0
Any P [] = ⊥
Any P (x ∷ xs) = P x ⊎ Any P xs

abbrev pub Distinct : List Text → Type 0
Distinct [] = Unit
Distinct (x ∷ xs) = All (λ y. x ≢ y) xs × Distinct xs

abbrev pub total : List ArchiveEntry → ℕ
total [] = 0
total (e ∷ es) = size_of e.uncompressed_bytes + total es

abbrev pub IsBelow : Text → Text → Type 0
IsBelow root name = (name ≡ root) ⊎ ((rest : Text) × (name ≡ root ++ b'/' ∷ rest))

pub record IsSave (es : List ArchiveEntry) (root : Text) : Type 0 where
  pub contained : All (λ e. IsContained e.name) es
  pub distinct : Distinct (map (λ e. e.name) es)
  pub fits : total es ≤ maximum_save_expanded_bytes
  pub has_level : Any (IsFile (in_root root level_entry_name)) es
  pub has_level_init : Any (IsFile (in_root root level_init_entry_name)) es
  pub one_root : (root ≡ []) ⊎ All (λ e. IsBelow root e.name) es

unsafe_components_sound :
    (cs : List Text)
    → unsafe_components cs ≡ false
    → All (λ c. (c ≢ codes ".") × (c ≢ codes "..")) cs
unfolding unsafe_components
unsafe_components_sound [] h = tt
unsafe_components_sound (c ∷ cs) h = (
  (
    (λ e. ground (arith, text_eq_iff c (codes "."))),
    (λ e. ground (arith, text_eq_iff c (codes ".."))),
  ),
  unsafe_components_sound cs (ground arith),
)

-- What unsafeArchivePath lets through is contained.
pub unsafe_archive_path_sound : (name : Text) → unsafe_archive_path name ≡ false → IsContained name
unfolding unsafe_archive_path
unsafe_archive_path_sound name h = record {
  not_empty = λ e. ground arith;
  no_backslash = ground arith;
  relative = ground arith;
  no_drive = ground arith;
  no_dots = unsafe_components_sound (split_on b'/' name) (ground arith);
}

cut_suffix_sound :
    (s suffix : Text) {front : Text} → cut_suffix s suffix ≡ some front → s ≡ front ++ suffix
unfolding cut_suffix
cut_suffix_sound [] [] h = ground arith
cut_suffix_sound [] (c ∷ suffix) h = cc
cut_suffix_sound (c ∷ s) suffix {front} h = elim (Bool-cases (text_eq (c ∷ s) suffix)) [
  | inl e ↦ ground (arith, text_eq_iff (c ∷ s) suffix)
  | inr e ↦
      go (cut_suffix s suffix) refl (rw e at h) (λ f p. cut_suffix_sound s suffix {front = f} p)
]
  where
    go :
        (o : Option Text)
        → cut_suffix s suffix ≡ o
        → elim o [ none ↦ none | some f ↦ some (c ∷ f) ] ≡ some front
        → ((f : Text) → cut_suffix s suffix ≡ some f → s ≡ f ++ suffix)
        → c ∷ s ≡ front ++ suffix
    go none p q ih = cc
    go (some f) p q ih = ground (arith, ih f p)

root_of_lem :
    (o : Option Text) {root : Text}
    → root_of o ≡ some root
    → (o ≡ some root) × (is_nil root ≡ false) × (contains_char b'/' root ≡ false)
root_of_lem none h = cc
root_of_lem (some r) h = ground arith

-- A root that factorioSaveRoot returns has no slash, and the entry stands directly below it.
pub factorio_save_root_sound :
    (name base root : Text)
    → factorio_save_root name base ≡ some root
    → (name ≡ in_root root base) × (contains_char b'/' root ≡ false)
unfolding factorio_save_root
factorio_save_root_sound name base [] h = elim (Bool-cases (text_eq name base)) [
  | inl e ↦ ((text_eq_iff name base).0 e, unfold contains_char in refl)
  | inr e ↦
      absurd (ground (arith, root_of_lem (cut_suffix name (b'/' ∷ base)) {root = []} (rw e at h)))
]
factorio_save_root_sound name base (c ∷ root) h = elim (Bool-cases (text_eq name base)) [
  | inl e ↦ absurd (ground arith)
  | inr e ↦
      let (cut, _, plain) =
        root_of_lem (cut_suffix name (b'/' ∷ base)) {root = c ∷ root} (rw e at h) in
      (cut_suffix_sound name (b'/' ∷ base) cut, plain)
]

has_prefix_sound : (s p : Text) → has_prefix s p ≡ true → (rest : Text) × (s ≡ p ++ rest)
unfolding has_prefix
has_prefix_sound s [] h = (s, refl)
has_prefix_sound [] (b ∷ p) h = cc
has_prefix_sound (a ∷ s) (b ∷ p) h =
    let (rest, e) = has_prefix_sound s p (ground arith) in (rest, ground arith)

-- The test of the last loop.
pub under_root_sound : (root name : Text) → under_root root name ≡ true → IsBelow root name
unfolding under_root
under_root_sound root name h = elim (Bool-cases (text_eq name root)) [
  | inl e ↦ inl ((text_eq_iff name root).0 e)
  | inr n ↦ elim (Bool-cases (text_eq name (root ++ codes "/"))) [
    | inl e ↦ inr ([], (text_eq_iff name (root ++ codes "/")).0 e)
    | inr n' ↦
        let (rest, e) = has_prefix_sound name (root ++ codes "/") (ground arith) in
        inr (rest, e ∙ append_assoc root (codes "/") rest)
  ]
]
