-- ===== src/Saves/Archive/Entries.antt =====
-- What the whole loop of ValidateSaveArchive leaves behind when it returns no error.
use mathlib.Core.List.{map}
use plexus_controller.Common.{
  Text, text_eq_self, ℕ, ◌+◌, ◌≤◌, ◌≡◌, ap, ◌∙◌, ◌≢◌, ◌⊎◌, inl, inr, true, false, some, List, [],
  ◌∷◌, ◌++◌, append_assoc, append-nil, arith, All,
}
use plexus_controller.Saves.Paths.{path_base}
use plexus_controller.Common.Int.{ℤ, pos, negsuc}
use plexus_controller.Saves.Archive.{
  >>=-eq-ok, ArchiveEntry, ok, Scan, mem_text, exceeds, size_of, is_level, is_level_init,
  scan_entry, scan_entries, maximum_save_expanded_bytes,
}
use plexus_controller.Saves.Archive.Loop.{
  is_required, scan_entry-Round, scan_entry-kept, scan_entry-placed, scan_entry-level,
  scan_entry-level_init,
}
use plexus_controller.Saves.Archive.Spec.{
  IsContained, in_root, Any, Distinct, total, unsafe_archive_path_sound, factorio_save_root_sound,
}

-- The loop takes one round first.
scan_entries-cons :
    (s : Scan) (e : ArchiveEntry) (es : List ArchiveEntry) {s' : Scan}
    → scan_entries s (e ∷ es) ≡ ok s'
    → (mid : Scan) × (scan_entry s e ≡ ok mid) × (scan_entries mid es ≡ ok s')
unfolding scan_entries
scan_entries-cons s e es h = >>=-eq-ok (scan_entry s e) (λ next. scan_entries next es) h

pub scan_entries-IsContained :
    (s : Scan) (es : List ArchiveEntry) {s' : Scan}
    → scan_entries s es ≡ ok s'
    → All (λ e. IsContained e.name) es
scan_entries-IsContained s [] h = tt
scan_entries-IsContained s (e ∷ es) h =
    let (mid, here, later) = scan_entries-cons s e es h in
    (
      unsafe_archive_path_sound e.name (scan_entry-Round s e here).safe,
      scan_entries-IsContained mid es later,
    )

-- A name in `seen` does not come again.
pub scan_entries-fresh :
    (s : Scan) (x : Text) (es : List ArchiveEntry) {s' : Scan}
    → scan_entries s es ≡ ok s'
    → mem_text x s.seen ≡ true
    → All (λ y. x ≢ y) (map (λ (e : ArchiveEntry). e.name) es)
scan_entries-fresh s x [] h m = tt
scan_entries-fresh s x (e ∷ es) h m =
    let (mid, here, later) = scan_entries-cons s e es h in
    let round = scan_entry-Round s e here in
    (
      (λ same. ground (arith, ap (λ y. mem_text y s.seen) same)),
      scan_entries-fresh mid x es later (rw round.seen (unfold mem_text in ground arith)),
    )

pub scan_entries-Distinct :
    (s : Scan) (es : List ArchiveEntry) {s' : Scan}
    → scan_entries s es ≡ ok s'
    → Distinct (map (λ (e : ArchiveEntry). e.name) es)
scan_entries-Distinct s [] h = tt
scan_entries-Distinct s (e ∷ es) h =
    let (mid, here, later) = scan_entries-cons s e es h in
    (
      scan_entries-fresh mid e.name es later
          (rw (scan_entry-Round s e here).seen (unfold mem_text in rw (text_eq_self e.name))),
      scan_entries-Distinct mid es later,
    )

exceeds_lem :
    (size : ℤ) (expanded : ℕ)
    → exceeds size expanded ≡ false
    → expanded ≤ maximum_save_expanded_bytes
    → expanded + size_of size ≤ maximum_save_expanded_bytes
exceeds_lem (pos n) expanded h k = ground arith
exceeds_lem (negsuc n) expanded h k = cc

pub scan_entries-total :
    (s : Scan) (es : List ArchiveEntry) {s' : Scan}
    → scan_entries s es ≡ ok s'
    → s.expanded_bytes ≤ maximum_save_expanded_bytes
    → s.expanded_bytes + total es ≤ maximum_save_expanded_bytes
scan_entries-total s [] h k = omega arith
scan_entries-total s (e ∷ es) h k =
    let (mid, here, later) = scan_entries-cons s e es h in
    let round = scan_entry-Round s e here in
    let fits = exceeds_lem e.uncompressed_bytes s.expanded_bytes round.fits k in
    omega (arith, round.size, scan_entries-total mid es later (rw round.size fits))

pub scan_entries-names :
    (s : Scan) (es : List ArchiveEntry) {s' : Scan}
    → scan_entries s es ≡ ok s'
    → s'.entry_names ≡ s.entry_names ++ map (λ (e : ArchiveEntry). e.name) es
unfolding scan_entries
scan_entries-names s [] h = ground (arith, append-nil s.entry_names)
scan_entries-names s (e ∷ es) h =
    let (mid, here, later) = scan_entries-cons s e es h in
    scan_entries-names mid es later
    ∙ (ap (λ n. n ++ map (λ (e : ArchiveEntry). e.name) es) (scan_entry-Round s e here).names
        ∙ append_assoc s.entry_names (e.name ∷ []) (map (λ (e : ArchiveEntry). e.name) es))

pub scan_entries-kept :
    (s : Scan) (es : List ArchiveEntry) (root : Text) {s' : Scan}
    → scan_entries s es ≡ ok s'
    → s.save_root ≡ some root
    → s'.save_root ≡ some root
unfolding scan_entries
scan_entries-kept s [] root h set = ground arith
scan_entries-kept s (e ∷ es) root h set =
    let (mid, here, later) = scan_entries-cons s e es h in
    scan_entries-kept mid es root later (scan_entry-kept s e root here set)

-- Every required file of the rest is placed under the root that the loop ends with.
pub scan_entries-placed :
    (s : Scan) (es : List ArchiveEntry) {s' : Scan}
    → scan_entries s es ≡ ok s'
    → (root : Text) → s'.save_root ≡ some root
    → All (λ e. is_required e ≡ true → e.name ≡ in_root root (path_base e.name)) es
scan_entries-placed s [] h root set = tt
scan_entries-placed s (e ∷ es) {s'} h root set =
    let (mid, here, later) = scan_entries-cons s e es h in
    (
      (λ r.
          let (root', own, cut) = scan_entry-placed s e here r in
          let same : root' ≡ root = ground (arith, scan_entries-kept mid es root' later own) in
          (factorio_save_root_sound e.name (path_base e.name) root
            (cut ∙ ap (λ t. some t) same)).0),
      scan_entries-placed mid es later root set,
    )

-- A flag that the loop ends with was set before, or by an entry.
pub scan_entries-level :
    (s : Scan) (es : List ArchiveEntry) {s' : Scan}
    → scan_entries s es ≡ ok s'
    → s'.level ≡ true
    → (s.level ≡ true) ⊎ Any (λ e. (e.directory ≡ false) × (is_level (path_base e.name) ≡ true)) es
unfolding scan_entries
scan_entries-level s [] h l = ground arith
scan_entries-level s (e ∷ es) h l =
    let (mid, here, later) = scan_entries-cons s e es h in
    elim (scan_entries-level mid es later l) [
      | inl before ↦ elim (scan_entry-level s e here before) [ inl a ↦ inl a | inr b ↦ inr (inl b) ]
      | inr behind ↦ inr (inr behind)
    ]

pub scan_entries-level_init :
    (s : Scan) (es : List ArchiveEntry) {s' : Scan}
    → scan_entries s es ≡ ok s'
    → s'.level_init ≡ true
    → (s.level_init ≡ true)
      ⊎ Any (λ e. (e.directory ≡ false) × (is_level_init (path_base e.name) ≡ true)) es
unfolding scan_entries
scan_entries-level_init s [] h l = ground arith
scan_entries-level_init s (e ∷ es) h l =
    let (mid, here, later) = scan_entries-cons s e es h in
    elim (scan_entries-level_init mid es later l) [
      | inl before ↦ elim (scan_entry-level_init s e here before) [
        | inl a ↦ inl a
        | inr b ↦ inr (inl b)
      ]
      | inr behind ↦ inr (inr behind)
    ]

-- Where a required file was met, a root is set.
pub scan_entries-root :
    (s : Scan) (es : List ArchiveEntry) {s' : Scan}
    → scan_entries s es ≡ ok s'
    → Any (λ e. is_required e ≡ true) es
    → (root : Text) × (s'.save_root ≡ some root)
scan_entries-root s [] h m = elim m [ ]
scan_entries-root s (e ∷ es) h (inl r) =
    let (mid, here, later) = scan_entries-cons s e es h in
    let (root, own, _) = scan_entry-placed s e here r in
    (root, scan_entries-kept mid es root later own)
scan_entries-root s (e ∷ es) h (inr m) =
    let (mid, _, later) = scan_entries-cons s e es h in scan_entries-root mid es later m
