-- ===== src/Mods/Scanned.antt =====
-- pkg/gamemanagement/factorio/v1/mods.go: the loop of ValidateModArchive.
use plexus_controller.Common.{
  Text, text_eq, text_eq_iff, text_eq_self, ℕ, ◌+◌, ◌≤◌, ◌≡◌, refl, sym, ap, ◌∙◌, ◌≢◌, ◌⊎◌, inl,
  inr, true, false, Option, none, some, List, [], ◌∷◌, arith, if◌then◌else◌, length, All, All-imp,
  Bool-cases,
}
use plexus_controller.Mods.Archive.{
  ModEntry, ModScan, Scanned, scanned, refused, safe_mod_archive_path, is_dir_mode, in_root,
  info_path, mem_text, read_entry, scan_clean, scan_mod_entry, scan_mod_entries,
  maximum_mod_expanded_bytes, and_then,
}

abbrev pub entry_bytes : ModEntry → ℕ
entry_bytes entry = if is_dir_mode entry.mode then 0 else length entry.content

unfoldable pub total_bytes : List ModEntry → ℕ
total_bytes [] = 0
total_bytes (entry ∷ entries) = entry_bytes entry + total_bytes entries

-- A step of the loop that does not fail.
record IsStep (root : Text) (entry : ModEntry) (s t : ModScan) : Type 0 where
  clean : Text
  safe : safe_mod_archive_path entry.name ≡ some clean
  inside : in_root root clean ≡ true
  new : mem_text clean s.seen ≡ false
  seen : t.seen ≡ clean ∷ s.seen
  expanded : t.expanded ≡ s.expanded + entry_bytes entry
  bound : t.expanded ≤ maximum_mod_expanded_bytes
  info : (t.info ≡ s.info) ⊎ ((t.info ≡ some entry.content) × (clean ≡ info_path root))

read_entry-bytes :
    (root clean : Text) (entry : ModEntry) (s t : ModScan)
    → s.expanded ≤ maximum_mod_expanded_bytes
    → read_entry root clean entry s ≡ scanned t
    → (t.seen ≡ clean ∷ s.seen)
      × (t.expanded ≡ s.expanded + length entry.content)
      × (t.expanded ≤ maximum_mod_expanded_bytes)
      × ((t.info ≡ s.info)
          ⊎ ((t.info ≡ some entry.content) × (text_eq clean (info_path root) ≡ true)))
unfolding read_entry
read_entry-bytes root clean entry s t h e = ground arith

IsStep-of_clean :
    (root : Text) (entry : ModEntry) (s t : ModScan) (path : Option Text)
    → safe_mod_archive_path entry.name ≡ path
    → s.expanded ≤ maximum_mod_expanded_bytes
    → scan_clean root entry s path ≡ scanned t
    → IsStep root entry s t
IsStep-of_clean root entry s t none p h e = cc
IsStep-of_clean root entry s t (some clean) p h e = elim (Bool-cases (is_dir_mode entry.mode)) [
  | inl dir ↦ record {
    clean = clean;
    safe = p;
    inside = ground arith;
    new = ground arith;
    seen = ground arith;
    expanded = ground arith;
    bound = ground arith;
    info = inl (ground arith);
  }
  | inr file ↦
      let read : read_entry root clean entry s ≡ scanned t = ground arith in
      let (seen, expanded, bound, info) = read_entry-bytes root clean entry s t h read in
      record {
        clean = clean;
        safe = p;
        inside = ground arith;
        new = ground arith;
        seen = seen;
        expanded = rw file expanded;
        bound = bound;
        info = elim info [
          | inl same ↦ inl same
          | inr (found, named) ↦ inr (found, (text_eq_iff clean (info_path root)).0 named)
        ];
      }
]

-- An entry whose path is safe and below the root, and one of another path.
pub record IsContained (root : Text) (entry : ModEntry) : Type 0 where
  pub clean : Text
  pub safe : safe_mod_archive_path entry.name ≡ some clean
  pub inside : in_root root clean ≡ true

abbrev pub HasOtherPath : ModEntry → ModEntry → Type 0
HasOtherPath a b = safe_mod_archive_path a.name ≢ safe_mod_archive_path b.name

unfoldable pub HaveOwnPaths : List ModEntry → Type 0
HaveOwnPaths [] = Unit {0}
HaveOwnPaths (entry ∷ entries) = All (HasOtherPath entry) entries × HaveOwnPaths entries

-- The content is that of an entry named info.json in the root.
unfoldable pub HasInfo : Text → List ℕ → List ModEntry → Type 0
HasInfo root content [] = ⊥
HasInfo root content (entry ∷ entries) =
    ((safe_mod_archive_path entry.name ≡ some (info_path root)) × (content ≡ entry.content))
    ⊎ HasInfo root content entries

abbrev pub IsUnseen : List Text → ModEntry → Type 0
IsUnseen seen entry =
    (clean : Text) → safe_mod_archive_path entry.name ≡ some clean → mem_text clean seen ≡ false

pub record IsRun (root : Text) (entries : List ModEntry) (s t : ModScan) : Type 0 where
  pub contained : All (IsContained root) entries
  pub unseen : All (IsUnseen s.seen) entries
  pub own : HaveOwnPaths entries
  pub bytes : t.expanded ≡ s.expanded + total_bytes entries
  pub bound : t.expanded ≤ maximum_mod_expanded_bytes
  pub info :
      (t.info ≡ s.info)
      ⊎ ((content : List ℕ) × (t.info ≡ some content) × HasInfo root content entries)

IsUnseen-tail :
    (clean : Text) (seen : List Text) (e : ModEntry) → IsUnseen (clean ∷ seen) e → IsUnseen seen e
IsUnseen-tail clean seen e h other safe = let new = h other safe in ground arith

unseen_head :
    (clean : Text) (seen : List Text) (d e : ModEntry)
    → safe_mod_archive_path d.name ≡ some clean
    → IsUnseen (clean ∷ seen) e
    → HasOtherPath d e
unseen_head clean seen d e safe h same =
    let new = h clean (sym same ∙ safe) in cc (text_eq_self clean)

and_then-scanned :
    (first : Scanned) (next : ModScan → Scanned) (t : ModScan)
    → and_then first next ≡ scanned t
    → (u : ModScan) × (first ≡ scanned u) × (next u ≡ scanned t)
and_then-scanned (scanned u) next t h = (u, refl, h)
and_then-scanned (refused e) next t h = cc

some-inj : {A : Type 0} {a b : A} → some a ≡ some b → a ≡ b
some-inj e = ground arith

scanned-inj : {s t : ModScan} → scanned s ≡ scanned t → s ≡ t
scanned-inj e = ground arith

pub IsRun-of_scan :
    (root : Text) (entries : List ModEntry) (s t : ModScan)
    → s.expanded ≤ maximum_mod_expanded_bytes
    → scan_mod_entries root entries s ≡ scanned t
    → IsRun root entries s t
unfolding scan_mod_entries scan_mod_entry total_bytes HaveOwnPaths HasInfo
IsRun-of_scan root [] s t h e =
    let same = scanned-inj e in
    record {
      contained = tt;
      unseen = tt;
      own = tt;
      bytes = ground (arith, ap (λ u. u.expanded) (sym same));
      bound = rw same at h;
      info = inl (ap (λ u. u.info) (sym same));
    }
IsRun-of_scan root (entry ∷ entries) s t h e =
    let (u, first, rest) = and_then-scanned _ _ t e in
    let step = IsStep-of_clean root entry s u _ refl h first in
    let ih = IsRun-of_scan root entries u t step.bound rest in
    let unseen : All (IsUnseen (step.clean ∷ s.seen)) entries = rw step.seen at ih.unseen in
    record {
      contained =
          (record { clean = step.clean; safe = step.safe; inside = step.inside }, ih.contained);
      unseen = (
        (λ other safe.
            let same : step.clean ≡ other = some-inj (sym step.safe ∙ safe) in rw same at step.new),
        All-imp _ _ entries (IsUnseen-tail step.clean s.seen) unseen,
      );
      own = (
        All-imp _ _ entries (λ d. unseen_head step.clean s.seen entry d step.safe) unseen,
        ih.own,
      );
      bytes = ground (arith, ih.bytes, step.expanded);
      bound = ih.bound;
      info = elim ih.info [
        | inl same ↦ elim step.info [
          | inl old ↦ inl (same ∙ old)
          | inr (found, named) ↦
              inr (entry.content, same ∙ found, inl (step.safe ∙ ap some named, refl))
        ]
        | inr (content, found, has) ↦ inr (content, found, inr has)
      ];
    }
