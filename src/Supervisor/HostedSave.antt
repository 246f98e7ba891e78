-- ===== src/Supervisor/HostedSave.antt =====
-- internal/supervisor/factorio/adapter.go: selectHostedSave, the save archive that the game boots
-- from. The entries of the directory are handed over in the order of os.ReadDir; a time is a number.
use mathlib.Core.Path.{subst}
use plexus_controller.Common.{
  Text, ℕ, ◌+◌, ◌≤◌, ◌<◌, ◌≡◌, refl, ◌∙◌, ◌⊎◌, inl, inr, Bool, true, false, ◌&&◌, not, Option, none,
  some, List, [], ◌∷◌, ◌++◌, append_assoc, append-nil, arith, ltb, ◌==◌, if◌then◌else◌, ltb→lt,
  Bool-cases, All, All-append,
}
use plexus_controller.Saves.Paths.{path_ext, is_zip_ext}

pub record Entry : Type 0 where
  pub name : Text
  pub symlink : Bool  -- entry.Type()&os.ModeSymlink != 0
  pub readable : Bool  -- entry.Info() returns no error
  pub regular : Bool  -- info.Mode().IsRegular()
  pub modified : ℕ  -- info.ModTime()

-- The local variables of the loop; `selected` is none until `found`.
pub record Selection : Type 0 where
  pub selected : Option Entry
  pub tied : Bool

-- The entries that the loop does not pass over.
unfoldable pub is_candidate : Entry → Bool
unfolding path_ext is_zip_ext
is_candidate e = not e.symlink && is_zip_ext (path_ext e.name) && e.readable && e.regular

abbrev pub prefer : Selection → Option Entry → Entry → Selection
prefer s none e = record { selected = some e; tied = false }
prefer s (some best) e =
    if ltb best.modified e.modified
    then record { selected = some e; tied = false }
    else if e.modified == best.modified
    then record s { tied = true }
    else s

-- One round of the loop.
unfoldable pub select_step : Selection → Entry → Selection
select_step s e = if is_candidate e then prefer s s.selected e else s

unfoldable pub select_loop : Selection → List Entry → Selection
select_loop s [] = s
select_loop s (e ∷ es) = select_loop (select_step s e) es

-- The results: a name, or one of the two errors.
pub data HostedSave : Type 0 where
  ok : Text → HostedSave
  no_save ambiguous : HostedSave

abbrev pub selection_result : Option Entry → Bool → HostedSave
selection_result none tied = no_save
selection_result (some e) tied = if tied then ambiguous else ok e.name

unfoldable pub select_hosted_save : List Entry → HostedSave
select_hosted_save entries =
    let s = select_loop (record { selected = none; tied = false }) entries in
    selection_result s.selected s.tied

-- How many candidates are as late as `t`.
abbrev pub count_at : ℕ → List Entry → ℕ
count_at t [] = 0
count_at t (e ∷ es) = (if is_candidate e && e.modified == t then 1 else 0) + count_at t es

-- Every candidate is at most as late as `t`.
abbrev pub AllBy : ℕ → List Entry → Type 0
AllBy t = All (λ e. is_candidate e ≡ true → e.modified ≤ t)

abbrev pub InList : Entry → List Entry → Type 0
InList e [] = ⊥
InList e (x ∷ xs) = (e ≡ x) ⊎ InList e xs

-- What the three results say of the entries: the name is that of the one latest candidate; or there
-- is no candidate; or at least two candidates are the latest.
abbrev pub IsChosen : List Entry → HostedSave → Type 0
IsChosen es (ok name) =
    (e : Entry) × (e.name ≡ name)
    × InList e es
    × (is_candidate e ≡ true)
    × AllBy e.modified es
    × (count_at e.modified es ≡ 1)
IsChosen es no_save = All (λ e. is_candidate e ≡ false) es
IsChosen es ambiguous = (t : ℕ) × AllBy t es × (2 ≤ count_at t es)

-- The state of the loop behind the entries `seen`.
abbrev Behind : List Entry → Option Entry → Bool → Type 0
Behind seen none tied = All (λ e. is_candidate e ≡ false) seen
Behind seen (some best) tied =
    InList best seen
    × (is_candidate best ≡ true)
    × AllBy best.modified seen
    × (1 ≤ count_at best.modified seen)
    × (tied ≡ ltb 1 (count_at best.modified seen))

count_at-snoc :
    (t : ℕ) (seen : List Entry) (e : Entry)
    → count_at t (seen ++ e ∷ [])
      ≡ count_at t seen + (if is_candidate e && e.modified == t then 1 else 0)
count_at-snoc t [] e = omega arith
count_at-snoc t (x ∷ seen) e = omega (arith, count_at-snoc t seen e)

InList-snoc_left :
    (a : Entry) (seen : List Entry) (e : Entry) → InList a seen → InList a (seen ++ e ∷ [])
InList-snoc_left a [] e h = elim h [ ]
InList-snoc_left a (x ∷ seen) e (inl h) = inl h
InList-snoc_left a (x ∷ seen) e (inr h) = inr (InList-snoc_left a seen e h)

InList-snoc_self : (seen : List Entry) (e : Entry) → InList e (seen ++ e ∷ [])
InList-snoc_self [] e = inl refl
InList-snoc_self (x ∷ seen) e = inr (InList-snoc_self seen e)

-- No candidate is later than a bound.
count_at_above : (t u : ℕ) (seen : List Entry) → AllBy t seen → t < u → count_at u seen ≡ 0
count_at_above t u [] h k = refl
count_at_above t u (x ∷ seen) (p, h) k = elim (Bool-cases (is_candidate x)) [
  | inl c ↦ rw c (ground (arith, p c, count_at_above t u seen h k))
  | inr c ↦ rw c (omega (arith, count_at_above t u seen h k))
]

count_at_of_none :
    (u : ℕ) (seen : List Entry) → All (λ e. is_candidate e ≡ false) seen → count_at u seen ≡ 0
count_at_of_none u [] h = refl
count_at_of_none u (x ∷ seen) (c, h) = rw c (omega (arith, count_at_of_none u seen h))

AllBy-of_none : (u : ℕ) (seen : List Entry) → All (λ e. is_candidate e ≡ false) seen → AllBy u seen
AllBy-of_none u [] h = tt
AllBy-of_none u (x ∷ seen) (c, h) = ((λ p. cc), AllBy-of_none u seen h)

AllBy-mono : (t u : ℕ) (seen : List Entry) → t ≤ u → AllBy t seen → AllBy u seen
AllBy-mono t u [] k h = tt
AllBy-mono t u (x ∷ seen) k (p, h) = ((λ c. omega (arith, p c)), AllBy-mono t u seen k h)

AllBy-snoc :
    (t : ℕ) (seen : List Entry) (e : Entry)
    → AllBy t seen
    → (is_candidate e ≡ true → e.modified ≤ t)
    → AllBy t (seen ++ e ∷ [])
AllBy-snoc t seen e h p = All-append _ seen (e ∷ []) h (p, tt)

-- A candidate that is later than all before it.
Behind-latest :
    (seen : List Entry) (e : Entry)
    → is_candidate e ≡ true
    → count_at e.modified seen ≡ 0
    → AllBy e.modified seen
    → Behind (seen ++ e ∷ []) (some e) false
Behind-latest seen e c zero_before by = (
  InList-snoc_self seen e,
  c,
  AllBy-snoc e.modified seen e by (λ _. omega arith),
  omega (arith, one),
  rw one,
)
  where
    one : count_at e.modified (seen ++ e ∷ []) ≡ 1
    one = count_at-snoc e.modified seen e ∙ rw (zero_before, c) (ground arith)

-- An entry that leaves the selection as it is.
Behind-kept :
    (seen : List Entry) (e best : Entry) (tied tied' : Bool)
    → Behind seen (some best) tied
    → (is_candidate e ≡ true → e.modified ≤ best.modified)
    → tied' ≡ ltb 1 (count_at best.modified (seen ++ e ∷ []))
    → Behind (seen ++ e ∷ []) (some best) tied'
Behind-kept seen e best tied tied' h p same = (
  InList-snoc_left best seen e h.0,
  h.1,
  AllBy-snoc best.modified seen e h.2 p,
  omega (arith, count_at-snoc best.modified seen e, h.3),
  same,
)

select_step-Behind :
    (seen : List Entry) (e : Entry) (o : Option Entry) (tied : Bool)
    → Behind seen o tied
    → Behind
        (seen ++ e ∷ [])
        (select_step (record { selected = o; tied = tied }) e).selected
        (select_step (record { selected = o; tied = tied }) e).tied
unfolding select_step
select_step-Behind seen e none tied h = elim (Bool-cases (is_candidate e)) [
  | inl c ↦ rw c (
      Behind-latest seen e c (count_at_of_none e.modified seen h) (AllBy-of_none e.modified seen h))
  | inr c ↦ rw c (All-append _ seen (e ∷ []) h (c, tt))
]
select_step-Behind seen e (some best) tied h = elim (Bool-cases (is_candidate e)) [
  | inl c ↦ rw c (elim (Bool-cases (ltb best.modified e.modified)) [
    | inl above ↦
        let later = ltb→lt best.modified e.modified above in
        rw above (
          Behind-latest seen e c (count_at_above best.modified e.modified seen h.2 later)
            (AllBy-mono best.modified e.modified seen (omega arith) h.2))
    | inr below ↦ rw below (elim (Bool-cases (e.modified == best.modified)) [
      | inl same ↦ rw same (
          Behind-kept seen e best tied true h (λ _. ground arith)
            (ground (arith, count_at-snoc best.modified seen e)))
      | inr other ↦ rw other (
          Behind-kept seen e best tied tied h (λ _. ground arith)
            (ground (arith, count_at-snoc best.modified seen e)))
    ])
  ])
  | inr c ↦ rw c (
      Behind-kept seen e best tied tied h (λ p. cc)
        (ground (arith, count_at-snoc best.modified seen e)))
]

select_loop-Behind :
    (seen es : List Entry) (s : Selection)
    → Behind seen s.selected s.tied
    → Behind (seen ++ es) (select_loop s es).selected (select_loop s es).tied
unfolding select_loop
select_loop-Behind seen [] s h = rw append-nil h
select_loop-Behind seen (e ∷ es) s h =
    subst
      (λ l.
        Behind l (select_loop (select_step s e) es).selected
          (select_loop (select_step s e) es).tied)
      (append_assoc seen (e ∷ []) es)
      (select_loop-Behind (seen ++ e ∷ []) es (select_step s e)
        (select_step-Behind seen e s.selected s.tied h))

IsChosen-of_Behind :
    (es : List Entry) (o : Option Entry) (tied : Bool)
    → Behind es o tied
    → IsChosen es (selection_result o tied)
IsChosen-of_Behind es none tied h = h
IsChosen-of_Behind es (some e) true (inside, c, by, one, same) = (e.modified, by, ground arith)
IsChosen-of_Behind es (some e) false (inside, c, by, one, same) =
    (e, refl, inside, c, by, ground arith)

-- Of the candidates (regular files with a .zip name that are no links) the one that is later than
-- all others is selected; without a candidate, and where the latest time is shared, an error says so.
pub select_hosted_save-IsChosen : (es : List Entry) → IsChosen es (select_hosted_save es)
unfolding select_hosted_save
select_hosted_save-IsChosen es = IsChosen-of_Behind es _ _ (select_loop-Behind [] es _ tt)
