-- ===== src/Mods/Contained.antt =====
-- pkg/gamemanagement/factorio/v1/mods.go: what safeModArchivePath makes sure of.
use plexus_controller.Common.{
  Text, codes, text_eq, text_eq_iff, has_prefix, split_on, cons_head, ℕ, ◌≡◌, refl, ap, ◌∙◌, ◌≢◌,
  ◌⊎◌, inl, inr, true, false, ◌&&◌, ◌||◌, not, some, List, [], ◌∷◌, append_assoc, arith, ◌==◌,
  is_nil, All, All-imp, Bool-cases,
}
use plexus_controller.Mods.Decimal.{split_on-free, split_on-between}
use plexus_controller.Mods.Archive.{
  join, clean_step, clean_components, reversed, or_dot, path_clean, safe_mod_archive_path,
}

abbrev IsFree : Text → Type 0
IsFree part = All (λ c. (c == b'/') ≡ false) part

-- The parts of a text that is split at slashes have none.
split_on-IsFree : (s : Text) → All IsFree (split_on b'/' s)
unfolding split_on
split_on-IsFree [] = (tt, tt)
split_on-IsFree (c ∷ s) = elim (Bool-cases (c == b'/')) [
  | inl e ↦ rw e (tt, split_on-IsFree s)
  | inr e ↦ rw e (longer c (split_on b'/' s) e (split_on-IsFree s))
]
  where
    longer :
        (d : ℕ) (parts : List Text)
        → (d == b'/') ≡ false
        → All IsFree parts
        → All IsFree (cons_head d parts)
    longer d [] e h = ((e, tt), tt)
    longer d (part ∷ parts) e (h, hs) = ((e, h), hs)

-- A component that Clean leaves.
record IsKept (part : Text) : Type 0 where
  filled : is_nil part ≡ false
  no_dot : text_eq part (codes ".") ≡ false
  free : IsFree part

clean_step-IsKept :
    (part : Text) (stack : List Text)
    → IsFree part
    → All IsKept stack
    → All IsKept (clean_step part stack)
clean_step-IsKept part [] f h = elim (Bool-cases (is_nil part || text_eq part (codes "."))) [
  | inl e ↦ rw e tt
  | inr e ↦ rw e (record { filled = ground arith; no_dot = ground arith; free = f }, tt)
]
clean_step-IsKept part (top ∷ stack) f (h, hs) =
    elim (Bool-cases (is_nil part || text_eq part (codes "."))) [
      | inl e ↦ rw e (h, hs)
      | inr e ↦
          let kept : IsKept part = record {
            filled = ground arith;
            no_dot = ground arith;
            free = f;
          } in
          elim (Bool-cases (text_eq part (codes "..") && not (text_eq top (codes "..")))) [
            | inl up ↦ rw e (rw up hs)
            | inr down ↦ rw e (rw down (kept, (h, hs)))
          ]
    ]

-- Components that go up stand below all others.
unfoldable IsShaped : List Text → Type 0
IsShaped [] = Unit {0}
IsShaped (x ∷ stack) =
    ((text_eq x (codes "..") ≡ false) × IsShaped stack)
    ⊎ All (λ y. text_eq y (codes "..") ≡ true) (x ∷ stack)

clean_step-IsShaped :
    (part : Text) (stack : List Text) → IsShaped stack → IsShaped (clean_step part stack)
unfolding IsShaped
clean_step-IsShaped part [] h = elim (Bool-cases (is_nil part || text_eq part (codes "."))) [
  | inl e ↦ rw e tt
  | inr e ↦ elim (Bool-cases (text_eq part (codes ".."))) [
    | inl up ↦ rw e (inr (up, tt))
    | inr down ↦ rw e (inl (down, tt))
  ]
]
clean_step-IsShaped part (top ∷ stack) h =
    elim (Bool-cases (is_nil part || text_eq part (codes "."))) [
      | inl e ↦ rw e h
      | inr e ↦ elim (Bool-cases (text_eq part (codes ".."))) [
        | inr down ↦ rw e (rw down (inl (down, h)))
        | inl up ↦ elim (Bool-cases (text_eq top (codes ".."))) [
          | inl above ↦
              rw e
                (rw up (rw above (inr (up, elim h [ inl (low, _) ↦ absurd cc | inr ups ↦ ups ]))))
          | inr below ↦
              rw e (rw up (rw below (elim h [ inl (_, rest) ↦ rest | inr (high, _) ↦ absurd cc ])))
        ]
      ]
    ]

clean_components-IsKept :
    (parts stack : List Text)
    → All IsFree parts
    → All IsKept stack
    → All IsKept (clean_components parts stack)
unfolding clean_components
clean_components-IsKept [] stack f h = h
clean_components-IsKept (part ∷ parts) stack (f, fs) h =
    clean_components-IsKept parts _ fs (clean_step-IsKept part stack f h)

clean_components-IsShaped :
    (parts stack : List Text) → IsShaped stack → IsShaped (clean_components parts stack)
unfolding clean_components
clean_components-IsShaped [] stack h = h
clean_components-IsShaped (part ∷ parts) stack h =
    clean_components-IsShaped parts _ (clean_step-IsShaped part stack h)

All-reversed :
    (P : Text → Type 0) (xs onto : List Text) → All P xs → All P onto → All P (reversed xs onto)
All-reversed P [] onto h k = k
All-reversed P (x ∷ xs) onto (h, hs) k = All-reversed P xs (x ∷ onto) hs (h, k)

-- The component that comes first.
abbrev GoesUp : List Text → Type 0
GoesUp [] = ⊥
GoesUp (x ∷ xs) = text_eq x (codes "..") ≡ true

up_first-All :
    (x : Text) (xs onto : List Text)
    → All (λ y. text_eq y (codes "..") ≡ true) (x ∷ xs)
    → GoesUp (reversed (x ∷ xs) onto)
up_first-All x [] onto (h, _) = h
up_first-All x (y ∷ xs) onto (h, hs) = up_first-All y xs (x ∷ onto) hs

-- No component goes up, or the first one does.
up_first :
    (xs onto : List Text)
    → IsShaped xs
    → All (λ y. text_eq y (codes "..") ≡ false) xs ⊎ GoesUp (reversed xs onto)
unfolding IsShaped
up_first [] onto h = inl tt
up_first (x ∷ xs) onto (inl (low, rest)) = elim (up_first xs (x ∷ onto) rest) [
  | inl nos ↦ inl (low, nos)
  | inr up ↦ inr up
]
up_first (x ∷ xs) onto (inr ups) = inr (up_first-All x xs onto ups)

split_on-join :
    (part : Text) (parts : List Text)
    → All IsFree (part ∷ parts)
    → split_on b'/' (join (codes "/") (part ∷ parts)) ≡ part ∷ parts
unfolding join
split_on-join part [] (f, _) = split_on-free b'/' part f
split_on-join part (q ∷ parts) (f, fs) =
    ap (split_on b'/') (append_assoc part (codes "/") (join (codes "/") (q ∷ parts)))
    ∙ split_on-between b'/' part _ f
    ∙ ap (λ rest. part ∷ rest) (split_on-join q parts fs)

-- A component that names a file or a directory below.
pub record IsName (part : Text) : Type 0 where
  pub filled : part ≢ []
  pub here : part ≢ codes "."
  pub above : part ≢ codes ".."

unequal : (s t : Text) → text_eq s t ≡ false → s ≢ t
unequal s t h e = let same = (text_eq_iff s t).1 e in cc

IsName-kept : (part : Text) → IsKept part × (text_eq part (codes "..") ≡ false) → IsName part
IsName-kept part (kept, low) = record {
  filled = λ e. cc (rw e at kept.filled);
  here = unequal part (codes ".") kept.no_dot;
  above = unequal part (codes "..") low;
}

All-both : (P Q : Text → Type 0) (xs : List Text) → All P xs → All Q xs → All (λ x. P x × Q x) xs
All-both P Q [] h k = tt
All-both P Q (x ∷ xs) (h, hs) (k, ks) = ((h, k), All-both P Q xs hs ks)

-- A path that goes up is refused.
refused_up :
    (x : Text) (xs : List Text)
    → text_eq x (codes "..") ≡ true
    → (text_eq (join (codes "/") (x ∷ xs)) (codes "..")
        || has_prefix (join (codes "/") (x ∷ xs)) (codes "../"))
      ≡ true
unfolding join has_prefix text_eq
refused_up x [] h = rw h refl
refused_up x (y ∷ xs) h = let same = (text_eq_iff x (codes "..")).0 h in rw same refl

IsName-of_components :
    (parts : List Text)
    → All IsKept parts
    → All (λ y. text_eq y (codes "..") ≡ false) parts ⊎ GoesUp parts
    → text_eq (or_dot parts) (codes ".") ≡ false
    → (text_eq (or_dot parts) (codes "..") || has_prefix (or_dot parts) (codes "../")) ≡ false
    → All IsName (split_on b'/' (or_dot parts))
unfolding text_eq
IsName-of_components [] kept low e f = cc
IsName-of_components (x ∷ xs) kept (inr up) e f = cc (refused_up x xs up)
IsName-of_components (x ∷ xs) kept (inl low) e f =
    rw (split_on-join x xs (All-imp IsKept IsFree (x ∷ xs) (λ part k. k.free) kept)) (
      All-imp _ IsName (x ∷ xs) IsName-kept
        (All-both IsKept (λ y. text_eq y (codes "..") ≡ false) (x ∷ xs) kept low))

-- What safeModArchivePath accepts stays below the root of the archive: each component of the path that it
-- returns is a name, not empty, "." or "..".
pub safe_mod_archive_path-IsName :
    (name clean : Text) → safe_mod_archive_path name ≡ some clean → All IsName (split_on b'/' clean)
unfolding safe_mod_archive_path path_clean IsShaped
safe_mod_archive_path-IsName name clean h =
    let stack = clean_components (split_on b'/' name) [] in
    let kept = clean_components-IsKept (split_on b'/' name) [] (split_on-IsFree name) tt in
    let shaped = clean_components-IsShaped (split_on b'/' name) [] tt in
    let same : path_clean name ≡ clean = ground arith in
    rw same at (
      IsName-of_components (reversed stack []) (All-reversed IsKept stack [] kept tt)
        (low_or_up stack (up_first stack [] shaped)) (ground arith) (ground arith))
  where
    low_or_up :
        (xs : List Text)
        → All (λ y. text_eq y (codes "..") ≡ false) xs ⊎ GoesUp (reversed xs [])
        → All (λ y. text_eq y (codes "..") ≡ false) (reversed xs []) ⊎ GoesUp (reversed xs [])
    low_or_up xs (inl low) = inl (All-reversed (λ y. text_eq y (codes "..") ≡ false) xs [] low tt)
    low_or_up xs (inr up) = inr up
