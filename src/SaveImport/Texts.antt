-- ===== src/SaveImport/Texts.antt =====
-- internal/controller/saveimport_controller.go, saveexport_controller.go, saveexport_progress.go: bounds
-- on the texts of a save replacement, and the progress that is read from a log.
use plexus_controller.Common.{
  Text, codes, text_eq, rune_len, byte_len, ℕ, ◌+◌, ◌-◌, ◌≤◌, ◌≡◌, refl, inl, inr, true, Option,
  none, some, List, [], ◌∷◌, ◌++◌, arith, ltb, if◌then◌else◌, Bool-cases, All,
}
use plexus_controller.SaveImport.Cluster.{Progress, Termination}
use plexus_controller.SaveImport.Messages.{
  valid_progress, better, latest_of, parse_latest_exporter_progress, cut_bytes, shorten,
  bounded_diagnostic, known_recovery, import_failure_recovery,
}

byte_len-append : (s t : Text) → byte_len (s ++ t) ≡ byte_len s + byte_len t
unfolding byte_len
byte_len-append [] t = omega arith
byte_len-append (c ∷ s) t = ground (arith, byte_len-append s t)

byte_len-cut_bytes : (n : ℕ) (s : Text) → byte_len (cut_bytes n s) ≤ n
unfolding byte_len cut_bytes
byte_len-cut_bytes n [] = omega arith
byte_len-cut_bytes n (c ∷ s) = ground (arith, byte_len-cut_bytes (n - byte_len (c ∷ [])) s)

byte_len_ellipsis : byte_len (codes "...") ≡ 3
unfolding byte_len rune_len
byte_len_ellipsis = refl

byte_len-shorten : (s : Text) → byte_len (shorten s) ≤ 512
unfolding shorten
byte_len-shorten s = elim (Bool-cases (ltb 512 (byte_len s))) [
  | inl long ↦
      rw long (rw byte_len-append (ground (arith, byte_len-cut_bytes 509 s, byte_len_ellipsis)))
  | inr short ↦ rw short (ground arith)
]

-- A diagnostic has at most 512 bytes.
pub byte_len-bounded_diagnostic : (s : Text) → byte_len (bounded_diagnostic s) ≤ 512
unfolding bounded_diagnostic
byte_len-bounded_diagnostic s = byte_len-shorten _

-- The recovery of a failed replacement is one of the four that the resource's schema allows, whatever
-- the importer has written.
pub known_recovery-import_failure_recovery :
    (result : Termination) → known_recovery (import_failure_recovery result) ≡ true
unfolding import_failure_recovery known_recovery text_eq
known_recovery-import_failure_recovery result = ground arith

-- The latest progress of a log: valid, and not below any valid line.
pub record IsLatest (lines : List Progress) (latest : Progress) : Type 0 where
  pub valid : valid_progress latest ≡ true
  pub highest : All (λ line. valid_progress line ≡ true → line.percent ≤ latest.percent) lines

-- The latest progress before a line is valid, and not above a bound.
Below : Option Progress → ℕ → Type 0
Below none n = Unit {0}
Below (some latest) n = latest.percent ≤ n

IsGood : Option Progress → Type 0
IsGood none = Unit {0}
IsGood (some latest) = valid_progress latest ≡ true

abbrev next_latest : Option Progress → Progress → Option Progress
next_latest latest line = if valid_progress line then better latest line else latest

next_latest-IsGood :
    (latest : Option Progress) (line : Progress) → IsGood latest → IsGood (next_latest latest line)
unfolding IsGood better
next_latest-IsGood none line good = ground arith
next_latest-IsGood (some latest) line good = ground arith

Below-next_latest :
    (latest : Option Progress) (line : Progress) (n : ℕ)
    → Below (next_latest latest line) n
    → Below latest n × (valid_progress line ≡ true → line.percent ≤ n)
unfolding Below better
Below-next_latest none line n h = (tt, (λ valid. ground arith))
Below-next_latest (some latest) line n h = (ground arith, (λ valid. ground arith))

latest_of-highest :
    (latest : Option Progress) (lines : List Progress) (r : Progress)
    → IsGood latest
    → latest_of latest lines ≡ some r
    → (valid_progress r ≡ true)
      × Below latest r.percent
      × All (λ line. valid_progress line ≡ true → line.percent ≤ r.percent) lines
unfolding latest_of IsGood Below
latest_of-highest none [] r good h = cc
latest_of-highest (some latest) [] r good h = (ground arith, ground arith, tt)
latest_of-highest latest (line ∷ lines) r good h =
    let (valid, below, rest) =
      latest_of-highest (next_latest latest line) lines r (next_latest-IsGood latest line good) h in
    let (earlier, this) = Below-next_latest latest line r.percent below in
    (valid, earlier, (this, rest))

-- The progress that is found in a log is valid, and no valid line of the log has a higher one.
pub parse_latest_exporter_progress-IsLatest :
    (lines : List Progress) (latest : Progress)
    → parse_latest_exporter_progress lines ≡ some latest
    → IsLatest lines latest
unfolding parse_latest_exporter_progress IsGood
parse_latest_exporter_progress-IsLatest lines latest h =
    let (valid, _, highest) = latest_of-highest none lines latest tt h in
    record { valid = valid; highest = highest }
