-- ===== src/SaveImport/Messages.antt =====
-- internal/controller/saveimport_controller.go, saveexport_controller.go, saveexport_progress.go: the
-- stages and the texts of a save replacement.
-- `lower_high` stands for unicode.ToLower above ASCII.
use mathlib.Core.List.{map}
use plexus_controller.Common.{
  Text, codes, text_eq, contains, is_space, byte_len, ℕ, ◌-◌, Bool, ◌&&◌, ◌||◌, Option, none, some,
  List, [], ◌∷◌, ◌++◌, ltb, leb, if◌then◌else◌, is_nil,
}
use plexus_controller.Naming.Slug.{to_lower}
use plexus_controller.SaveImport.Cluster.{Progress, Termination}

abbrev pub is : Text → Text → Bool
is s t = text_eq s t

unfoldable pub valid_import_failure_stage : Text → Bool
valid_import_failure_stage stage =
    is stage (codes "download")
    || is stage (codes "validation")
    || is stage (codes "snapshot")
    || is stage (codes "replace")
    || is stage (codes "rollback")

unfoldable pub valid_export_failure_stage : Text → Bool
valid_export_failure_stage stage =
    is stage (codes "archive") || is stage (codes "validation") || is stage (codes "upload")

unfoldable pub valid_failure_stage : Text → Bool
valid_failure_stage stage = valid_export_failure_stage stage || valid_import_failure_stage stage

unfoldable pub valid_progress : Progress → Bool
valid_progress progress =
    valid_failure_stage progress.stage && ltb 0 progress.percent && ltb progress.percent 100

-- The scanner's loop of parseLatestExporterProgress, over the lines that json.Unmarshal accepts. Its
-- error is nil: the log is limited to 8192 bytes, and the scanner takes lines of up to 65535.
unfoldable pub better : Option Progress → Progress → Option Progress
better none candidate = some candidate
better (some latest) candidate =
    if ltb latest.percent candidate.percent then some candidate else some latest

unfoldable pub latest_of : Option Progress → List Progress → Option Progress
latest_of latest [] = latest
latest_of latest (candidate ∷ candidates) =
    latest_of (if valid_progress candidate then better latest candidate else latest) candidates

unfoldable pub parse_latest_exporter_progress : List Progress → Option Progress
parse_latest_exporter_progress lines = latest_of none lines

-- strings.Fields, behind a word that is not finished
unfoldable pub fields_from : Text → Text → List Text
unfolding is_space
fields_from word [] = if is_nil word then [] else word ∷ []
fields_from word (c ∷ s) =
    let ended = fields_from [] s in
    let going = fields_from (word ++ c ∷ []) s in
    if is_space c then if is_nil word then ended else word ∷ ended else going

unfoldable pub join : Text → List Text → Text
join separator [] = []
join separator (s ∷ []) = s
join separator (s ∷ t ∷ rest) = s ++ separator ++ join separator (t ∷ rest)

-- `message[:n]` without the bytes of a character that the cut halves
unfoldable pub cut_bytes : ℕ → Text → Text
cut_bytes n [] = []
cut_bytes n (c ∷ s) =
    let rest = cut_bytes (n - byte_len (c ∷ [])) s in
    if leb (byte_len (c ∷ [])) n then c ∷ rest else []

unfoldable pub shorten : Text → Text
shorten message =
    if ltb 512 (byte_len message) then cut_bytes 509 message ++ codes "..." else message

unfoldable pub bounded_diagnostic : Text → Text
bounded_diagnostic message = shorten (join (codes " ") (fields_from [] message))

unfoldable pub import_progress_message : Progress → Text
import_progress_message progress =
    if is progress.stage (codes "download")
    then if ltb progress.percent 25
      then codes "Downloading the uploaded save archive"
      else codes "The uploaded save archive was downloaded"
    else if is progress.stage (codes "validation")
    then codes "Validating the uploaded save archive"
    else if is progress.stage (codes "snapshot")
    then if ltb progress.percent 60
      then codes "Creating an automatic recovery snapshot of the hosted save"
      else codes "The automatic recovery snapshot is ready"
    else if is progress.stage (codes "replace")
    then if ltb progress.percent 85
      then codes "Replacing the hosted save archive"
      else codes "The hosted save replacement is finalizing"
    else if is progress.stage (codes "rollback")
    then codes "Restoring the previous hosted save from the recovery snapshot"
    else codes "The save replacement is running"

unfoldable pub known_recovery : Text → Bool
known_recovery recovery =
    is recovery (codes "snapshot-created")
    || is recovery (codes "restored")
    || is recovery (codes "rollback-failed")
    || is recovery (codes "none")

unfoldable pub import_failure_recovery : Termination → Text
unfolding known_recovery text_eq
import_failure_recovery result =
    if known_recovery result.recovery
    then result.recovery
    else if is result.stage (codes "replace")
    then codes "restored"
    else if is result.stage (codes "rollback")
    then codes "rollback-failed"
    else codes "none"

module _ (lower_high : ℕ → ℕ) where
  unfoldable pub import_diagnostic_mentions_recovery : Text → Bool
  import_diagnostic_mentions_recovery message =
      let lower = map (to_lower lower_high) message in
      contains lower (codes "snapshot")
      || contains lower (codes "restored")
      || contains lower (codes "rollback")

  -- What the message adds to the importer's own diagnostic.
  unfoldable pub failure_suffix : Termination → Text
  failure_suffix result =
      if import_diagnostic_mentions_recovery result.message
      then []
      else if is result.recovery (codes "restored")
      then codes " The previous hosted save was restored from the automatic recovery snapshot."
      else if is result.recovery (codes "rollback-failed")
      then codes " Automatic rollback failed; a recoverable safety snapshot is retained."
      else if is result.recovery (codes "snapshot-created")
      then codes " A recovery snapshot of the previous save is retained."
      else if is result.stage (codes "snapshot")
      then codes " The hosted save was not replaced."
      else if is result.stage (codes "replace")
      then codes " The previous hosted save was restored from the automatic recovery snapshot."
      else if is result.stage (codes "rollback")
      then codes " Automatic rollback failed; a recoverable safety snapshot is retained."
      else codes " Plexus did not create an automatic recovery snapshot."

  unfoldable pub import_failure_message : Termination → Text
  import_failure_message result =
      codes "Save replacement failed during "
      ++ result.stage
      ++ codes ": "
      ++ result.message
      ++ failure_suffix result
