-- ===== src/Broadcast.antt =====
-- pkg/gamemanagement/factorio/v1/broadcast.go: maintenance notices, and the console command that
-- prints one. A text is its list of code points, so its length is utf8.RuneCountInString.
pub mod Closer
pub mod Notice
pub mod Examples
use mathlib.Core.List.{map}
use plexus_controller.Common.{
  Text, codes, text_eq, text_eq_iff, text_eq_self, is_empty, has_prefix, contains, contains_char,
  split_on, cons_head, trim_left, trim_right, is_space, trim_space, rune_len, byte_len, is_digit,
  is_lower, is_upper, length-le-byte_len, ℕ, zero, suc, ◌+◌, ◌-◌, ◌*◌, ◌/◌, ◌%◌, ◌^◌, ◌≤◌, ◌<◌, min,
  max, ◌≡◌, refl, sym, ap, ◌∙◌, ◌≢◌, ◌↔◌, ◌⊎◌, inl, inr, Bool, true, false, ◌&&◌, ◌||◌, not, Option,
  none, some, List, [], ◌∷◌, ◌++◌, append_assoc, append-nil, arith, ltb, leb, ◌==◌, if◌then◌else◌,
  ltb→lt, lt→ltb, leb→le, ==_iff, Bool-cases, eq-true_of_not, Option-cases, length, take, drop,
  is_nil, all, any, length-append, length-take, take_of_length-le, take-append, drop-append, All,
  All-append, All-take, All-imp, all→All,
}

abbrev pub maximum_broadcast_message_runes : ℕ
maximum_broadcast_message_runes = 240

-- The text that ends the Lua long string.
abbrev pub closer : Text
closer = codes "]==]"

abbrev pub default_planned_maintenance_notice : Text
default_planned_maintenance_notice =
    codes "The server will restart shortly for planned maintenance."

abbrev pub default_mod_update_notice : Text
default_mod_update_notice = codes "The server will restart shortly to apply pending mod updates."

-- The error returns of validateBroadcastText.
pub data BroadcastError : Type 0 where
  bad_length unsafe_characters control_characters : BroadcastError

pub data BroadcastResult : Type 0 where
  ok : Text → BroadcastResult
  err : BroadcastError → BroadcastResult

-- The trimmed updates that are not empty.
unfoldable pub cleaned_updates : List Text → List Text
unfolding trim_space
cleaned_updates [] = []
cleaned_updates (update ∷ updates) =
    let rest = cleaned_updates updates in
    if is_nil (trim_space update) then rest else trim_space update ∷ rest

-- strings.Join(texts, ", ")
unfoldable pub join_comma : List Text → Text
join_comma [] = []
join_comma (a ∷ []) = a
join_comma (a ∷ b ∷ texts) = a ++ (codes ", " ++ join_comma (b ∷ texts))

abbrev pub notice_for : List Text → Text
notice_for [] = default_planned_maintenance_notice
notice_for (a ∷ []) = codes "The server will restart shortly to apply " ++ (a ++ codes ".")
notice_for (a ∷ b ∷ texts) =
    default_mod_update_notice ++ (codes " " ++ (join_comma (a ∷ b ∷ texts) ++ codes "."))

unfoldable pub default_maintenance_notice : List Text → Text
default_maintenance_notice updates = notice_for (cleaned_updates updates)

unfoldable pub broadcast_attribution : Text → Text
unfolding trim_space
broadcast_attribution actor_email =
    if is_nil (trim_space actor_email)
    then codes "Plexus"
    else codes "Plexus · " ++ trim_space actor_email

abbrev pub is_control : ℕ → Bool
is_control r = ltb r 32 && not (r == 9)

unfoldable pub validate_broadcast_text : Text → ℕ → Option BroadcastError
unfolding contains contains_char
validate_broadcast_text value maximum_runes =
    if is_nil value || ltb maximum_runes (length value)
    then some bad_length
    else if contains_char 0 value || contains value closer
    then some unsafe_characters
    else if any is_control value
    then some control_characters
    else none

abbrev pub unless_error : Option BroadcastError → Text → BroadcastResult
unless_error none text = ok text
unless_error (some e) text = err e

abbrev pub message_or_default : Text → List Text → Text
message_or_default message updates =
    if is_nil message then default_maintenance_notice updates else message

unfoldable pub normalize_broadcast_message : Text → List Text → BroadcastResult
normalize_broadcast_message message updates =
    let text = message_or_default (trim_space message) updates in
    unless_error (validate_broadcast_text text maximum_broadcast_message_runes) text

abbrev pub attributed : Text → BroadcastResult → BroadcastResult
attributed actor_email (ok message) =
    ok (broadcast_attribution actor_email ++ (codes ": " ++ message))
attributed actor_email (err e) = err e

unfoldable pub format_attributed_notice : Text → Text → BroadcastResult
format_attributed_notice actor_email message =
    attributed actor_email (normalize_broadcast_message message [])

abbrev pub command_prefix : Text
command_prefix = codes "/silent-command game.print([==["

unfoldable pub chat_broadcast_command : Text → BroadcastResult
chat_broadcast_command notice =
    unless_error (validate_broadcast_text notice (maximum_broadcast_message_runes + 80))
      (command_prefix ++ (notice ++ codes "]==])"))
