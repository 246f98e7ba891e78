-- ===== src/Broadcast/Notice.antt =====
-- What NormalizeBroadcastMessage accepts and returns.
use plexus_controller.Common.{
  Text, contains, contains_char, trim_space, ℕ, ◌≤◌, ◌≡◌, refl, ◌≢◌, ◌↔◌, ◌⊎◌, inl, inr, false,
  Option, none, some, List, [], ◌∷◌, arith, length, any, All,
}
use plexus_controller.Broadcast.{
  maximum_broadcast_message_runes, closer, ok, BroadcastError, validate_broadcast_text,
  unless_error, is_control, normalize_broadcast_message, message_or_default,
  default_maintenance_notice, cleaned_updates, default_planned_maintenance_notice,
}

-- A notice that may be shown: between one and `maximum` characters, no NUL, no Lua closer, and no
-- control character but the tab.
pub record IsNotice (maximum : ℕ) (text : Text) : Type 0 where
  pub lower : 1 ≤ length text
  pub upper : length text ≤ maximum
  pub no_nul : contains_char 0 text ≡ false
  pub no_closer : contains text closer ≡ false
  pub printable : All (λ r. (32 ≤ r) ⊎ (r ≡ 9)) text

printable_of_any : (s : Text) → any is_control s ≡ false → All (λ r. (32 ≤ r) ⊎ (r ≡ 9)) s
printable_of_any [] h = tt
printable_of_any (r ∷ s) h = (ground arith, printable_of_any s (ground arith))

any_of_printable : (s : Text) → All (λ r. (32 ≤ r) ⊎ (r ≡ 9)) s → any is_control s ≡ false
any_of_printable [] h = refl
any_of_printable (r ∷ s) (p, h) = ground (arith, any_of_printable s h)

-- validateBroadcastText returns no error exactly for the notices of at most that many characters.
pub validate_broadcast_text_iff :
    (text : Text) (maximum : ℕ)
    → (validate_broadcast_text text maximum ≡ none) ↔ IsNotice maximum text
unfolding validate_broadcast_text
validate_broadcast_text_iff text maximum = (sound text, complete text)
  where
    sound : (s : Text) → validate_broadcast_text s maximum ≡ none → IsNotice maximum s
    sound [] h = cc
    sound (r ∷ s) h = record {
      lower = omega arith;
      upper = ground arith;
      no_nul = ground arith;
      no_closer = ground arith;
      printable = printable_of_any (r ∷ s) (ground arith);
    }

    complete : (s : Text) → IsNotice maximum s → validate_broadcast_text s maximum ≡ none
    complete [] n = absurd (omega arith)
    complete (r ∷ s) n = ground (arith, any_of_printable (r ∷ s) n.printable)

unless_error-ok :
    (o : Option BroadcastError) (t : Text) {text : Text}
    → unless_error o t ≡ ok text
    → (o ≡ none) × (text ≡ t)
unless_error-ok none t h = ground arith
unless_error-ok (some e) t h = cc

message_or_default-cases :
    (message : Text) (updates : List Text)
    → ((message ≢ []) × (message_or_default message updates ≡ message))
      ⊎ ((message ≡ []) × (message_or_default message updates ≡ default_maintenance_notice updates))
message_or_default-cases [] updates = inr (refl, refl)
message_or_default-cases (r ∷ s) updates = inl ((λ e. cc), refl)

-- Whatever is sent, the text that comes back is a notice of at most 240 characters; it is the
-- trimmed message, or the default for the updates where that is empty.
pub normalize_broadcast_message_sound :
    (message : Text) (updates : List Text) {text : Text}
    → normalize_broadcast_message message updates ≡ ok text
    → IsNotice maximum_broadcast_message_runes text
      × (((trim_space message ≢ []) × (text ≡ trim_space message))
          ⊎ ((trim_space message ≡ []) × (text ≡ default_maintenance_notice updates)))
unfolding normalize_broadcast_message
normalize_broadcast_message_sound message updates {text} h =
    let (valid, same) = unless_error-ok _ _ h in
    (
      rw same ((validate_broadcast_text_iff _ maximum_broadcast_message_runes).0 valid),
      rw same (message_or_default-cases (trim_space message) updates),
    )

cleaned_updates_of_blank :
    (updates : List Text) → All (λ u. trim_space u ≡ []) updates → cleaned_updates updates ≡ []
unfolding cleaned_updates
cleaned_updates_of_blank [] h = refl
cleaned_updates_of_blank (u ∷ updates) (p, h) = ground (arith, cleaned_updates_of_blank updates h)

default_maintenance_notice_of_blank :
    (updates : List Text)
    → All (λ u. trim_space u ≡ []) updates
    → default_maintenance_notice updates ≡ default_planned_maintenance_notice
unfolding default_maintenance_notice
default_maintenance_notice_of_blank updates h = rw (cleaned_updates_of_blank updates h)

planned_notice_valid :
    validate_broadcast_text default_planned_maintenance_notice maximum_broadcast_message_runes
    ≡ none
unfolding validate_broadcast_text contains contains_char
planned_notice_valid = refl

-- A blank message with blank updates becomes the planned-maintenance notice, which is valid.
pub normalize_broadcast_message_default :
    (message : Text) (updates : List Text)
    → trim_space message ≡ []
    → All (λ u. trim_space u ≡ []) updates
    → normalize_broadcast_message message updates ≡ ok default_planned_maintenance_notice
unfolding normalize_broadcast_message
normalize_broadcast_message_default message updates blank blanks =
    rw blank (rw (default_maintenance_notice_of_blank updates blanks) (rw planned_notice_valid))
