-- ===== src/Broadcast/Examples.antt =====
-- Notices and their commands, and the broadcast theorems at them.
use plexus_controller.Common.{
  Text, codes, text_eq, has_prefix, contains, contains_char, trim_space, ◌≡◌, refl, ◌≢◌, ◌↔◌, ◌⊎◌,
  none, some, [], ◌∷◌, ◌++◌,
}
use plexus_controller.Broadcast.{
  maximum_broadcast_message_runes, ok, err, unsafe_characters, control_characters, cleaned_updates,
  join_comma, default_maintenance_notice, broadcast_attribution, validate_broadcast_text,
  normalize_broadcast_message, format_attributed_notice, command_prefix, chat_broadcast_command,
  default_planned_maintenance_notice,
}
use plexus_controller.Broadcast.Closer.{
  has_suffix, long_string, chat_broadcast_command_whole, chat_broadcast_command_cut,
}
use plexus_controller.Broadcast.Notice.{
  IsNotice, validate_broadcast_text_iff, normalize_broadcast_message_sound,
  normalize_broadcast_message_default,
}

-- What a run computes with.
run : Unit {0}
unfolding trim_space contains contains_char has_prefix cleaned_updates join_comma
    default_maintenance_notice broadcast_attribution validate_broadcast_text
    normalize_broadcast_message format_attributed_notice chat_broadcast_command has_suffix
    long_string text_eq
run = tt

abbrev restart_soon : Text
restart_soon = codes "Restart soon"

broadcast_tests :
    (normalize_broadcast_message (codes "  ") (codes " a " ∷ codes "" ∷ codes "b" ∷ [])
      ≡ ok (codes "The server will restart shortly to apply pending mod updates. a, b."))
    × (format_attributed_notice (codes "o@x.org ") restart_soon
        ≡ ok (codes "Plexus · o@x.org: Restart soon"))
    × (normalize_broadcast_message (codes "a]==]b") [] ≡ err unsafe_characters)
    × (chat_broadcast_command (codes "a\nb") ≡ err control_characters)
    × (chat_broadcast_command restart_soon
        ≡ ok (codes "/silent-command game.print([==[Restart soon]==])"))
unfolding run
broadcast_tests = (refl, refl, refl, refl, refl)

chat_broadcast_command_whole_example :
    (payload : Text) × (codes "/silent-command game.print([==[Restart soon]==])"
      ≡ command_prefix ++ payload)
    × (long_string payload ≡ some (restart_soon, codes ")"))
unfolding run
chat_broadcast_command_whole_example =
    chat_broadcast_command_whole restart_soon
      {command = codes "/silent-command game.print([==[Restart soon]==])"} refl refl

chat_broadcast_command_cut_example :
    (payload : Text) × (chat_broadcast_command (codes "Sale " ++ codes "]==")
      ≡ ok (command_prefix ++ payload))
    × (long_string payload ≡ some (codes "Sale ", codes "==])"))
unfolding run
chat_broadcast_command_cut_example = chat_broadcast_command_cut (codes "Sale ") refl

validate_broadcast_text_iff_example :
    (validate_broadcast_text restart_soon 240 ≡ none) ↔ IsNotice 240 restart_soon
validate_broadcast_text_iff_example = validate_broadcast_text_iff restart_soon 240

normalize_broadcast_message_sound_example :
    IsNotice maximum_broadcast_message_runes restart_soon
    × (((trim_space (codes " Restart soon ") ≢ [])
          × (restart_soon ≡ trim_space (codes " Restart soon ")))
        ⊎ ((trim_space (codes " Restart soon ") ≡ [])
            × (restart_soon ≡ default_maintenance_notice [])))
unfolding run
normalize_broadcast_message_sound_example =
    normalize_broadcast_message_sound (codes " Restart soon ") [] {text = restart_soon} refl

normalize_broadcast_message_default_example :
    normalize_broadcast_message (codes " ") (codes "  " ∷ [])
    ≡ ok default_planned_maintenance_notice
unfolding run
normalize_broadcast_message_default_example =
    normalize_broadcast_message_default (codes " ") (codes "  " ∷ []) refl (refl, tt)
