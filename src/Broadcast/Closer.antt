-- ===== src/Broadcast/Closer.antt =====
-- Where the Lua long string of a chat command ends. Lua ends a long string opened by "[==[" at the
-- first "]==]" behind it.
use plexus_controller.Common.{
  Text, codes, text_eq, has_prefix, contains, ℕ, ◌+◌, ◌≡◌, refl, Bool, false, ◌||◌, Option, none,
  some, [], ◌∷◌, ◌++◌, arith, if◌then◌else◌, drop, is_nil,
}
use plexus_controller.Broadcast.{
  maximum_broadcast_message_runes, closer, ok, validate_broadcast_text, command_prefix,
  chat_broadcast_command,
}

-- strings.HasSuffix
unfoldable pub has_suffix : Text → Text → Bool
has_suffix [] suffix = is_nil suffix
has_suffix (c ∷ s) suffix = text_eq (c ∷ s) suffix || has_suffix s suffix

abbrev pub cons_body : ℕ → Option (Text × Text) → Option (Text × Text)
cons_body c none = none
cons_body c (some (body, rest)) = some (c ∷ body, rest)

-- The body of a long string and the text behind its closer.
unfoldable pub long_string : Text → Option (Text × Text)
long_string [] = none
long_string (c ∷ s) =
    let rest = long_string s in
    if has_prefix (c ∷ s) closer then some ([], drop 4 (c ∷ s)) else cons_body c rest

-- The text that the command puts behind the notice.
abbrev pub tail : Text
tail = codes "]==])"

-- No closer starts inside a notice that holds none and does not end in "]==".
no_early_closer :
    (c : ℕ) (s : Text)
    → contains (c ∷ s) closer ≡ false
    → text_eq (c ∷ s) (codes "]==") ≡ false
    → has_prefix ((c ∷ s) ++ tail) closer ≡ false
unfolding contains has_prefix text_eq
no_early_closer c [] h k = ground arith
no_early_closer c (d ∷ []) h k = ground arith
no_early_closer c (d ∷ e ∷ []) h k = ground arith
no_early_closer c (d ∷ e ∷ f ∷ s) h k = ground arith

pub long_string_whole :
    (notice : Text)
    → contains notice closer ≡ false
    → has_suffix notice (codes "]==") ≡ false
    → long_string (notice ++ tail) ≡ some (notice, codes ")")
unfolding long_string
long_string_whole [] h k = unfold has_prefix in refl
long_string_whole (c ∷ s) h k =
    rw (no_early_closer c s h (unfold has_suffix in ground arith)) (
      rw
        (long_string_whole s (unfold contains in ground arith) (unfold has_suffix in ground arith)))

-- With "]==" behind it, a text that is long enough decides the prefix by itself.
early_prefix :
    (c : ℕ) (s : Text)
    → contains ((c ∷ s) ++ codes "]==") closer ≡ false
    → has_prefix (((c ∷ s) ++ codes "]==") ++ tail) closer ≡ false
unfolding contains has_prefix
early_prefix c [] h = ground arith
early_prefix c (d ∷ []) h = ground arith
early_prefix c (d ∷ e ∷ []) h = ground arith
early_prefix c (d ∷ e ∷ f ∷ s) h = ground arith

pub long_string_cut :
    (m : Text)
    → contains (m ++ codes "]==") closer ≡ false
    → long_string ((m ++ codes "]==") ++ tail) ≡ some (m, codes "==])")
unfolding long_string
long_string_cut [] h = unfold has_prefix in refl
long_string_cut (c ∷ s) h =
    rw (early_prefix c s h) (rw (long_string_cut s (unfold contains in ground arith)))

-- A notice that is rendered to a command holds no closer.
no_closer :
    (notice : Text) (maximum : ℕ)
    → validate_broadcast_text notice maximum ≡ none
    → contains notice closer ≡ false
unfolding validate_broadcast_text
no_closer notice maximum h = ground arith

-- A rendered command is the prefix and a long string: if the notice does not end in "]==", Lua
-- reads the whole notice as the string, and only the closing bracket of the call follows it.
pub chat_broadcast_command_whole :
    (notice : Text) {command : Text}
    → chat_broadcast_command notice ≡ ok command
    → has_suffix notice (codes "]==") ≡ false
    → (payload : Text) × (command ≡ command_prefix ++ payload)
      × (long_string payload ≡ some (notice, codes ")"))
chat_broadcast_command_whole notice h k = (
  notice ++ tail,
  ground (arith, rendered),
  long_string_whole notice (no_closer notice _ valid) k,
)
  where
    valid : validate_broadcast_text notice (maximum_broadcast_message_runes + 80) ≡ none
    valid = unfold chat_broadcast_command in ground arith

    rendered : chat_broadcast_command notice ≡ ok (command_prefix ++ (notice ++ tail))
    rendered = unfold chat_broadcast_command in rw valid

-- A notice that ends in "]==" and passes the validation is rendered to a command in which Lua ends
-- the string before these three characters, and reads "==])" behind it.
pub chat_broadcast_command_cut :
    (m : Text)
    → validate_broadcast_text (m ++ codes "]==") (maximum_broadcast_message_runes + 80) ≡ none
    → (payload : Text) × (chat_broadcast_command (m ++ codes "]==")
        ≡ ok (command_prefix ++ payload))
      × (long_string payload ≡ some (m, codes "==])"))
chat_broadcast_command_cut m valid = (
  (m ++ codes "]==") ++ tail,
  unfold chat_broadcast_command in rw valid,
  long_string_cut m (no_closer (m ++ codes "]==") _ valid),
)
