-- ===== src/Common.antt =====
-- The names that the other modules share: the libraries', passed on, and those of the children.
mod Tests
mod Lists
mod Strings
pub mod Decimal
pub mod Int
pub use Tests.*
pub use Lists.*
pub use Strings.{
  Text, codes, text_eq_iff, text_eq_self, is_empty, cons_head, length-le-byte_len, is_digit,
  is_lower, is_upper,
}
unfoldable pub use Strings.{
  text_eq, has_prefix, contains, contains_char, split_on, trim_left, trim_right, is_space,
  trim_space, rune_len, byte_len,
}
pub use Prim.Native.Nat.{ℕ, zero, suc, ◌+◌, ◌-◌, ◌*◌, ◌/◌, ◌%◌, ◌^◌, ◌≤◌, ◌<◌, min, max}
pub use mathlib.Core.Path.{◌≡◌, refl, sym, ap, ◌∙◌}
pub use mathlib.Core.Logic.{◌≢◌, ◌↔◌, ◌⊎◌, inl, inr}
pub use mathlib.Core.Bool.{Bool, true, false, ◌&&◌, ◌||◌}
pub use mathlib.Core.Option.{Option, none, some}
pub use mathlib.Core.List.{List, [], ◌∷◌, ◌++◌, append_assoc, append-nil}
pub use native.Mathlib.Omega.{arith}
