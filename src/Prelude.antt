-- ===== src/Prelude.antt =====
-- The names that the other modules share: the libraries', passed on, and those of the children.
mod Tests
mod Lists
mod Words
mod Tables
mod Strings
mod Parse
pub use Tests.*
pub use Lists.*
pub use Words.*
unfoldable pub use Strings.{has_prefix, trim_prefix, has_suffix, trim_suffix, replace_first, base}
pub use Parse.{NoByte, NoByte-append, split_on_first, split_on_none, cut_first}
unfoldable pub use Parse.{
  split_on, cut, trim_left_by, trim_by, is_space, trim_space, trim_byte, to_lower, digit_value,
  parse_digits, parse_uint,
}
unfoldable pub use Words.{equal}
unfoldable pub use Tables.{holds_below}
pub use Tables.{holds_below→holds}
pub use Prim.Native.Nat.{
  ℕ, zero, suc, ◌+◌, ◌-◌, ◌*◌, ◌/◌, ◌%◌, ◌^◌, ◌≤◌, ◌<◌, bit_and, bit_or, bit_xor,
}
pub use mathlib.Core.Path.{◌≡◌, refl, sym, ap, ◌∙◌}
pub use mathlib.Core.Logic.{◌≢◌, ◌↔◌, ◌⊎◌, inl, inr}
pub use mathlib.Core.Bool.{Bool, true, false, not, ◌&&◌, ◌||◌}
pub use mathlib.Core.Option.{Option, none, some}
pub use mathlib.Core.List.{List, [], ◌∷◌, ◌++◌, map, append_assoc, append-nil}
pub use native.Mathlib.Omega.{arith}
