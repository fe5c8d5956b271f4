-- ===== src/Common.antt =====
-- The names that the other modules share: the libraries', passed on, and those of the children.
mod Tests
mod Lists
mod Members
mod Keyed
mod Strip
mod Letters
mod Sets
mod Ordered
mod Words
mod Sorted
pub mod Int
pub mod Decimal
pub use Tests.*
pub use Lists.*
pub use Members.*
pub use Ordered.*
unfoldable pub use Words.*
unfoldable pub use Sorted.*
unfoldable pub use Keyed.*
unfoldable pub use Strip.{is_space, is_blank, strip_end, strip, strip_chars, strip_statement}
unfoldable pub use Sets.*
unfoldable pub use Letters.{up, occurs_in_lower, occurs_in, upper, lower, codes}
pub use Letters.{upper_idem, upper-cons}
pub use Prim.Native.Nat.{ℕ, zero, suc, ◌+◌, ◌-◌, ◌*◌, ◌/◌, ◌%◌, ◌≤◌, ◌<◌, min}
pub use Prim.Native.String.{String}
pub use mathlib.Core.Path.{◌≡◌, refl, sym, ap, ◌∙◌}
pub use mathlib.Core.Logic.{◌≢◌, ◌↔◌, ◌⊎◌, inl, inr}
pub use mathlib.Core.Bool.{Bool, true, false, not, ◌&&◌, ◌||◌}
pub use mathlib.Core.Option.{Option, none, some}
pub use mathlib.Core.List.{List, [], ◌∷◌, ◌++◌, map}
pub use native.Mathlib.Omega.{arith}
pub use text.Mathlib.Text.{◌==◌ as str_eq}
pub use text.Mathlib.TextEquality.{eq_iff}
pub use text.Mathlib.TextPositions.{eq_refl}
