-- ===== src/Prelude.antt =====
-- The names that all parts share: those of the library, passed on, and those of the children.
pub mod Tests
pub mod Lists
pub mod Text
pub mod Sorting
pub mod Decimal
pub mod Occurs
pub mod Members
pub mod Integers
pub use Tests.*
pub use Lists.*
pub use Sorting.*
pub use Members.*
pub use Integers.*
pub use Decimal.{decimal_inj}
unfoldable pub use Decimal.{decimal}
pub use Prim.Native.Nat.{ℕ, zero, suc, ◌+◌, ◌-◌, ◌*◌, ◌/◌, ◌%◌, ◌≤◌, ◌<◌}
pub use Prim.Native.String.{String}
pub use mathlib.Core.Path.{◌≡◌, refl, sym, ap, ap₂, subst, ◌∙◌}
pub use mathlib.Core.Logic.{◌≢◌, ◌↔◌, ◌⊎◌, inl, inr}
pub use mathlib.Core.Bool.{Bool, true, false, not, ◌&&◌, ◌||◌}
pub use mathlib.Core.Option.{Option, none, some}
pub use mathlib.Core.List.{List, [], ◌∷◌, ◌++◌, map}
pub use native.Mathlib.Omega.{arith}
pub use Text.{Str, codes, text_eq_iff, text_eq_refl, non_empty, has_char, has_text}
unfoldable pub use Text.{text_eq, starts_with, find_from}
