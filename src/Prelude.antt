-- ===== src/Prelude.antt =====
-- The names that the other modules share: the libraries', passed on, and those of the children.
mod Tests
mod Lists
mod Bytes
pub mod Assoc
pub mod Strings
pub mod Runes
pub mod Decimal
pub mod Float
pub mod Sorting
pub use Tests.*
pub use Lists.{
  length, take, drop, All, In, All-imp, All-append, All-map, In-append_left, In-append_right,
  All-In,
}
unfoldable pub use Lists.{keep_if, count_if, any_of}
pub use Bytes.{Text, codes, text_eq_iff, text_eq_refl}
unfoldable pub use Bytes.{text_eq, concat}
pub use Prim.Native.Nat.{ℕ, zero, suc, ◌+◌, ◌-◌, ◌*◌, ◌/◌, ◌%◌, ◌^◌, ◌≤◌, ◌<◌}
pub use mathlib.Core.Path.{◌≡◌, refl, sym, ap, ap₂, ◌∙◌, subst}
pub use mathlib.Core.Logic.{◌≢◌, ◌↔◌, ◌⊎◌, inl, inr}
pub use mathlib.Core.Bool.{Bool, true, false, not, ◌&&◌, ◌||◌}
pub use mathlib.Core.Option.{Option, none, some}
pub use mathlib.Core.List.{List, [], ◌∷◌, ◌++◌, map}
pub use native.Mathlib.Omega.{arith}
