-- ===== src/Base.antt =====
-- The names that the other modules share: the libraries', passed on, and those of the children.
mod Tests
mod Lists
pub mod Strings
pub mod Int
pub mod Equality
pub mod Dict
pub mod Sort
pub mod Keys
pub mod Json
pub mod Parts
pub use Tests.{ltb, leb, if◌then◌else◌, Bool-cases, Option-cases, ltb→lt, lt→ltb, leb→le}
unfoldable pub use Equality.{◌==◌, nat_eq, int_eq, text_eq, pair_eq, list_beq, elem}
pub use Equality.{Eq, list_beq_iff, beq_refl}
pub use Int.{ℤ, pos, negsuc}
pub use Strings.{Unicode}
unfoldable pub use Strings.{
  Text, codes, starts_with, contains, any_in, find, behind_last, rsplit, lower, upper, is_space,
  is_alnum, split, strip, split_at, join, text_leb,
}
unfoldable pub use Int.{◌+ℤ◌, ◌-ℤ◌, leb_ℤ, int, show_ℕ, show_ℤ}
unfoldable pub use Lists.*
pub use Prim.Native.Nat.{ℕ, zero, suc, ◌+◌, ◌-◌, ◌*◌, ◌/◌, ◌%◌, ◌^◌, ◌≤◌, ◌<◌}
pub use mathlib.Core.Path.{◌≡◌, refl, sym, ap, ◌∙◌}
pub use mathlib.Core.Logic.{◌≢◌, ◌↔◌, ◌⊎◌, inl, inr}
pub use mathlib.Core.Bool.{Bool, true, false, not, ◌&&◌, ◌||◌}
pub use mathlib.Core.Option.{Option, none, some}
pub use mathlib.Core.List.{List, [], ◌∷◌, ◌++◌, map}
pub use native.Mathlib.Omega.{arith}
