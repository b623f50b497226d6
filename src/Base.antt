-- ===== src/Base.antt =====
-- The names that every module shares: the libraries', passed on, and those of the children.
mod Tests
mod Lists
mod Results
mod Keys
mod Texts
mod Splits
pub use Tests.*
pub use Lists.*
pub use Results.*
unfoldable pub use Keys.{lookup, insert, remove}
pub use Keys.*
unfoldable pub use Texts.{
  text_eq, is_whitespace, trim_start_by, trim_end_by, trim, split, split_by, split_once,
  strip_prefix, starts_with, contains, to_ascii_lower, eq_ignore_ascii_case,
}
pub use Texts.*
pub use Splits.*
pub use Prim.Native.Nat.{ℕ, zero, suc, ◌+◌, ◌-◌, ◌*◌, ◌/◌, ◌%◌, ◌^◌, ◌≤◌, ◌<◌, min, max}
pub use mathlib.Core.Path.{◌≡◌, refl, sym, ap, subst, ◌∙◌}
pub use mathlib.Core.Logic.{◌≢◌, ◌↔◌, ◌⊎◌, inl, inr}
pub use mathlib.Core.Bool.{Bool, true, false, not, ◌&&◌, ◌||◌}
pub use mathlib.Core.Option.{Option, none, some}
pub use mathlib.Core.List.{List, [], ◌∷◌, ◌++◌, map, reverse}
pub use native.Mathlib.Omega.{arith}
