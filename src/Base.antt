-- ===== src/Base.antt =====
-- The names that the other modules share: the libraries', passed on, and those of the children.
mod Tests
mod Lists
mod Dicts
mod Text
mod Names
mod Decimal
mod Search
mod Slices
pub use Tests.*
pub use Lists.*
unfoldable pub use Dicts.{get, insert, modify, remove, remove_all}
pub use Dicts.*
unfoldable pub use Text.{str_eq, contains, show_nat}
pub use Text.*
unfoldable pub use Names.{is_blank, path_join}
pub use Names.*
pub use Decimal.*
pub use Slices.*
pub use Search.{cons_first, ends_here}
unfoldable pub use Search.{
  strip_prefix, split_once, rsplit_once, trim_start, trim_end, trim, take_chars, join,
  trim_start_matches, lines, split,
}
pub use Prim.Native.Nat.{ℕ, zero, suc, ◌+◌, ◌-◌, ◌*◌, ◌/◌, ◌%◌, ◌^◌, ◌≤◌, ◌<◌}
pub use Prim.Native.String.{String}
pub use mathlib.Core.Path.{◌≡◌, refl, sym, ap, ◌∙◌, subst, fun_ext}
pub use mathlib.Core.Logic.{◌≢◌, ◌↔◌, ◌⊎◌, inl, inr}
pub use mathlib.Core.Bool.{Bool, true, false, not, ◌&&◌, ◌||◌}
pub use mathlib.Core.Option.{Option, none, some}
pub use mathlib.Core.List.{List, [], ◌∷◌, ◌++◌, map}
pub use native.Mathlib.Omega.{arith}
