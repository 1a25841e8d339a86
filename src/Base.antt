-- ===== src/Base.antt =====
-- Names that every other module shares: the libraries', passed on, and those of the children.
mod Tests
mod Table
mod Text
mod Replace
mod Affixes
mod Counts
pub use text.Mathlib.Text.{◌==◌ as str_eq}
pub use text.Mathlib.TextEquality.{eq_iff}
pub use Tests.*
pub use Table.*
pub use Replace.{starts_with, contains, IsStarless, mask-absent, contains-mask_none}
unfoldable pub use Replace.{mask}
pub use Affixes.*
pub use Counts.{count_rows-set_row, count_rows-none, count_rows_append_le}
pub use Text.{
  join, concat, is_empty, is_empty-join, lstrip, rstrip, take_text, is_empty-append, rstrip-cons,
  lstrip-cons, rstrip_git, rstrip-append,
}
unfoldable pub use Text.{strip}
pub use Prim.Native.Nat.{ℕ, zero, suc, ◌+◌, ◌-◌, ◌*◌, ◌≤◌, ◌<◌}
pub use Prim.Native.String.{String}
pub use mathlib.Core.Path.{◌≡◌, refl, sym, ap, ◌∙◌}
pub use mathlib.Core.Logic.{◌≢◌, ◌↔◌, ◌⊎◌, inl, inr}
pub use mathlib.Core.Bool.{Bool, true, false, not, ◌&&◌, ◌||◌}
pub use mathlib.Core.Option.{Option, none, some}
pub use mathlib.Core.List.{List, [], ◌∷◌, ◌++◌, map}
pub use native.Mathlib.Omega.{arith}
