-- ===== src/Prelude.antt =====
-- The names that every module shares: the libraries', passed on, and those of the children.
mod Tests
mod Text
mod Int
mod Lists
mod Sorting
mod Paths
mod PathLaws
pub use Tests.*
unfoldable pub use Text.{has_prefix, itoa, pad3}
pub use Text.{has_prefix-append, append_cancel}
unfoldable pub use Lists.{insert_by, sort_by}
pub use Lists.{length}
pub use Sorting.{InOrder, length-sort_by, sort_by-perm, sort_by-InOrder}
unfoldable pub use PathLaws.{has_no_slash}
pub use PathLaws.{
  atoi-itoa, has_no_slash-itoa, itoa-nonempty, split_path-segment, split_path-last,
  trim_prefix-append, trim_left_of-segment, trim_right_of-last, trim_right_of-append,
  append_nonempty,
}
pub use Int.{ℤ, pos, negsuc}
unfoldable pub use Paths.{
  trim_left_of, trim_right_of, is_slash, without_prefix, trim_prefix, split_path, natural, atoi,
}
unfoldable pub use Int.{up_to}
pub use Prim.Native.Nat.{ℕ, zero, suc, ◌+◌, ◌-◌, ◌*◌, ◌/◌, ◌%◌, ◌^◌, ◌≤◌, ◌<◌}
pub use Prim.Native.String.{String, ◌++◌}
pub use mathlib.Core.Path.{◌≡◌, refl, sym, ap, subst, ◌∙◌}
pub use mathlib.Core.Logic.{◌≢◌, ◌↔◌, ◌⊎◌, inl, inr}
pub use mathlib.Core.Bool.{Bool, true, false, not, ◌&&◌, ◌||◌}
pub use mathlib.Core.Option.{Option, none, some}
pub use mathlib.Core.List.{List, [], ◌∷◌, map}
pub use native.Mathlib.Omega.{arith}
pub use text.Mathlib.Text.{◌==◌ as str_eq}
pub use text.Mathlib.TextEquality.{eq_iff}
