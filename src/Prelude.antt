-- ===== src/Prelude.antt =====
-- The names that the other modules share: the libraries', passed on, and those of the children:
-- Boolean tests, lists, Go strings and maps, results,
-- sorting, signed integers.
mod Tests
mod Lists
mod Strings
mod Dict
mod Errors
mod Sort
mod Rows
mod Int
pub use Tests.*
pub use Lists.*
unfoldable pub use Strings.{GoString, codes, str_eq, contains, Distinct, is_empty}
pub use Strings.{
  str_eq_iff, str_eq_refl, contains-append, contains-cons, contains-nil, contains-filter_le,
  Distinct-append_one, str_eq_sym, filterb-contains,
}
unfoldable pub use Dict.{lookup, insert, has_key, keys}
pub use Dict.{lookup-insert, lookup-insert_self, lookup-insert_ne, lookup-nil, lookup-keys}
pub use Errors.*
pub use Int.*
pub use Rows.*
unfoldable pub use Sort.{str_le, sort_strings}
pub use Sort.{contains-sort_strings, Distinct-sort_strings, length-sort_strings}
pub use Prim.Native.Nat.{ℕ, zero, suc, ◌+◌, ◌-◌, ◌*◌, ◌/◌, ◌%◌, ◌^◌, ◌≤◌, ◌<◌}
pub use mathlib.Core.Path.{◌≡◌, refl, sym, ap, subst, ◌∙◌}
pub use mathlib.Core.Logic.{◌≢◌, ◌↔◌, ◌⊎◌, inl, inr}
pub use mathlib.Core.Bool.{Bool, true, false, not, ◌&&◌, ◌||◌}
pub use mathlib.Core.Option.{Option, none, some}
pub use mathlib.Core.List.{List, [], ◌∷◌, ◌++◌, map}
pub use native.Mathlib.Omega.{arith}
