-- ===== src/Base.antt =====
-- The names that the components share: those of the libraries, passed on, and those of the
-- children: tests, results, lists, integers, and the text functions of the Go library.
pub mod Tests
pub mod Results
pub mod Lists
pub mod Text
pub mod Int
pub mod Rows
pub mod Sort
pub use Tests.*
unfoldable pub use Sort.{insert_by, sort_by}
pub use Sort.{length-sort_by, any-insert_by, any-sort_by, All-sort_by, IsSorted, sort_by-IsSorted}
pub use Results.*
pub use Lists.*
unfoldable pub use Text.{trim, show_nat}
pub use Text.{is_empty, trim_idem}
unfoldable pub use Int.{ltb_ℤ, is_positive}
pub use Int.{ℤ, pos, negsuc, pos_part, neg_part, ◌≤ℤ◌, ltb_ℤ-false, ltb_ℤ-of_le, eq_of_parts}
unfoldable pub use Rows.{Table, write, update_where}
pub use Rows.{write_self, write_lem, update_where-hit, update_where-miss, update_where-none}
pub use Prim.Native.Nat.{ℕ, zero, suc, ◌+◌, ◌-◌, ◌*◌, ◌/◌, ◌%◌, ◌^◌, ◌≤◌, ◌<◌, min, max}
pub use Prim.Native.String.{String}
pub use text.Mathlib.Text.{◌==◌ as str_eq}
pub use text.Mathlib.TextEquality.{eq_iff}
pub use text.Mathlib.TextPositions.{eq_refl}
pub use mathlib.Core.Path.{◌≡◌, refl, sym, ap, ◌∙◌, subst}
pub use mathlib.Core.Logic.{◌≢◌, ◌↔◌, ◌⊎◌, inl, inr}
pub use mathlib.Core.Bool.{Bool, true, false, not, ◌&&◌, ◌||◌}
pub use mathlib.Core.Option.{Option, none, some}
pub use mathlib.Core.List.{List, [], ◌∷◌, ◌++◌, map}
pub use native.Mathlib.Omega.{arith}
