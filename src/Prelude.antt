-- ===== src/Prelude.antt =====
-- The names that the other modules share: the libraries', passed on, and those of the children.
mod Tests
mod Lists
mod ByteStrings
pub mod Cuts
pub mod Decimal
pub mod Long
pub mod Hex
pub mod Maps
pub mod Marks
pub use Tests.*
pub use Lists.*
unfoldable pub use Lists.{all_below}
unfoldable pub use ByteStrings.{
  str_eq, c_str, lower, case_eq, find_char, starts_with, find_str, find_first, find_last,
}
pub use ByteStrings.{
  Bytes, codes, Lacks, IsByte, is_digit, is_upper, is_lower, is_alnum, is_space, to_lower, substr,
  find_char_from, str_eq_iff, str_eq_refl, str_eq_sym, find_str-bound, find_str-append, FoundAt,
  Search, found, missing, find_char-cases, find_char-append, find_char-Lacks, case_eq_iff,
  case_eq_refl, case_eq_subst, case_eq_subst_right, case_eq_apart,
}
pub use Prim.Native.Nat.{ℕ, zero, suc, ◌+◌, ◌-◌, ◌*◌, ◌/◌, ◌%◌, ◌^◌, ◌≤◌, ◌<◌}
pub use mathlib.Core.Path.{◌≡◌, refl, sym, ap, ◌∙◌}
pub use mathlib.Core.Logic.{◌≢◌, ◌↔◌, ◌⊎◌, inl, inr}
pub use mathlib.Core.Bool.{Bool, true, false, not, ◌&&◌, ◌||◌}
pub use mathlib.Core.Option.{Option, none, some}
pub use mathlib.Core.List.{List, [], ◌∷◌, ◌++◌, map, append-nil, append_assoc}
pub use native.Mathlib.Omega.{arith}
