-- ===== src/Base.antt =====
-- The names that the other modules share: the libraries', passed on, and those of the children.
mod Tests
mod Lists
mod Strings
mod Values
pub use Tests.*
pub use Lists.*
pub use Strings.{Text, text, same_iff, same_self, same_comm, is_blank-empty, is_alnum}
unfoldable pub use Strings.{
  is_space, same, trim, is_blank, starts_with, includes, push_head, split, text_lt, is_segment,
}
pub use Values.{ℤ, pos, negsuc, Num, int, fraction, Json, Items, Fields, end, entry, nil, cons}
unfoldable pub use Values.{member}
pub use Prim.Native.Nat.{ℕ, zero, suc, ◌+◌, ◌-◌, ◌*◌, ◌/◌, ◌%◌, ◌≤◌, ◌<◌, max, min}
pub use mathlib.Core.Path.{◌≡◌, refl, sym, ap, ◌∙◌, subst}
pub use mathlib.Core.Logic.{◌≢◌, ◌↔◌, ◌⊎◌, inl, inr}
pub use mathlib.Core.Bool.{Bool, true, false, not, ◌&&◌, ◌||◌}
pub use mathlib.Core.Option.{Option, none, some}
pub use mathlib.Core.List.{List, [], ◌∷◌, ◌++◌, map}
pub use native.Mathlib.Omega.{arith}
