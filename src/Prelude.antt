-- ===== src/Prelude.antt =====
-- Names that every module of this library shares: those of the libraries, passed on, and those of
-- the children (tests on numbers, lists, byte strings, outcomes, maps and sorting).
mod Tests
mod Lists
mod Strings
mod Outcomes
mod Maps
mod Int
mod Sorting
mod Strconv
mod Decimal
unfoldable pub use Tests.*
unfoldable pub use Lists.*
unfoldable pub use Strings.*
unfoldable pub use Outcomes.*
unfoldable pub use Maps.*
unfoldable pub use Int.*
unfoldable pub use Sorting.*
unfoldable pub use Strconv.*
unfoldable pub use Strconv.Laws.*
unfoldable pub use Decimal.*
pub use Prim.Native.Nat.{ℕ, zero, suc, ◌+◌, ◌-◌, ◌*◌, ◌/◌, ◌%◌, ◌^◌, ◌≤◌, ◌<◌}
pub use mathlib.Core.Path.{◌≡◌, refl, sym, ap, ◌∙◌, subst, fun_ext}
pub use mathlib.Core.Logic.{◌≢◌, ◌↔◌, ◌⊎◌, inl, inr}
pub use mathlib.Core.Bool.{Bool, true, false, not, ◌&&◌, ◌||◌}
pub use mathlib.Core.Option.{Option, none, some}
pub use mathlib.Core.List.{List, [], ◌∷◌, ◌++◌, map, Mem, Perm}
pub use native.Mathlib.Omega.{arith}
