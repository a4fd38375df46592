-- ===== src/Common.antt =====
-- The names that the modules share: the libraries', passed on, and those of the children (tests on
-- numbers, lists over native numbers, equality tests, membership). It models no code of its own.
mod Tests
mod Lists
mod Eq
mod Member
pub mod Table
pub mod Each
pub use Tests.*
pub use Lists.*
pub use Eq.{BEq, ◌==◌, ◌∈?◌, enum_eq, eq_cases, nat_eq, string_eq, beq_self, list_eq}
pub use Member.*
pub use Prim.Native.Nat.{ℕ, zero, suc, ◌+◌, ◌-◌, ◌*◌, ◌/◌, ◌%◌, ◌^◌, ◌≤◌, ◌<◌}
pub use Prim.Native.String.{String}
pub use mathlib.Core.Path.{◌≡◌, refl, sym, ap, ◌∙◌, subst}
pub use mathlib.Core.Logic.{◌≢◌, ◌↔◌, ◌⊎◌, inl, inr}
pub use mathlib.Core.Bool.{Bool, true, false, not, ◌&&◌, ◌||◌}
pub use mathlib.Core.Option.{Option, none, some}
pub use mathlib.Core.List.{List, [], ◌∷◌, ◌++◌, map}
pub use native.Mathlib.Omega.{arith}
