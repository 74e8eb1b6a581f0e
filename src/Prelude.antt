-- ===== src/Prelude.antt =====
-- Shared helpers: library names passed on, Boolean tests, lists under native indices, and the
-- machine integers `int` and `uint64` of Go.
mod Tests
mod Lists
pub mod Ints
pub mod Outcome
pub mod Effect
pub mod Grows
pub mod Updates
pub use Tests.*
pub use Lists.*
unfoldable pub use Lists.{modify, find_index, find, take, any, all, select}
unfoldable pub use native.Mathlib.Decide.{ℕ_discrete}
pub use Prim.Native.Nat.{ℕ, zero, suc, ◌+◌, ◌-◌, ◌*◌, ◌/◌, ◌%◌, ◌^◌, ◌≤◌, ◌<◌}
pub use mathlib.Core.Path.{◌≡◌, refl, sym, ap, subst, ◌∙◌}
pub use mathlib.Core.Logic.{◌≢◌, ◌↔◌, ◌⊎◌, inl, inr}
pub use mathlib.Core.Bool.{Bool, true, false, ◌&&◌, ◌||◌, not}
pub use mathlib.Core.Option.{Option, none, some}
pub use mathlib.Core.List.{List, [], ◌∷◌, ◌++◌, map}
pub use native.Mathlib.Omega.{arith}
