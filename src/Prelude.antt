-- ===== src/Prelude.antt =====
-- The names that the modules of the development share: those of the libraries, Boolean tests on
-- numbers and byte strings, and lists as tables.
mod Tests
mod Lists
mod Tables
mod Order
mod Text
mod Fields
unfoldable pub use Tests.*
pub use Lists.*
unfoldable pub use Tables.*
pub use Order.*
unfoldable pub use Text.*
unfoldable pub use Fields.*
pub use Prim.Native.Nat.{ℕ, zero, suc, ◌+◌, ◌-◌, ◌*◌, ◌/◌, ◌%◌, ◌^◌, ◌≤◌, ◌<◌, min, max}
pub use mathlib.Core.Path.{◌≡◌, refl, sym, ap, subst, ◌∙◌}
pub use mathlib.Core.Logic.{◌≢◌, ◌↔◌, ◌⊎◌, inl, inr}
pub use mathlib.Core.Bool.{Bool, true, false, not, ◌&&◌, ◌||◌}
pub use mathlib.Core.Option.{Option, none, some}
pub use mathlib.Core.List.{List, [], ◌∷◌, ◌++◌, map}
pub use native.Mathlib.Omega.{arith}
