-- ===== src/Base.antt =====
-- The names that the components share: the libraries', passed on, and those of the modules below.
pub mod Tests
pub mod Lists
pub mod Outcome
pub mod Action
pub mod Word
pub mod Text
pub mod Key
pub mod Map
pub mod Distinct
pub mod Bits
pub use Tests.*
pub use Lists.*
pub use Outcome.*
unfoldable pub use Word.*
pub use Key.*
pub use Prim.Native.Nat.{ℕ, zero, suc, ◌+◌, ◌-◌, ◌*◌, ◌/◌, ◌%◌, ◌^◌, ◌≤◌, ◌<◌, min, max}
pub use Prim.Native.String.{String}
pub use mathlib.Core.Path.{◌≡◌, refl, sym, ap, ◌∙◌, subst}
pub use mathlib.Core.Logic.{◌≢◌, ◌↔◌, ◌⊎◌, inl, inr}
pub use mathlib.Core.Bool.{Bool, true, false, not, ◌&&◌, ◌||◌}
pub use mathlib.Core.Option.{Option, none, some}
pub use mathlib.Core.List.{List, [], ◌∷◌, ◌++◌, map}
pub use native.Mathlib.Omega.{arith}
