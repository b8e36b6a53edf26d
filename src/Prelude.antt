-- ===== src/Prelude.antt =====
-- Names that every other file uses: the libraries', passed on, and those of nine children.
mod Tests
mod Lists
mod Words
mod Text
mod Decimal
mod Partial
mod Str
mod Printed
mod Parts
pub use Tests.*
pub use Lists.*
pub use Words.*
pub use Text.*
pub use Decimal.*
pub use Partial.*
unfoldable pub use Str.*
pub use Printed.*
pub use Parts.*
pub use Prim.Native.Nat.{ℕ, zero, suc, ◌+◌, ◌-◌, ◌*◌, ◌/◌, ◌%◌, ◌^◌, ◌≤◌, ◌<◌, min, max}
pub use Prim.Native.String.{String}
pub use mathlib.Core.Path.{◌≡◌, refl, sym, ap, ap₂, ◌∙◌, subst}
pub use mathlib.Core.Logic.{◌≢◌, ◌↔◌, ◌⊎◌, inl, inr}
pub use mathlib.Core.Bool.{Bool, true, false, not, ◌&&◌, ◌||◌}
pub use mathlib.Core.Option.{Option, none, some}
pub use mathlib.Core.List.{List, [], ◌∷◌, ◌++◌, map}
pub use native.Mathlib.Omega.{arith}
unfoldable pub use native.Mathlib.Decide.{ℕ_discrete}
