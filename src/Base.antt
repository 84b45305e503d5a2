-- ===== src/Base.antt =====
-- Names that the other modules share: the libraries', passed on, and the children's.
mod Tests
mod Lists
pub mod Trace
pub mod Float
pub mod Utf8
pub mod Int
pub mod Maybe
mod Keys
mod Outcomes
mod Text
pub mod Dict
pub use Tests.*
pub use Lists.*
pub use Keys.*
pub use Outcomes.*
pub use Text.*
pub use Prim.Native.Nat.{ℕ, zero, suc, ◌+◌, ◌-◌, ◌*◌, ◌/◌, ◌%◌, ◌^◌, ◌≤◌, ◌<◌, min, max}
pub use Prim.Native.String.{String}
pub use mathlib.Core.Path.{◌≡◌, refl, sym, ap, ◌∙◌}
pub use mathlib.Core.Logic.{◌≢◌, ◌↔◌, ◌⊎◌, inl, inr}
pub use mathlib.Core.Bool.{Bool, true, false, not, ◌&&◌, ◌||◌}
pub use mathlib.Core.Option.{Option, none, some}
pub use mathlib.Core.List.{List, [], ◌∷◌, ◌++◌, map}
pub use native.Mathlib.Omega.{arith}
