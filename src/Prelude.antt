-- ===== src/Prelude.antt =====
-- Names that every module shares: the libraries', passed on, and those of the children. It models
-- no code of the repository, only what Go gives it (maps, slices, strings, integers, errors).
mod Tests
mod Lists
mod Keys
mod GoMap
pub mod Int
pub mod Text
pub use Tests.*
pub use Lists.*
unfoldable pub use Keys.*
unfoldable pub use GoMap.*
pub use Prim.Native.Nat.{ℕ, zero, suc, ◌+◌, ◌-◌, ◌*◌, ◌/◌, ◌%◌, ◌^◌, ◌≤◌, ◌<◌}
pub use mathlib.Core.Path.{◌≡◌, refl, sym, ap, subst, ◌∙◌}
pub use mathlib.Core.Logic.{◌≢◌, ◌↔◌, ◌⊎◌, inl, inr}
pub use mathlib.Core.Bool.{Bool, true, false, not, ◌&&◌, ◌||◌}
pub use mathlib.Core.Option.{Option, none, some}
pub use mathlib.Core.List.{List, [], ◌∷◌, ◌++◌, map}
pub use native.Mathlib.Omega.{arith}
