-- ===== src/Base.antt =====
-- What every part of the model shares: tests on numbers, equality as an interface, results that
-- may be an error, lists over the native numbers, Python's integers, `dict` and `str` methods.
mod Tests
mod Classes
mod Lists
mod Raise
pub mod Exec
pub mod Int
pub mod Objects
pub mod Dict
pub mod Sorting
pub mod Exists
pub mod Text
pub use Tests.*
pub use Classes.*
pub use Lists.*
pub use Raise.*
pub use Prim.Native.Nat.{ℕ, zero, suc, ◌+◌, ◌-◌, ◌*◌, ◌≤◌, ◌<◌, min, max}
pub use Prim.Native.String.{String}
pub use mathlib.Core.Path.{◌≡◌, refl, sym, ap, ◌∙◌, subst}
pub use mathlib.Core.Logic.{◌≢◌, ◌↔◌, ◌⊎◌, inl, inr}
pub use mathlib.Core.Bool.{Bool, true, false, not, ◌&&◌, ◌||◌}
pub use mathlib.Core.Option.{Option, none, some}
pub use mathlib.Core.List.{List, [], ◌∷◌, ◌++◌, map}
pub use native.Mathlib.Omega.{arith}
pub use text.Mathlib.TextEquality.{eq_iff}
