-- ===== src/Base.antt =====
-- Names that every module shares: the libraries' passed on, the tests on numbers, the list
-- functions over the native numbers, the outcome of a C++ call, and the rule sets.
mod Tests
mod Lists
mod Calls
mod Ints
pub mod Bits
pub mod Assoc
pub use Tests.*
pub use Lists.*
pub use Calls.*
pub use Ints.*
pub use Prim.Native.Nat.{ℕ, zero, suc, ◌+◌, ◌-◌, ◌*◌, ◌/◌, ◌%◌, ◌^◌, ◌≤◌, ◌<◌}
pub use mathlib.Core.Path.{◌≡◌, refl, sym, ap, ap₂, subst, ◌∙◌}
pub use mathlib.Core.Logic.{◌≢◌, ◌↔◌, ◌⊎◌, inl, inr}
pub use mathlib.Core.Bool.{Bool, true, false, not, ◌&&◌, ◌||◌}
pub use mathlib.Core.Option.{Option, none, some}
pub use mathlib.Core.List.{List, [], ◌∷◌, ◌++◌, map, append-nil, append_assoc}
pub use native.Mathlib.Omega.{arith}
