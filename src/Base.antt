-- ===== src/Base.antt =====
-- Names that every module shares: the libraries', passed on, and those of the children.
-- A Go string or byte slice is a `Bytes`, a list of byte values.
mod Tests
mod Lists
pub mod Text
pub mod Space
pub mod Scanner
pub mod Outcomes
pub mod Predicates
pub mod Graphic
pub mod Trim
pub mod Binary
pub mod Bits
pub use Tests.*
pub use Lists.*
pub use Prim.Native.Nat.{ℕ, zero, suc, ◌+◌, ◌-◌, ◌*◌, ◌/◌, ◌%◌, ◌^◌, ◌≤◌, ◌<◌}
pub use mathlib.Core.Path.{◌≡◌, refl, sym, ap, ◌∙◌}
pub use mathlib.Core.Logic.{◌≢◌, ◌↔◌, ◌⊎◌, inl, inr}
pub use mathlib.Core.Bool.{Bool, true, false, not, ◌&&◌, ◌||◌}
pub use mathlib.Core.Option.{Option, none, some}
pub use mathlib.Core.List.{List, [], ◌∷◌, ◌++◌, map, reverse, append-nil, append_assoc}
pub use native.Mathlib.Omega.{arith}
