-- ===== src/Common.antt =====
-- What the components share: the libraries' names, Boolean tests, lists over the native numbers,
-- the outcome of a Go call, stateful methods, and byte buffers.
mod Tests
mod Lists
mod Outcomes
mod Methods
pub mod Int
pub mod Text
pub mod Bytes
pub mod Cursor
pub use Tests.*
pub use Lists.*
pub use Outcomes.*
pub use Methods.*
pub use Prim.Native.Nat.{ℕ, zero, suc, ◌+◌, ◌-◌, ◌*◌, ◌/◌, ◌%◌, ◌^◌, ◌≤◌, ◌<◌}
pub use mathlib.Core.Path.{◌≡◌, refl, sym, ap, ◌∙◌}
pub use mathlib.Core.Logic.{◌≢◌, ◌↔◌, ◌⊎◌, inl, inr}
pub use mathlib.Core.Bool.{Bool, true, false, not, ◌&&◌, ◌||◌}
pub use mathlib.Core.Option.{Option, none, some}
pub use mathlib.Core.List.{List, [], ◌∷◌, ◌++◌, map, append-nil, append_assoc}
pub use native.Mathlib.Omega.{arith}
