-- ===== src/Prelude.antt =====
-- The names that the other modules share: the libraries', passed on, and those of the children.
mod Tests
mod Lists
mod Results
mod Keys
mod Texts
mod Sorting
mod Maps
mod Every
pub mod Int
pub mod Tables
pub use Tests.*
pub use Lists.*
unfoldable pub use Tables.*
pub use Keys.*
pub use Texts.*
pub use Every.*
unfoldable pub use Sorting.*
unfoldable pub use Maps.*
pub use Results.*
pub use Prim.Native.Nat.{ℕ, zero, suc, ◌+◌, ◌-◌, ◌*◌, ◌/◌, ◌%◌, ◌≤◌, ◌<◌, min, max}
pub use mathlib.Core.Path.{◌≡◌, refl, sym, ap, subst, ◌∙◌}
pub use mathlib.Core.Logic.{◌≢◌, ◌↔◌, ◌⊎◌, inl, inr}
pub use mathlib.Core.Bool.{Bool, true, false, not, ◌&&◌, ◌||◌}
pub use mathlib.Core.Option.{Option, none, some}
pub use mathlib.Core.List.{List, [], ◌∷◌, ◌++◌, map}
pub use native.Mathlib.Omega.{arith}

-- A text that the program only compares for equality: an identifier, a hash, a label.
abbrev pub Key : Type 0
Key = ℕ

-- A point in time, in milliseconds since the epoch.
abbrev pub Time : Type 0
Time = ℕ
