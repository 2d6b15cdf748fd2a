-- ===== src/Base.antt =====
-- Names that the other modules share: the libraries', passed on, and those of the children.
mod Booleans
mod Lists
pub mod Words
pub mod Ascii
pub mod Maps
pub use Booleans.*
unfoldable pub use Booleans.{equal}
pub use Lists.*
pub use Prim.Native.Nat.{ℕ, zero, suc, ◌+◌, ◌-◌, ◌*◌, ◌/◌, ◌%◌, ◌^◌, ◌≤◌, ◌<◌, min}
pub use Prim.Native.String.{String}
pub use mathlib.Core.Path.{◌≡◌, refl, sym, ap, ◌∙◌}
pub use mathlib.Core.Logic.{◌≢◌, ◌↔◌, ◌⊎◌, inl, inr}
pub use mathlib.Core.Bool.{Bool, true, false, not, ◌&&◌, ◌||◌}
pub use mathlib.Core.Option.{Option, none, some}
pub use mathlib.Core.List.{List, [], ◌∷◌, ◌++◌, append-nil, append_assoc}
pub use native.Mathlib.Omega.{arith}
