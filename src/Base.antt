-- ===== src/Base.antt =====
-- The names that the other modules share: those of the libraries, passed on, and the children's
-- tests, results, lists and maps.
mod Tests
mod Fallible
mod Lists
mod Assoc
pub mod Order
pub mod Effects
pub mod Texts
mod Int
pub use Int.{ℤ, pos, negsuc}
unfoldable pub use Tests.*
unfoldable pub use Fallible.*
unfoldable pub use Lists.*
unfoldable pub use Assoc.*
pub use Prim.Native.Nat.{ℕ, zero, suc, ◌+◌, ◌-◌, ◌*◌, ◌/◌, ◌%◌, ◌^◌, ◌≤◌, ◌<◌}
pub use Prim.Native.String.{String}
pub use mathlib.Core.Path.{◌≡◌, refl, sym, ap, ap₂, ◌∙◌, subst, subst₂, fun_ext}
pub use mathlib.Core.Logic.{◌≢◌, ◌↔◌, ◌⊎◌, inl, inr}
pub use mathlib.Core.Bool.{Bool, true, false, ◌&&◌, ◌||◌, not}
pub use mathlib.Core.Option.{Option, none, some}
pub use mathlib.Core.List.{List, [], ◌∷◌, ◌++◌, map, append-nil, append_assoc}
pub use native.Mathlib.Omega.{arith}
pub use text.Mathlib.TextEquality.{eq_iff}
