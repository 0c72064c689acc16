-- ===== src/Prelude.antt =====
-- The names that the other modules share: the libraries' passed on, Boolean tests, lists with
-- native indices, and what a piece of C returns.
mod Tests
mod Lists
mod Outcome
mod CString
unfoldable pub use Tests.*
unfoldable pub use Lists.*
unfoldable pub use Outcome.*
unfoldable pub use CString.*
pub use Prim.Native.Nat.{ℕ, zero, suc, ◌+◌, ◌-◌, ◌*◌, ◌/◌, ◌%◌, ◌^◌, ◌≤◌, ◌<◌}
pub use mathlib.Core.Path.{◌≡◌, refl, sym, ap, ◌∙◌}
pub use mathlib.Core.Logic.{◌≢◌, ◌↔◌, ◌⊎◌, inl, inr}
pub use mathlib.Core.Bool.{Bool, true, false, not, ◌&&◌, ◌||◌}
pub use mathlib.Core.Option.{Option, none, some}
pub use mathlib.Core.List.{List, [], ◌∷◌, ◌++◌}
pub use native.Mathlib.Omega.{arith}
