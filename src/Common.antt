-- ===== src/Common.antt =====
-- What the modules share: the libraries' names, Boolean tests, lists, byte texts, results and maps.
mod Tests
mod Lists
mod Texts
pub mod Decimal
pub mod Fallible
mod Maps
pub mod Handler
pub use Tests.*
pub use Lists.*
unfoldable pub use Texts.*
pub use Fallible.{Result, ok, err, map_err, ok_or}
unfoldable pub use Maps.*
pub use Handler.{Outcome, panicked, failed, done, Exec}
pub use Prim.Native.Nat.{ℕ, zero, suc, ◌+◌, ◌-◌, ◌*◌, ◌%◌, ◌^◌, ◌≤◌, ◌<◌}
pub use mathlib.Core.Path.{◌≡◌, refl, sym, ap, ◌∙◌, subst}
pub use mathlib.Core.Logic.{◌≢◌, ◌↔◌, ◌⊎◌, inl, inr}
pub use mathlib.Core.Bool.{Bool, true, false, not, ◌&&◌, ◌||◌}
pub use mathlib.Core.Option.{Option, none, some}
pub use mathlib.Core.List.{List, [], ◌∷◌, ◌++◌, map}
pub use native.Mathlib.Omega.{arith}
