-- ===== src/Base.antt =====
-- The names that the other modules share: those of the libraries, passed on, and those of five
-- children (tests on numbers and words, lists under native indices, maps and parts of them, ends
-- of a call).
mod Tests
mod Lists
mod Maps
mod Outcome
mod Slices
pub use Tests.*
pub use Lists.*
pub use Maps.*
pub use Outcome.*
pub use Slices.*
pub use Prim.Native.Nat.{ℕ, zero, suc, ◌+◌, ◌-◌, ◌*◌, ◌/◌, ◌%◌, ◌^◌, ◌≤◌, ◌<◌}
pub use mathlib.Core.Path.{◌≡◌, refl, sym, ap, subst, ◌∙◌}
pub use mathlib.Core.Logic.{◌≢◌, ◌↔◌, ◌⊎◌, inl, inr}
pub use mathlib.Core.Bool.{Bool, true, false, not, ◌&&◌, ◌||◌}
pub use mathlib.Core.Option.{Option, none, some}
pub use mathlib.Core.List.{List, [], ◌∷◌, ◌++◌, map}
pub use native.Mathlib.Omega.{arith}
