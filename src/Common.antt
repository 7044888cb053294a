-- ===== src/Common.antt =====
-- The names that the other modules share: those of the libraries, and Boolean tests, lists,
-- machine words and loops over the native numbers.
mod Digits
mod Tests
mod Lists
mod Words
mod Loops
mod Texts
mod Chains
pub use Tests.*
unfoldable pub use Lists.*
pub use Chains.*
pub use Words.*
pub use Digits.{bit_or-byte}
unfoldable pub use Loops.*
unfoldable pub use Texts.*
pub use Prim.Native.Nat.{ℕ, zero, suc, ◌+◌, ◌-◌, ◌*◌, ◌/◌, ◌%◌, ◌^◌, ◌≤◌, ◌<◌, min, bit_or, bit_and}
pub use mathlib.Core.Path.{◌≡◌, refl, sym, ap, subst, ◌∙◌}
pub use mathlib.Core.Logic.{◌≢◌, ◌↔◌, ◌⊎◌, inl, inr}
pub use mathlib.Core.Bool.{Bool, true, false, not, ◌&&◌, ◌||◌}
pub use mathlib.Core.Option.{Option, none, some}
pub use mathlib.Core.List.{List, [], ◌∷◌, ◌++◌, map}
pub use native.Mathlib.Omega.{arith}
