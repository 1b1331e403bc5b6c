-- ===== src/Base.antt =====
-- The names that every module shares: the libraries', passed on, and those of the children.
mod Tests
mod Lists
mod Results
mod Texts
pub mod AssocMap
pub mod Windows
pub mod Strings
pub use Tests.*
pub use Lists.*
pub use Results.*
unfoldable pub use Texts.{Bytes, codes, beq}
pub use Texts.{beq→eq, beq_refl, beq_iff}
pub use Prim.Native.Nat.{ℕ, zero, suc, ◌+◌, ◌-◌, ◌*◌, ◌/◌, ◌%◌, ◌^◌, ◌≤◌, ◌<◌, min, max}
pub use mathlib.Core.Path.{◌≡◌, refl, sym, ap, ◌∙◌, subst}
pub use mathlib.Core.Logic.{◌≢◌, ◌↔◌, ◌⊎◌, inl, inr}
pub use mathlib.Core.Bool.{Bool, true, false, not, ◌&&◌, ◌||◌}
pub use mathlib.Core.Option.{Option, none, some}
pub use mathlib.Core.List.{List, [], ◌∷◌, ◌++◌, map}
pub use native.Mathlib.Omega.{arith}
unfoldable pub use native.Mathlib.Decide.{ℕ_discrete}

-- Instants and durations are natural numbers of nanoseconds.
abbrev pub secs : ℕ → ℕ
secs n = n * 1000000000

abbrev pub millis : ℕ → ℕ
millis n = n * 1000000
