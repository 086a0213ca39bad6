-- ===== src/Prelude.antt =====
-- Names that the modules share: the libraries', passed on, Boolean tests on the native numbers,
-- lists under native indices, and the reading of a Rust panic as `none`.
mod Tests
pub mod Text
mod Lists
mod Panic
pub use Tests.*
pub use Lists.*
pub use Panic.{◌>>=◌, >>=-eq-some, for_each_rule, Returns, >>=-Returns, get_elem?-Returns}
pub use Panic.{Run, done, panicked, out_of_fuel}
unfoldable pub use Panic.{for_each, traverse}
pub use Prim.Native.Nat.{ℕ, zero, suc, ◌+◌, ◌-◌, ◌*◌, ◌/◌, ◌%◌, ◌^◌, ◌≤◌, ◌<◌, min, max}
pub use Prim.Native.String.{String}
pub use mathlib.Core.Path.{◌≡◌, refl, sym, ap, ◌∙◌, subst}
pub use mathlib.Core.Logic.{◌≢◌, ◌↔◌, ◌⊎◌, inl, inr}
pub use mathlib.Core.Bool.{Bool, true, false, not, ◌&&◌, ◌||◌}
pub use mathlib.Core.Option.{Option, none, some}
pub use mathlib.Core.List.{List, [], ◌∷◌, ◌++◌, map}
pub use native.Mathlib.Omega.{arith}
