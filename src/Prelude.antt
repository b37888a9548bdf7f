-- ===== src/Prelude.antt =====
-- The names that the other modules share: the libraries', passed on, and those of the children.
mod Tests
mod Lists
mod Errors
mod Integers
pub mod Exec
pub mod Map
pub mod Ordered
pub use Tests.*
pub use Lists.*
pub use Errors.{
  is_ok, Outcome, ok, err, panic, ◌>>=◌, ◌>>◌, u64_mod, err_if, add64-ok, add64-panic, sub64-ok,
  mul64-ok, rem64-ok, div64-ok, index-ok, write-ok, Returns, Returns-value, Returns-mono,
  Returns-both, Returns-bind, Safe, Safe-mono, Safe-guard, Safe-of-Returns, Safe-bind,
}
pub use Integers.{ℤ, pos, negsuc, diff, ◌-ℤ◌, fits_i64}
unfoldable pub use Integers.{to_i64, sub_i64}
unfoldable pub use Errors.{add64, sub64, mul64, rem64, div64, index, write}
pub use Prim.Native.Nat.{ℕ, zero, suc, ◌+◌, ◌-◌, ◌*◌, ◌/◌, ◌%◌, ◌^◌, ◌≤◌, ◌<◌, min}
pub use mathlib.Core.Path.{◌≡◌, refl, sym, ap, ap₂, ◌∙◌, subst, fun_ext}
pub use mathlib.Core.Logic.{◌≢◌, ◌↔◌, ◌⊎◌, inl, inr, ite}
pub use mathlib.Core.Bool.{Bool, true, false, ◌&&◌, ◌||◌, not}
pub use mathlib.Core.Option.{Option, none, some}
pub use mathlib.Core.List.{List, [], ◌∷◌, ◌++◌, map}
pub use native.Mathlib.Omega.{arith}
unfoldable pub use native.Mathlib.Decide.{ℕ_discrete}
