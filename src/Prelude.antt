-- ===== src/Prelude.antt =====
-- The names that every other module shares: the libraries' names, Boolean tests on the native
-- numbers, and lists measured by them.
mod Tests
mod Lists
mod Keep
mod Int
mod Sort
pub use Tests.*
pub use Lists.*
pub use Keep.*
pub use Int.*
unfoldable pub use Sort.{insert, sorted}
pub use Sort.{weigh, IsSorted, sorted-IsSorted, weigh-sorted, indicator, keep-weigh, keep-sorted}
pub use Prim.Native.Nat.{ℕ, zero, suc, ◌+◌, ◌-◌, ◌*◌, ◌/◌, ◌%◌, ◌^◌, ◌≤◌, ◌<◌, bit_and, bit_or}
pub use Prim.Native.String.{String}
pub use mathlib.Core.Path.{◌≡◌, refl, sym, ap, ◌∙◌, subst}
pub use mathlib.Core.Logic.{◌≢◌, ◌↔◌, ◌⊎◌, inl, inr}
pub use mathlib.Core.Bool.{Bool, true, false, not, ◌&&◌, ◌||◌}
pub use mathlib.Core.Option.{Option, none, some}
pub use mathlib.Core.List.{List, [], ◌∷◌, ◌++◌, map, append_assoc, append-nil}
pub use native.Mathlib.Omega.{arith}
