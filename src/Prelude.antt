-- ===== src/Prelude.antt =====
-- The names that the other modules share: the libraries', passed on, the tests on numbers and bytes,
-- and lists measured by native numbers.
mod Tests
mod Lists
mod ByteTests
pub mod Predicates
pub use Tests.*
pub use Lists.{
  length, length-append, length-take, length-drop, length-replicate, take-append, drop-append,
  drop-append_add,
}
unfoldable pub use Lists.{take, drop, replicate, get_elem?}
pub use Prim.Native.Nat.{ℕ, zero, suc, ◌+◌, ◌-◌, ◌*◌, ◌/◌, ◌%◌, ◌^◌, ◌≤◌, ◌<◌}
pub use mathlib.Core.Path.{◌≡◌, refl, sym, ap, ap₂, subst, ◌∙◌}
pub use mathlib.Core.Logic.{◌≢◌, ◌↔◌, ◌⊎◌, inl, inr}
pub use mathlib.Core.Bool.{Bool, true, false, ◌&&◌, ◌||◌, not}
pub use mathlib.Core.Option.{Option, none, some}
pub use mathlib.Core.List.{List, [], ◌∷◌, ◌++◌, map, append_assoc, append-nil}
pub use native.Mathlib.Omega.{arith}
unfoldable pub use ByteTests.{Bytes, ◌==◌, contains, set_insert, Map, lookup, insert}
pub use ByteTests.{==_iff, ==_refl, contains_cons, set_insert_new, lookup-insert}
