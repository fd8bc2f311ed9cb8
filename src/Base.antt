-- ===== src/Base.antt =====
-- The names that every module shares: library names passed on, Boolean tests, tables, results.
mod Tests
mod Tables
mod Rows
mod Sorting
mod Evolution
mod Pairs
mod Updates
mod Results
pub use Tests.*
unfoldable pub use Tables.*
pub use Rows.*
unfoldable pub use Sorting.{first}
pub use Sorting.{
  first-order_by, order_by-append, count-order_by, order_by-select, All-order_by, any-order_by,
}
pub use Evolution.*
pub use Pairs.*
pub use Updates.*
unfoldable pub use Results.{◌>>=◌, ◌>>◌, guard, found}
pub use Results.{
  Error, Result, ok, err, is_ok, Post, post_bind, post_seq, post_guard, post_ok, post_err, post_if,
  post_option, bind_of, seq_of, err_of, guard-true, found-some,
}
pub use Prim.Native.Nat.{ℕ, zero, suc, ◌+◌, ◌-◌, ◌*◌, ◌≤◌, ◌<◌, max, min}
pub use mathlib.Core.Path.{◌≡◌, refl, sym, ap, ◌∙◌, subst}
pub use mathlib.Core.Logic.{◌≢◌, ◌↔◌, ◌⊎◌, inl, inr}
pub use mathlib.Core.Bool.{Bool, true, false, not, ◌&&◌, ◌||◌}
pub use mathlib.Core.Option.{Option, none, some}
pub use mathlib.Core.List.{List, [], ◌∷◌, ◌++◌, map}
pub use native.Mathlib.Omega.{arith}
