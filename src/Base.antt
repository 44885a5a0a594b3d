-- ===== src/Base.antt =====
-- What the modules share: the libraries' names, passed on, the tests on numbers, the operations on
-- the rows of a table, and the monad of a service call.
mod Tests
pub mod Descending
pub mod Firsts
pub mod Keys
pub mod Pages
pub mod Rows
pub mod Slices
pub mod Sorting
mod Calls
pub use Tests.*
pub use Rows.{length, find, any, select, remove, update, count, take, drop, All}
pub use Calls.{
  Action, Result, Result-cases, Value-cases, ok, err, pure, raise, gets, modify, raise_if, or_raise,
  transaction, ◌>>=◌, ◌>>◌,
}
pub use Prim.Native.Nat.{ℕ, zero, suc, ◌+◌, ◌-◌, ◌*◌, ◌/◌, ◌≤◌, ◌<◌}
pub use Prim.Native.String.{String}
pub use mathlib.Core.Path.{◌≡◌, refl, sym, ap, ◌∙◌}
pub use mathlib.Core.Logic.{◌≢◌, ◌↔◌, ◌⊎◌, inl, inr}
pub use mathlib.Core.Bool.{Bool, true, false, not, ◌&&◌, ◌||◌}
pub use mathlib.Core.Option.{Option, none, some}
pub use mathlib.Core.List.{List, [], ◌∷◌, ◌++◌, map}
pub use native.Mathlib.Omega.{arith}
