-- ===== src/Base.antt =====
-- The names that the other modules share: the libraries' names, passed on, and those of two
-- children. Texts (identifiers, scopes, keys) are native strings, compared by `==`; numbers (times
-- in milliseconds, sizes, counters) are native naturals, compared by `eqb`, `ltb` and `leb`.
mod Tests
mod Lists
mod Dict
mod Results
mod Text
pub use Tests.*
pub use Lists.*
unfoldable pub use Dict.*
pub use Results.*
unfoldable pub use Text.*
pub use Prim.Native.Nat.{ℕ, zero, suc, ◌+◌, ◌-◌, ◌*◌, ◌/◌, ◌%◌, ◌^◌, ◌≤◌, ◌<◌, min, max}
pub use Prim.Native.String.{String}
pub use mathlib.Core.Path.{◌≡◌, refl, sym, ap, subst, ◌∙◌}
pub use mathlib.Core.Logic.{◌≢◌, ◌↔◌, ◌⊎◌, inl, inr}
pub use mathlib.Core.Bool.{Bool, true, false, not, ◌&&◌, ◌||◌}
pub use mathlib.Core.Option.{Option, none, some}
pub use mathlib.Core.List.{List, [], ◌∷◌, ◌++◌, map, append-nil, append_assoc}
pub use text.Mathlib.Text.{◌==◌}
pub use text.Mathlib.TextEquality.{eq_iff}
pub use text.Mathlib.TextPositions.{eq_refl}
pub use native.Mathlib.Omega.{arith}
