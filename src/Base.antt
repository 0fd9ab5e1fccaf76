-- ===== src/Base.antt =====
-- The names that the other modules share: the libraries', passed on, and those of the children:
-- tests, results, lists, tables of rows, texts, integers and JSON values.
mod Tests
mod Results
mod Lists
mod Texts
mod Tables
pub mod Int
pub mod Json
pub mod Kafka
pub mod Outbox
pub use Tests.*
pub use Results.*
pub use Lists.*
pub use Tables.*
unfoldable pub use Texts.{text_eq}
pub use Texts.{text_eq_refl, text_eq→eq, text_eq_iff, text_eq_sym, texts}
pub use Prim.Native.Nat.{ℕ, zero, suc, ◌+◌, ◌-◌, ◌*◌, ◌/◌, ◌%◌, ◌^◌, ◌≤◌, ◌<◌}
pub use Prim.Native.String.{String}
pub use mathlib.Core.Path.{◌≡◌, refl, sym, ap, ◌∙◌}
pub use mathlib.Core.Logic.{◌≢◌, ◌↔◌, ◌⊎◌, inl, inr}
pub use mathlib.Core.Bool.{Bool, true, false, not, ◌&&◌, ◌||◌}
pub use mathlib.Core.Option.{Option, none, some}
pub use mathlib.Core.List.{List, [], ◌∷◌, ◌++◌, map}
pub use native.Mathlib.Omega.{arith}
