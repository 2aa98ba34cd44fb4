-- ===== src/Prelude.antt =====
-- Names that every other module takes from here: the libraries', passed on, and those of the
-- children below (tests and lists, byte texts, results with error chains).
mod Tests
mod Lists
mod Bytes
mod Numbers
mod Results
mod Integers
pub mod OptionMonad
pub use Tests.*
pub use Lists.*
unfoldable pub use Bytes.*
unfoldable pub use Numbers.*
pub use Results.*
pub use Integers.*
pub use Prim.Native.Nat.{ℕ, zero, suc, ◌+◌, ◌-◌, ◌*◌, ◌/◌, ◌%◌, ◌^◌, ◌≤◌, ◌<◌}
pub use Prim.Native.String.{String}
pub use mathlib.Core.Path.{◌≡◌, refl, sym, ap, subst, ◌∙◌, fun_ext}
pub use mathlib.Core.Logic.{◌≢◌, ◌↔◌, ◌⊎◌, inl, inr}
pub use mathlib.Core.Bool.{Bool, true, false, not, ◌&&◌, ◌||◌}
pub use mathlib.Core.Option.{Option, none, some}
pub use mathlib.Core.List.{List, [], ◌∷◌, ◌++◌, map, append-nil, append_assoc}
pub use native.Mathlib.Omega.{arith}
