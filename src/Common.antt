-- ===== src/Common.antt =====
-- Names that every part of the model shares: those of the libraries, passed on, and those of the
-- modules below. No code of the repository is modelled here but the conventions of Rust's core
-- types (`Result`, the integers, panics).
pub mod Tests
pub mod Lists
pub mod Int
pub mod Results
pub mod Exec
pub mod Try
pub mod Ends
pub mod Locks
pub use Prim.Native.Nat.{ℕ, zero, suc, ◌+◌, ◌-◌, ◌*◌, ◌%◌, ◌^◌, ◌≤◌, ◌<◌}
pub use mathlib.Core.Path.{◌≡◌, refl, sym, ap, ◌∙◌}
pub use mathlib.Core.Logic.{◌≢◌, ◌↔◌, ◌⊎◌, inl, inr}
pub use mathlib.Core.Bool.{Bool, true, false, ◌&&◌, ◌||◌, not}
pub use mathlib.Core.Option.{Option, none, some}
pub use mathlib.Core.List.{List, [], ◌∷◌, ◌++◌, map, foldl, append-nil, append_assoc}
pub use native.Mathlib.Omega.{arith}
pub use Tests.{ltb, leb, ◌==◌, if◌then◌else◌, Bool-cases, Option-cases}
pub use Lists.{length, All, All-Unit, text, strip_prefix, same, is_new}
pub use Results.{Result, ok, err, Result-cases, map_err, map_ok}
