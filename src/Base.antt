-- ===== src/Base.antt =====
-- Names shared by every module: those of the libraries, Boolean tests, lists measured by the
-- native numbers, and byte strings.
mod Tests
mod Lists
mod Strings
mod Strcmp
pub use Tests.*
pub use Lists.*
unfoldable pub use Strings.*
unfoldable pub use Strcmp.*
pub use Prim.Native.Nat.{
  ℕ, zero, suc, ◌+◌, ◌-◌, ◌*◌, ◌/◌, ◌%◌, ◌^◌, ◌≤◌, ◌<◌, min, max, compare, Ordering,
}
pub use Prim.Native.String.{String}
pub use mathlib.Core.Path.{◌≡◌, refl, sym, ap, ap₂, ◌∙◌, subst, ◌≡⟨◌⟩◌, ◌∎}
pub use mathlib.Core.Logic.{◌≢◌, ◌↔◌, ◌⊎◌, inl, inr}
pub use mathlib.Core.Bool.{Bool, true, false, not, ◌&&◌, ◌||◌}
pub use mathlib.Core.Option.{Option, none, some}
pub use mathlib.Core.List.{
  List, [], ◌∷◌, ◌++◌, map, foldl, append-nil, append_assoc, reverse, reverse-append,
  reverse-reverse,
}
pub use native.Mathlib.Omega.{arith}
