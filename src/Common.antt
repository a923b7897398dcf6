-- ===== src/Common.antt =====
-- The names that the other modules share: the libraries', passed on, and those of its children.
mod Tests
mod Lists
mod Text
mod Results
mod Membership
mod Updates
mod Maps
mod Slices
mod Sums
pub use Tests.*
pub use Lists.*
unfoldable pub use Text.{
  is_whitespace, is_control, any_char, is_empty, trim_start, cons_trimmed, trim_end, trim,
  is_some_and, opt_eq, decimal, ends_with, trim_end_slashes, drop_slash,
}
pub use Text.{opt_eq_refl}
pub use Membership.*
pub use Updates.*
pub use Maps.*
pub use Slices.*
pub use Sums.*
pub use Results.*
pub use Prim.Native.Nat.{ℕ, zero, suc, ◌+◌, ◌-◌, ◌*◌, ◌/◌, ◌%◌, ◌^◌, ◌≤◌, ◌<◌, max, min}
pub use Prim.Native.String.{String, len, count, compare, ◌++◌ as concat}
pub use mathlib.Core.Path.{◌≡◌, refl, sym, ap, subst, ◌∙◌, ◌≡⟨◌⟩◌, ◌∎}
pub use mathlib.Core.Logic.{◌≢◌, ◌↔◌, ◌⊎◌, inl, inr}
pub use mathlib.Core.Bool.{Bool, true, false, not, ◌&&◌, ◌||◌}
pub use mathlib.Core.Option.{Option, none, some}
pub use mathlib.Core.List.{List, [], ◌∷◌, ◌++◌, map, append-nil, append_assoc}
pub use native.Mathlib.Omega.{arith}
pub use text.Mathlib.Text.{◌==◌, starts_with, is_lt, is_le}
pub use text.Mathlib.TextEquality.{eq_iff}
