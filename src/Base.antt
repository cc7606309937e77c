-- ===== src/Base.antt =====
-- Shared names: the libraries', passed on, and the helpers of the children.
mod Tests
mod Lists
pub mod Outcome
mod Texts
mod Normal
pub mod Rows
pub mod Keyed
pub mod Assoc
pub mod Decimals
pub use Normal.*
pub use Tests.*
pub use Lists.*
pub use Outcome.{Result, ok, err}
pub use Texts.{
  Text, codes, is_space, same_iff, same_refl, lower_idem, to_lower_idem, trim_space_idem,
  trim_space-to_lower, cut_here,
}
unfoldable pub use Texts.{
  same, lower, to_lower, trim_left, trim_right, trim_space, has_prefix, contains, trim_prefix, cut,
  any_byte,
}
pub use Prim.Native.Nat.{ℕ, zero, suc, ◌+◌, ◌-◌, ◌*◌, ◌/◌, ◌%◌, ◌^◌, ◌≤◌, ◌<◌, min, max}
pub use mathlib.Core.Path.{◌≡◌, refl, sym, ap, ap₂, ◌∙◌, subst}
pub use mathlib.Core.Logic.{◌≢◌, ◌↔◌, ◌⊎◌, inl, inr}
pub use mathlib.Core.Bool.{Bool, true, false, not, ◌&&◌, ◌||◌}
pub use mathlib.Core.Option.{Option, none, some}
pub use mathlib.Core.List.{List, [], ◌∷◌, ◌++◌, map}
pub use native.Mathlib.Omega.{arith}
