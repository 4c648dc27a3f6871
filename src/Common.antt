-- ===== src/Common.antt =====
-- Names that every module shares: the libraries' own, passed on, and those of the children.
mod Base
mod Strings
mod Effects
pub mod Utf8
pub mod Laws
pub use Base.*
pub use Effects.*
unfoldable pub use Strings.{text_eq, contains, starts_with, ends_with, strip, lstrip, rstrip}
unfoldable pub use Strings.{lower, split_on, replace_char, last_or, join, is_space, strip_chars}
pub use Strings.*
pub use Prim.Native.Nat.{ℕ, zero, suc, ◌+◌, ◌-◌, ◌*◌, ◌/◌, ◌%◌, ◌^◌, ◌≤◌, ◌<◌}
pub use Prim.Native.String.{String}
pub use mathlib.Core.Path.{◌≡◌, refl, sym, ap, subst, ◌∙◌, fun_ext, ◌≡⟨◌⟩◌, ◌∎}
pub use mathlib.Core.Logic.{◌≢◌, ◌↔◌, ◌⊎◌, inl, inr}
pub use mathlib.Core.Bool.{Bool, true, false, not, ◌&&◌, ◌||◌}
pub use mathlib.Core.Option.{Option, none, some}
pub use mathlib.Core.List.{List, [], ◌∷◌, ◌++◌, map}
pub use native.Mathlib.Omega.{arith}
