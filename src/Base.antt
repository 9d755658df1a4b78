-- ===== src/Base.antt =====
-- The names that the modules of the development share: the libraries', passed on, and those of the
-- children.
mod Tests
mod Lists
mod Bytes
mod Maps
mod Times
pub mod Order
pub use Tests.*
pub use Lists.*
pub use Times.{to_second}
pub use Prim.Native.Nat.{ℕ, zero, suc, ◌+◌, ◌-◌, ◌*◌, ◌/◌, ◌%◌, ◌^◌, ◌≤◌, ◌<◌, min}
pub use Prim.Native.String.{String}
pub use mathlib.Core.Path.{◌≡◌, refl, sym, ap, ap₂, subst, ◌∙◌}
pub use mathlib.Core.Logic.{◌≢◌, ◌↔◌, ◌⊎◌, inl, inr}
pub use mathlib.Core.Bool.{Bool, true, false, not, ◌&&◌, ◌||◌}
pub use mathlib.Core.Option.{Option, none, some}
pub use mathlib.Core.List.{List, [], ◌∷◌, ◌++◌, append_assoc, append-nil}
pub use native.Mathlib.Omega.{arith}
unfoldable pub use Maps.{lookup, set, erase}
pub use Maps.{lookup-set, lookup-erase}
unfoldable pub use Bytes.{text_eq, has_prefix, be16, be32, be64, be_value}
pub use Bytes.{
  Text, codes, IsByte, text_eq_sound, text_eq_refl, text_eq_iff, has_prefix-append,
  has_prefix_split, be_value-be32, be_value-be16,
}
