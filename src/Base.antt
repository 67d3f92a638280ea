-- ===== src/Base.antt =====
-- The names that the other modules share: the libraries', passed on, and those of the children.
mod Tests
mod Lists
mod Maps
mod Words
mod Int
pub use Tests.*
pub use Lists.{length, All, length-append, length-keep-le, All-append}
unfoldable pub use Lists.{keep}
unfoldable pub use Maps.{lookup, insert, delete, contains, include, exclude}
pub use Maps.{
  lookup-insert, lookup-delete, contains-include, contains-exclude, NoRepeat, NoRepeat-include,
  NoRepeat-exclude, All-insert, All-delete, All-lookup, insert_same, length-insert_old,
}
pub use Words.*
pub use Int.*
pub use Prim.Native.Nat.{ℕ, zero, suc, ◌+◌, ◌-◌, ◌*◌, ◌/◌, ◌%◌, ◌^◌, ◌≤◌, ◌<◌, min, max, bit_and}
pub use Prim.Native.String.{String}
pub use mathlib.Core.Path.{◌≡◌, refl, sym, ap, ◌∙◌, subst}
pub use mathlib.Core.Logic.{◌≢◌, ◌↔◌, ◌⊎◌, inl, inr}
pub use mathlib.Core.Bool.{Bool, true, false, not, ◌&&◌, ◌||◌}
pub use mathlib.Core.Option.{Option, none, some}
pub use mathlib.Core.List.{List, [], ◌∷◌, ◌++◌, map}
pub use native.Mathlib.Omega.{arith}
pub use text.Mathlib.TextEquality.{eq_iff}
