-- ===== src/Base.antt =====
-- The names that the other modules share: those of the libraries, passed on, and the Boolean
-- tests, lists, words, texts and id-keyed collections that the Rust code takes from its standard
-- library.
mod Tests
mod Lists
mod Words
mod Chars
pub mod Bits
pub mod Decimal
pub mod IdMap
pub mod IdSet
pub use Tests.*
pub use Lists.*
pub use Words.*
pub use Chars.{Text, codes, is_digit, str_len}
unfoldable pub use Chars.{
  lower, to_ascii_lowercase, split_whitespace, trim, trim_start, is_whitespace, text_eq, text_lt,
  eq_ignore_ascii_case, is_one_of, is_blank,
}
pub use Chars.{text_eq_sound, text_eq_refl}
pub use Prim.Native.Nat.{ℕ, zero, suc, ◌+◌, ◌-◌, ◌*◌, ◌/◌, ◌%◌, ◌^◌, ◌≤◌, ◌<◌, min, max}
pub use mathlib.Core.Path.{◌≡◌, refl, sym, ap, ◌∙◌, subst}
pub use mathlib.Core.Logic.{◌≢◌, ◌↔◌, ◌⊎◌, inl, inr}
pub use mathlib.Core.Bool.{Bool, true, false, not, ◌&&◌, ◌||◌}
pub use mathlib.Core.Option.{Option, none, some}
pub use mathlib.Core.List.{List, [], ◌∷◌, ◌++◌, map, append-nil, append_assoc}
pub use native.Mathlib.Omega.{arith}
