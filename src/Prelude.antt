-- ===== src/Prelude.antt =====
-- The names that the other modules share: the libraries', passed on, and those of the children
-- (tests on numbers, lists by native indices, byte strings, associative containers, words).
mod Tests
mod Lists
pub mod Keys
pub mod Maps
pub mod Text
pub mod Decimal
pub mod Integers
mod Bits
pub use Bits.{bit_xor-bit_xor_self}
pub use Tests.*
pub use Lists.*
pub use Keys.{Str, Key, same_key, same_key_iff, str_eq_iff, str_eq_refl}
unfoldable pub use Keys.{str_eq}
pub use Maps.{Map, find-insert, find-insert_self, find-erase, length-erase-le, length-erase-lt}
unfoldable pub use Maps.{find, insert, erase, count}
pub use Prim.Native.Nat.{ℕ, zero, suc, ◌+◌, ◌-◌, ◌*◌, ◌/◌, ◌%◌, ◌^◌, ◌≤◌, ◌<◌, max, min}
pub use mathlib.Core.Path.{◌≡◌, refl, sym, ap, ◌∙◌, subst}
pub use mathlib.Core.Logic.{◌≢◌, ◌↔◌, ◌⊎◌, inl, inr}
pub use mathlib.Core.Bool.{Bool, true, false, ◌&&◌, ◌||◌, not}
pub use mathlib.Core.Option.{Option, none, some}
pub use mathlib.Core.List.{List, [], ◌∷◌, ◌++◌, map}
pub use native.Mathlib.Omega.{arith}
pub use Keys.{nat_key, str_key}
unfoldable pub use Text.{find_char, starts_with, find_str}
pub use Text.{
  Lacks, find_char-Lacks, find_char-none, find_char-append, find_char-some, take-length,
  drop-length, drop-length-suc,
}
pub use Prim.Native.Nat.{bit_xor, bit_and}
pub use Integers.{ℤ, pos, negsuc}
unfoldable pub use Integers.{lebℤ, to_int}
unfoldable pub use Decimal.{dec_digits, to_string, dec_value, pow10}
pub use Decimal.{
  dec_value-to_string, to_string-injective, AllDigits, to_string-AllDigits, to_string-length_pos,
}
unfoldable pub use native.Mathlib.Decide.{dec_lt, ℕ_discrete}

-- The moduli of the machine words of the source.
abbrev pub u64_mod : ℕ
u64_mod = 18446744073709551616

abbrev pub u32_mod : ℕ
u32_mod = 4294967296
