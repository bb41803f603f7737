-- ===== src/Prelude/Decimal.antt =====
-- Decimal numerals: what `std::to_string` writes, and the value that a run of digits stands for.
use Prim.Native.Nat.{ℕ, zero, suc, ◌+◌, ◌*◌, ◌-◌, ◌/◌, ◌%◌, ◌<◌, ◌≤◌}
use mathlib.Core.Path.{◌≡◌, refl, ap, ◌∙◌, sym}
use mathlib.Core.Logic.{inl, inr}
use mathlib.Core.Bool.{true, false}
use mathlib.Core.List.{[], ◌∷◌}
use native.Mathlib.Omega.{arith}
use open_arango_dbcore.Prelude.Tests.{ltb, ltb→lt, Bool-cases}
use open_arango_dbcore.Prelude.Lists.{length}
use open_arango_dbcore.Prelude.Keys.{Str}

-- At most `fuel` digits, in front of `acc`.
unfoldable pub dec_digits : ℕ → ℕ → Str → Str
dec_digits zero n acc = acc
dec_digits (suc fuel) n acc = elim (ltb n 10) [
  | true ↦ (b'0' + n) ∷ acc
  | false ↦ dec_digits fuel (n / 10) ((b'0' + n % 10) ∷ acc)
]

-- A 64-bit number has at most twenty digits.
unfoldable pub to_string : ℕ → Str
to_string n = dec_digits 20 n []

unfoldable pub dec_value : ℕ → Str → ℕ
dec_value v [] = v
dec_value v (c ∷ rest) = dec_value (v * 10 + (c - b'0')) rest

unfoldable pub pow10 : ℕ → ℕ
pow10 zero = 1
pow10 (suc k) = 10 * pow10 k

dec_value-dec_digits :
    (fuel n : ℕ) (acc : Str)
    → n < pow10 fuel
    → dec_value 0 (dec_digits fuel n acc) ≡ dec_value n acc
unfolding dec_value dec_digits pow10
dec_value-dec_digits zero n acc h = let none_left : n ≡ 0 = omega (arith, h) in rw none_left refl
dec_value-dec_digits (suc fuel) n acc h = elim (Bool-cases (ltb n 10)) [
  | inl small ↦ rw (small, dec_digits) (ap (λ v. dec_value v acc) (omega arith))
  | inr large ↦
      let shorter : n / 10 < pow10 fuel = omega (arith, h) in
      let back : n / 10 * 10 + (b'0' + n % 10 - b'0') ≡ n = omega arith in
      rw (large, dec_digits)
        (dec_value-dec_digits fuel (n / 10) ((b'0' + n % 10) ∷ acc) shorter
          ∙ ap (λ v. dec_value v acc) back)
]

pub dec_value-to_string : (n : ℕ) → n < pow10 20 → dec_value 0 (to_string n) ≡ n
unfolding to_string dec_value
dec_value-to_string n h = dec_value-dec_digits 20 n [] h

-- Two numbers that print alike are equal.
pub to_string-injective :
    (n m : ℕ) → n < pow10 20 → m < pow10 20 → to_string n ≡ to_string m → n ≡ m
to_string-injective n m hn hm e =
    sym (dec_value-to_string n hn) ∙ ap (dec_value 0) e ∙ dec_value-to_string m hm

-- Every byte is a decimal digit.
abbrev pub AllDigits : Str → Type 0
AllDigits [] = Unit {0}
AllDigits (c ∷ rest) = (b'0' ≤ c) × (c ≤ b'9') × AllDigits rest

dec_digits-AllDigits : (fuel n : ℕ) (acc : Str) → AllDigits acc → AllDigits (dec_digits fuel n acc)
unfolding dec_digits
dec_digits-AllDigits zero n acc h = h
dec_digits-AllDigits (suc fuel) n acc h = elim (Bool-cases (ltb n 10)) [
  | inl small ↦
      rw (small, dec_digits) (omega (arith, ltb→lt n 10 small), omega (arith, ltb→lt n 10 small), h)
  | inr large ↦
      rw (large, dec_digits)
        (dec_digits-AllDigits fuel (n / 10) ((b'0' + n % 10) ∷ acc) (omega arith, omega arith, h))
]

pub to_string-AllDigits : (n : ℕ) → AllDigits (to_string n)
unfolding to_string
to_string-AllDigits n = dec_digits-AllDigits 20 n [] tt

dec_digits_cons : (fuel n c : ℕ) (acc : Str) → 0 < length (dec_digits fuel n (c ∷ acc))
unfolding dec_digits
dec_digits_cons zero n c acc = omega arith
dec_digits_cons (suc fuel) n c acc = elim (Bool-cases (ltb n 10)) [
  | inl small ↦ rw (small, dec_digits) (omega arith)
  | inr large ↦ rw (large, dec_digits) (dec_digits_cons fuel (n / 10) (b'0' + n % 10) (c ∷ acc))
]

pub to_string-length_pos : (n : ℕ) → 0 < length (to_string n)
unfolding to_string dec_digits
to_string-length_pos n = elim (Bool-cases (ltb n 10)) [
  | inl small ↦ rw (small, dec_digits) (omega arith)
  | inr large ↦ rw (large, dec_digits) (dec_digits_cons 19 (n / 10) (b'0' + n % 10) [])
]
