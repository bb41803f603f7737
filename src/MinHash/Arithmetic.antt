-- ===== src/MinHash/Arithmetic.antt =====
-- The reductions of MinHashFunctions.cpp are remainders modulo the prime.
use open_arango_dbcore.Prelude.{
  ℕ, ◌+◌, ◌*◌, ◌/◌, ◌%◌, ◌≤◌, ◌<◌, ◌≡◌, sym, ap, ◌∙◌, inl, inr, leb, leb→le, Bool-cases, u64_mod,
  arith,
}
use native.Mathlib.Nat.{
  mul-le-mul, mod-eq_of_lt, add-mul-mod_self_right, mod-add-mod, mul-add, mul_assoc,
}
use open_arango_dbcore.MinHash.{
  two_61, min_hash_prime, u128_mod, subtract_prime, mulmod, reduce_mod, permutation_hash,
  PermutationSeed,
}

-- Below twice the prime, the conditional subtraction is the remainder.
subtract_prime-mod :
    (val : ℕ) → val < 2 * min_hash_prime → subtract_prime val ≡ val % min_hash_prime
unfolding subtract_prime
subtract_prime-mod val h = elim (Bool-cases (leb min_hash_prime val)) [
  | inl large ↦ rw (large, subtract_prime) (omega (arith, h, leb→le min_hash_prime val large))
  | inr small ↦ rw (small, subtract_prime) (sym (mod-eq_of_lt (ground (arith, small))))
]

-- 2^61 is one more than the prime, so the upper part counts like the lower.
folded : (x : ℕ) → (x % two_61 + x / two_61) % min_hash_prime ≡ x % min_hash_prime
folded x = omega arith

pub reduce_mod-mod : (x : ℕ) → x < u64_mod → reduce_mod x ≡ x % min_hash_prime
unfolding reduce_mod
reduce_mod-mod x h =
    let whole : (x % two_61 + x / two_61) % u64_mod ≡ x % two_61 + x / two_61 = omega (arith, h) in
    ap subtract_prime whole
    ∙ subtract_prime-mod (x % two_61 + x / two_61) (omega (arith, h))
    ∙ folded x

pub mulmod-mod :
    (a b : ℕ) → a < min_hash_prime → b < min_hash_prime → mulmod a b ≡ (a * b) % min_hash_prime
unfolding mulmod
mulmod-mod a b ha hb =
    let prod : ℕ = a * b in
    let bound : prod ≤ min_hash_prime * min_hash_prime =
      mul-le-mul {n₂ = min_hash_prime} {m₂ = min_hash_prime} (omega (arith, ha))
        (omega (arith, hb)) in
    let fits : prod % u128_mod ≡ prod = omega (arith, bound) in
    let low : (prod % u64_mod) % two_61 ≡ prod % two_61 = omega arith in
    let high : (prod / two_61) % u64_mod ≡ prod / two_61 = omega (arith, bound) in
    let whole : (prod % two_61 + prod / two_61) % u64_mod ≡ prod % two_61 + prod / two_61 =
      omega (arith, bound) in
    rw (fits, low, high, whole)
      (subtract_prime-mod (prod % two_61 + prod / two_61) (omega (arith, bound)) ∙ folded prod)

mod_inside : (a x : ℕ) → (a * (x % min_hash_prime)) % min_hash_prime ≡ (a * x) % min_hash_prime
mod_inside a x =
    let q : ℕ = x / min_hash_prime in
    let r : ℕ = x % min_hash_prime in
    let split : x ≡ r + q * min_hash_prime = omega arith in
    let multiplied : a * x ≡ a * r + a * q * min_hash_prime =
      ap (λ n. a * n) split
      ∙ mul-add a r (q * min_hash_prime)
      ∙ ap (λ n. a * r + n) (sym (mul_assoc a q min_hash_prime)) in
    sym (
      ap (λ n. n % min_hash_prime) multiplied
      ∙ add-mul-mod_self_right (a * r) (a * q) min_hash_prime)

-- With a seed below the prime, the permutation hash of a 64-bit number is (a * x + b) modulo the
-- prime, though the source never divides.
pub permutation_hash_linear :
    (x : ℕ) (seed : PermutationSeed)
    → x < u64_mod
    → seed.a < min_hash_prime
    → seed.b < min_hash_prime
    → permutation_hash x seed ≡ (seed.a * x + seed.b) % min_hash_prime
unfolding permutation_hash
permutation_hash_linear x seed small ha hb =
    let p : ℕ = min_hash_prime in
    let reduced : reduce_mod x ≡ x % p = reduce_mod-mod x small in
    let times : mulmod seed.a (reduce_mod x) ≡ (seed.a * x) % p =
      ap (mulmod seed.a) reduced
      ∙ mulmod-mod seed.a (x % p) ha (omega arith)
      ∙ mod_inside seed.a x in
    let sum : ℕ = (seed.a * x) % p + seed.b in
    let below : sum % u64_mod ≡ sum = omega (arith, hb) in
    rw (times, below)
      (subtract_prime-mod sum (omega (arith, hb)) ∙ mod-add-mod (seed.a * x) p seed.b)
