-- ===== src/Replication/Transport/Backoff.antt =====
-- The delays of ConnectionRetryPolicy.cpp.
use open_arango_dbcore.Prelude.{
  ℕ, ◌*◌, ◌%◌, ◌^◌, ◌≤◌, ◌<◌, ◌≡◌, refl, ap, min, true, some, ltb, u32_mod, u64_mod, arith,
}
use native.Mathlib.Nat.{mul-le-mul_left, pow-le-pow_right, mod-eq_of_lt}
use open_arango_dbcore.Replication.Transport.{ConnectionRetryPolicy, raw_delay}

-- Up to attempt 32 nothing is lost: the delay is the base delay, of 32 bits, times two to the
-- attempt, or the limit if that is less.
pub raw_delay-exact :
    (p : ConnectionRetryPolicy)
    → p.base_delay_ms < u32_mod
    → p.attempt ≤ 32
    → raw_delay p ≡ some (min (p.base_delay_ms * 2 ^ p.attempt) p.max_delay_ms)
unfolding raw_delay
raw_delay-exact p base early =
    let bound : p.base_delay_ms * 2 ^ p.attempt ≤ p.base_delay_ms * 2 ^ 32 =
      mul-le-mul_left p.base_delay_ms (pow-le-pow_right {n = 2} (omega arith) early) in
    let fits : (p.base_delay_ms * 2 ^ p.attempt) % u64_mod ≡ p.base_delay_ms * 2 ^ p.attempt =
      mod-eq_of_lt (omega (arith, bound, base)) in
    let defined : ltb p.attempt 64 ≡ true = ground (arith, early) in rw (defined, fits) refl

-- At attempt 62 a base delay that is a multiple of four is shifted out of its word: the delay is
-- zero, however large the limit.
pub raw_delay_collapses :
    (p : ConnectionRetryPolicy) (quarter : ℕ)
    → p.base_delay_ms ≡ 4 * quarter
    → p.attempt ≡ 62
    → raw_delay p ≡ some 0
unfolding raw_delay
raw_delay_collapses p quarter base late =
    let shifted : (4 * quarter * 2 ^ 62) % u64_mod ≡ 0 = omega arith in
    rw (late, base, shifted) (ap some (omega arith))
