-- ===== src/RocksDbEngine/Encryption/Counter.antt =====
-- The counter of a file offset (ctrTransform's loop): the bytes, read as a big-endian number, are
-- the sum of the initial counter and the block's index, modulo 2^128.
use open_arango_dbcore.Prelude.{
  ℕ, zero, suc, ◌+◌, ◌*◌, ◌/◌, ◌%◌, ◌≤◌, ◌<◌, ◌≡◌, refl, ap, ◌∙◌, inl, inr, length, get_or, set,
  Str, u64_mod, ◌==◌, Bool-cases, ==_iff, length-set, get_or-set_self, get_or-set_ne, arith,
}
use open_arango_dbcore.RocksDbEngine.Encryption.{
  block_size, AesctrCipherStream, add_carry, counter_at,
}

-- Every element is a byte.
abbrev pub IsBytes : Str → Type 0
IsBytes s = (j : ℕ) → get_or s j 0 < 256

-- The first bytes as a big-endian number, and the bound of such numbers.
unfoldable pub value_upto : ℕ → Str → ℕ
value_upto zero s = 0
value_upto (suc i) s = value_upto i s * 256 + get_or s i 0

unfoldable pub modulus : ℕ → ℕ
modulus zero = 1
modulus (suc i) = modulus i * 256

modulus_pos : (i : ℕ) → 0 < modulus i
unfolding modulus
modulus_pos zero = omega arith
modulus_pos (suc i) = omega (arith, modulus_pos i)

value_upto-lt : (i : ℕ) (s : Str) → IsBytes s → value_upto i s < modulus i
unfolding value_upto modulus
value_upto-lt zero s h = omega arith
value_upto-lt (suc i) s h = omega (arith, h i, value_upto-lt i s h)

value_upto-set : (i j : ℕ) (s : Str) (b : ℕ) → i ≤ j → value_upto i (set s j b) ≡ value_upto i s
unfolding value_upto
value_upto-set zero j s b h = omega arith
value_upto-set (suc i) j s b h = omega (
  arith,
  value_upto-set i j s b (omega arith),
  get_or-set_ne {A = ℕ} j i s b 0 (λ (e : j ≡ i). omega arith),
)

set-IsBytes : (i : ℕ) (s : Str) (b : ℕ) → i < length s → b < 256 → IsBytes s → IsBytes (set s i b)
set-IsBytes i s b short byte h j = elim (Bool-cases (i == j)) [
  | inl e ↦ let here : i ≡ j = (==_iff i j).0 e in rw (← here, get_or-set_self i s b 0 short) byte
  | inr n ↦ rw (get_or-set_ne i j s b 0 (ground arith)) (h j)
]

-- The bytes from the position on stay.
add_carry_after :
    (i j : ℕ) (s : Str) (carry : ℕ) → i ≤ j → get_or (add_carry i s carry) j 0 ≡ get_or s j 0
unfolding add_carry
add_carry_after zero j s carry h = refl
add_carry_after (suc i) j s carry h =
    let sum : ℕ = (get_or s i 0 + carry % 256) % u64_mod in
    ground (
      arith,
      add_carry_after i j (set s i (sum % 256)) ((carry / 256 + sum / 256) % u64_mod) (omega arith),
      get_or-set_ne {A = ℕ} i j s (sum % 256) 0 (λ (e : i ≡ j). omega arith),
    )

-- (x mod m) * 256 + r is x * 256 + r, modulo m * 256.
scale_mod : (x m r : ℕ) → 0 < m → r < 256 → (x % m) * 256 + r ≡ (x * 256 + r) % (m * 256)
scale_mod x m r h k = grind arith

-- The sum, modulo the bound.
pub add_carry_value :
    (i : ℕ) (s : Str) (carry : ℕ)
    → i ≤ length s
    → IsBytes s
    → carry < u64_mod
    → value_upto i (add_carry i s carry) ≡ (value_upto i s + carry) % modulus i
unfolding add_carry value_upto modulus
add_carry_value zero s carry h bytes c = omega arith
add_carry_value (suc i) s carry h bytes c = elim (Bool-cases (carry == 0)) [
  | inl stop ↦
      let none_left : carry ≡ 0 = (==_iff carry 0).0 stop in
      rw stop (grind (arith, value_upto-lt (suc i) s bytes))
  | inr more ↦
      let sum : ℕ = (get_or s i 0 + carry % 256) % u64_mod in
      let byte : get_or s i 0 < 256 = bytes i in
      let s' : Str = set s i (sum % 256) in
      let carry' : ℕ = (carry / 256 + sum / 256) % u64_mod in
      let room : i ≤ length s' = omega (arith, length-set {A = ℕ} s i (sum % 256)) in
      let bytes' : IsBytes s' = set-IsBytes i s (sum % 256) (omega arith) (omega arith) bytes in
      let rest : value_upto i (add_carry i s' carry') ≡ (value_upto i s' + carry') % modulus i =
        add_carry_value i s' carry' room bytes' (omega arith) in
      let last : get_or (add_carry i s' carry') i 0 ≡ sum % 256 =
        add_carry_after i i s' carry' (omega arith)
        ∙ get_or-set_self i s (sum % 256) 0 (omega arith) in
      let total : (value_upto i s' + carry') * 256 + sum % 256
          ≡ value_upto i s * 256 + get_or s i 0 + carry =
        omega (arith, value_upto-set i i s (sum % 256) (omega arith)) in
      rw (more, rest, last)
        (scale_mod (value_upto i s' + carry') (modulus i) (sum % 256) (modulus_pos i) (omega arith)
          ∙ ap (λ (t : ℕ). t % (modulus i * 256)) total)
]

-- A stream with a 16-byte counter, as its constructor makes it.
pub record IsReady (s : AesctrCipherStream) : Type 0 where
  pub block : length s.iv ≡ block_size
  pub bytes : IsBytes s.iv

-- 2^128
abbrev pub counter_mod : ℕ
counter_mod = 340282366920938463463374607431768211456

modulus_sixteen :
    (s : AesctrCipherStream) (file_offset : ℕ)
    → (value_upto 16 s.iv + file_offset / 16) % modulus 16
      ≡ (value_upto 16 s.iv + file_offset / 16) % counter_mod
unfolding modulus
modulus_sixteen s file_offset = refl

-- The counter at a file offset is the initial one plus the number of whole 16-byte blocks before
-- the offset, modulo 2^128, for any stream with a 16-byte counter and any 64-bit offset.
pub counter_at_value :
    (s : AesctrCipherStream) (file_offset : ℕ)
    → IsReady s
    → file_offset < u64_mod
    → value_upto 16 (counter_at s file_offset)
      ≡ (value_upto 16 s.iv + file_offset / 16) % counter_mod
unfolding counter_at
counter_at_value s file_offset ready h =
    add_carry_value 16 s.iv (file_offset / 16) (omega (arith, ready.block)) ready.bytes
      (omega arith)
    ∙ modulus_sixteen s file_offset
