-- ===== src/Maskings/Email.antt =====
-- The address that EmailMask::mask makes: its shape, and what it tells of the input.
use open_arango_dbcore.Prelude.{
  ℕ, ◌*◌, ◌/◌, ◌%◌, ◌<◌, ◌≡◌, ◌↔◌, ap, [], ◌∷◌, ◌++◌, get_or, Str, u32_mod, bit_xor, arith,
}
use open_arango_dbcore.Maskings.{fnv1a_loop, fnv1a, to_alpha, email_mask, invalid_domain}

fnv1a_loop-lt : (hash : ℕ) (s : Str) → hash < u32_mod → fnv1a_loop hash s < u32_mod
unfolding fnv1a_loop
fnv1a_loop-lt hash [] h = h
fnv1a_loop-lt hash (c ∷ rest) h =
    fnv1a_loop-lt ((bit_xor hash c * 16777619) % u32_mod) rest (omega arith)

fnv1a-lt : (s : Str) → fnv1a s < u32_mod
unfolding fnv1a
fnv1a-lt s = fnv1a_loop-lt 2166136261 s (omega arith)

-- The address of a hash.
abbrev address : ℕ → Str
address h =
    to_alpha h 4
    ++ b'.' ∷ (to_alpha (h / 256) 4 ++ b'@' ∷ (to_alpha (h / 65536) 4 ++ invalid_domain))

-- Four letters tell a number up to 26^4.
letters :
    (v w : ℕ)
    → v % 26 ≡ w % 26
    → v / 26 % 26 ≡ w / 26 % 26
    → v / 26 / 26 % 26 ≡ w / 26 / 26 % 26
    → v / 26 / 26 / 26 % 26 ≡ w / 26 / 26 / 26 % 26
    → v % 456976 ≡ w % 456976
letters v w a b c d = omega arith

-- Letter j of the address.
letter : (h g j : ℕ) → address h ≡ address g → get_or (address h) j 0 ≡ get_or (address g) j 0
letter h g j e = ap (λ (s : Str). get_or s j 0) e

first_part : (h g : ℕ) → address h ≡ address g → h % 456976 ≡ g % 456976
unfolding to_alpha
first_part h g e =
    letters h g (omega (arith, letter h g 0 e)) (omega (arith, letter h g 1 e))
      (omega (arith, letter h g 2 e)) (omega (arith, letter h g 3 e))

last_part : (h g : ℕ) → address h ≡ address g → h / 65536 % 456976 ≡ g / 65536 % 456976
unfolding to_alpha
last_part h g e =
    letters (h / 65536) (g / 65536) (omega (arith, letter h g 10 e))
      (omega (arith, letter h g 11 e)) (omega (arith, letter h g 12 e))
      (omega (arith, letter h g 13 e))

-- Two inputs get the same address exactly when they have the same 32-bit hash: the twelve letters
-- lose nothing of it.
pub email_mask-fnv1a : (s t : Str) → (email_mask s ≡ email_mask t) ↔ (fnv1a s ≡ fnv1a t)
unfolding email_mask
email_mask-fnv1a s t = (
  λ e. omega (
    arith,
    first_part (fnv1a s) (fnv1a t) e,
    last_part (fnv1a s) (fnv1a t) e,
    fnv1a-lt s,
    fnv1a-lt t,
  ),
  λ same. ap address same,
)
