-- ===== src/MinHash.antt =====
-- Enterprise/Aql/MinHashFunctions.{h,cpp}: MinHash signatures of sets of strings. `& p` keeps the
-- low 61 bits of its operand, since p is 2^61 - 1; the similarity is kept as the pair of numbers
-- whose quotient the source returns as a double.
pub mod Arithmetic
pub mod Signature
mod Examples
use open_arango_dbcore.Prelude.{
  ℕ, zero, suc, ◌+◌, ◌-◌, ◌*◌, ◌/◌, ◌%◌, Bool, true, false, ◌||◌, not, Option, none, some, List, [],
  ◌∷◌, ◌++◌, ltb, leb, ◌==◌, if◌then◌else◌, length, replicate, map, Str, bit_xor, u64_mod,
}

abbrev pub two_61 : ℕ
two_61 = 2305843009213693952

-- 2^61 - 1
abbrev pub min_hash_prime : ℕ
min_hash_prime = 2305843009213693951

abbrev pub u128_mod : ℕ
u128_mod = 340282366920938463463374607431768211456

-- std::numeric_limits<uint64_t>::max()
abbrev pub u64_max : ℕ
u64_max = 18446744073709551615

pub record PermutationSeed : Type 0 where
  pub a : ℕ
  pub b : ℕ

unfoldable pub base_hash_loop : ℕ → Str → ℕ
base_hash_loop hash [] = hash
base_hash_loop hash (c ∷ rest) = base_hash_loop ((bit_xor hash c * 1099511628211) % u64_mod) rest

unfoldable pub base_hash : Str → ℕ → ℕ
base_hash element seed = base_hash_loop (bit_xor 14695981039346656037 seed) element

-- The last line of both reductions.
unfoldable pub subtract_prime : ℕ → ℕ
subtract_prime val = if leb min_hash_prime val then val - min_hash_prime else val

unfoldable pub mulmod : ℕ → ℕ → ℕ
mulmod a b =
    let result : ℕ = (a * b) % u128_mod in
    let lo : ℕ = (result % u64_mod) % two_61 in
    let hi : ℕ = (result / two_61) % u64_mod in subtract_prime ((lo + hi) % u64_mod)

unfoldable pub reduce_mod : ℕ → ℕ
reduce_mod x =
    let lo : ℕ = x % two_61 in let hi : ℕ = x / two_61 in subtract_prime ((lo + hi) % u64_mod)

unfoldable pub permutation_hash : ℕ → PermutationSeed → ℕ
permutation_hash x seed =
    let xr : ℕ = reduce_mod x in
    let ax : ℕ = mulmod seed.a xr in subtract_prime ((ax + seed.b) % u64_mod)

-- The bytes of a uint32_t in memory, the low one first.
unfoldable pub bytes_of : ℕ → Str
bytes_of i = i % 256 ∷ (i / 256) % 256 ∷ (i / 65536) % 256 ∷ (i / 16777216) % 256 ∷ []

unfoldable pub permutation_seed : ℕ → ℕ → PermutationSeed
permutation_seed i master_seed = record {
  a = base_hash (bytes_of i) master_seed % (min_hash_prime - 1) + 1;
  b = base_hash (bytes_of i) (bit_xor master_seed 3735928559) % min_hash_prime;
}

-- The first argument counts down from k - i.
unfoldable pub seeds_loop : ℕ → ℕ → ℕ → List PermutationSeed → List PermutationSeed
seeds_loop zero i master_seed seeds = seeds
seeds_loop (suc left) i master_seed seeds =
    seeds_loop left (suc i) master_seed (seeds ++ permutation_seed i master_seed ∷ [])

unfoldable pub generate_permutation_seeds : ℕ → ℕ → List PermutationSeed
generate_permutation_seeds k master_seed = seeds_loop k 0 master_seed []

pub record MinHashGenerator : Type 0 where
  pub seeds : List PermutationSeed
  pub minimums : List ℕ

abbrev pub new_generator : List PermutationSeed → MinHashGenerator
new_generator seeds = record { seeds = seeds; minimums = replicate (length seeds) u64_max }

-- The loop over the seeds and, beside them, the minimums.
unfoldable pub update_minimums : ℕ → List PermutationSeed → List ℕ → List ℕ
update_minimums h [] minimums = minimums
update_minimums h (seed ∷ seeds) [] = []
update_minimums h (seed ∷ seeds) (m ∷ minimums) =
    let ph : ℕ = permutation_hash h seed in
    (if ltb ph m then ph else m) ∷ update_minimums h seeds minimums

unfoldable pub add_element : MinHashGenerator → Str → MinHashGenerator
add_element g element = record g {
  minimums = update_minimums (base_hash element 0) g.seeds g.minimums;
}

unfoldable pub finalize : MinHashGenerator → List ℕ
finalize g = g.minimums

unfoldable pub reset : MinHashGenerator → MinHashGenerator
reset g = record g { minimums = map (λ m. u64_max) g.minimums }

unfoldable pub matches_loop : List ℕ → List ℕ → ℕ
matches_loop [] other = 0
matches_loop (x ∷ sig) [] = 0
matches_loop (x ∷ sig) (y ∷ other) =
    if x == y then suc (matches_loop sig other) else matches_loop sig other

-- `none` is 0.0 of signatures that cannot be compared; else matches over size.
unfoldable pub estimate_jaccard : List ℕ → List ℕ → Option (ℕ × ℕ)
estimate_jaccard sig1 sig2 =
    if not (length sig1 == length sig2) || length sig1 == 0
    then none
    else some (matches_loop sig1 sig2, length sig1)
