-- ===== src/Sharding.antt =====
-- Enterprise/Sharding/ShardingStrategyEE.{h,cpp}: the shard that holds a key of a SmartGraph
-- collection. A byte string is a list of numbers, and a byte is below 256.
pub mod Ranges
use open_arango_dbcore.Prelude.{
  ℕ, Bool, true, false, ◌*◌, ◌%◌, suc, List, [], ◌∷◌, Option, none, some, Str, find_char, take,
  drop, bit_xor, u32_mod,
}

-- ':'
abbrev pub colon : ℕ
colon = b':'

unfoldable pub extract_smart_prefix : Str → Str
extract_smart_prefix key = elim (find_char colon key) [ none ↦ key | some pos ↦ take pos key ]

abbrev pub fnv_offset_basis : ℕ
fnv_offset_basis = 2166136261

abbrev pub fnv_prime : ℕ
fnv_prime = 16777619

-- hash ^= c; hash *= prime, on uint32_t
unfoldable pub fnv_step : ℕ → ℕ → ℕ
fnv_step hash c = (bit_xor hash c * fnv_prime) % u32_mod

unfoldable pub fnv_loop : ℕ → Str → ℕ
fnv_loop hash [] = hash
fnv_loop hash (c ∷ rest) = fnv_loop (fnv_step hash c) rest

unfoldable pub compute_shard_index : Str → ℕ → ℕ
compute_shard_index value number_of_shards = fnv_loop fnv_offset_basis value % number_of_shards

-- The three strategies, one class each in the source.
pub data ShardingStrategy : Type 0 where
  hash_smart_edge hex_smart_vertex smart_edge_compat : ShardingStrategy

unfoldable pub uses_default_shard_keys : ShardingStrategy → Bool
uses_default_shard_keys hash_smart_edge = false
uses_default_shard_keys hex_smart_vertex = false
uses_default_shard_keys smart_edge_compat = false

unfoldable pub get_responsible_shard : ShardingStrategy → Str → ℕ → ℕ
get_responsible_shard hash_smart_edge key shards =
    compute_shard_index (extract_smart_prefix key) shards
get_responsible_shard hex_smart_vertex key shards =
    compute_shard_index (extract_smart_prefix key) shards
get_responsible_shard smart_edge_compat key shards =
    compute_shard_index (extract_smart_prefix key) shards
