-- ===== src/Sharding/Ranges.antt =====
-- The hash of ShardingStrategyEE.cpp stays in its word, and the shard it picks exists.
use open_arango_dbcore.Prelude.{ℕ, ◌<◌, ◌≡◌, [], ◌∷◌, ◌++◌, refl, Str, u32_mod, arith}
use open_arango_dbcore.Sharding.{
  fnv_step, fnv_loop, compute_shard_index, ShardingStrategy, hash_smart_edge, hex_smart_vertex,
  smart_edge_compat, get_responsible_shard,
}

pub fnv_loop-append : (h : ℕ) (s t : Str) → fnv_loop h (s ++ t) ≡ fnv_loop (fnv_loop h s) t
unfolding fnv_loop
fnv_loop-append h [] t = refl
fnv_loop-append h (c ∷ s) t = fnv_loop-append (fnv_step h c) s t

pub fnv_loop-lt : (h : ℕ) (s : Str) → h < u32_mod → fnv_loop h s < u32_mod
unfolding fnv_loop fnv_step
fnv_loop-lt h [] small = small
fnv_loop-lt h (c ∷ s) small = fnv_loop-lt (fnv_step h c) s (omega arith)

pub compute_shard_index-lt :
    (value : Str) (shards : ℕ) → 0 < shards → compute_shard_index value shards < shards
unfolding compute_shard_index
compute_shard_index-lt value shards some_shard = omega arith

pub get_responsible_shard-lt :
    (strategy : ShardingStrategy) (key : Str) (shards : ℕ)
    → 0 < shards
    → get_responsible_shard strategy key shards < shards
unfolding get_responsible_shard
get_responsible_shard-lt hash_smart_edge key shards h = compute_shard_index-lt _ shards h
get_responsible_shard-lt hex_smart_vertex key shards h = compute_shard_index-lt _ shards h
get_responsible_shard-lt smart_edge_compat key shards h = compute_shard_index-lt _ shards h
