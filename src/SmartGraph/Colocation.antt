-- ===== src/SmartGraph/Colocation.antt =====
-- The validation of edges (SmartGraphSchema.cpp) against the sharding of keys
-- (ShardingStrategyEE.cpp): what a disjoint graph's accepted edges join.
use open_arango_dbcore.Prelude.{
  ℕ, ◌≡◌, refl, sym, ap, ◌∙◌, true, false, inl, inr, [], ◌∷◌, ◌++◌, Str, Lacks, find_char-Lacks,
}
use open_arango_dbcore.Sharding.{
  colon, extract_smart_prefix, compute_shard_index, ShardingStrategy, hash_smart_edge,
  hex_smart_vertex, smart_edge_compat, get_responsible_shard,
}
use open_arango_dbcore.SmartGraph.{
  success, validate_edge, is_satellite_side, StrSet, extract_prefix_from_key_or_handle,
  extract_smart_value, build_smart_key, build_smart_edge_key, slash,
}
use open_arango_dbcore.SmartGraph.Keys.{
  extract_smart_value-append, extract_smart_prefix-append, key_part-append,
}
use open_arango_dbcore.SmartGraph.Validation.{validate_edge_iff}

get_responsible_shard_value :
    (strategy : ShardingStrategy) (key : Str) (shards : ℕ)
    → get_responsible_shard strategy key shards
      ≡ compute_shard_index (extract_smart_prefix key) shards
unfolding get_responsible_shard
get_responsible_shard_value hash_smart_edge key shards = refl
get_responsible_shard_value hex_smart_vertex key shards = refl
get_responsible_shard_value smart_edge_compat key shards = refl

prefix_of_handle :
    (coll v local : Str)
    → Lacks slash coll
    → Lacks colon v
    → extract_prefix_from_key_or_handle (coll ++ slash ∷ build_smart_key v local) ≡ v
unfolding extract_prefix_from_key_or_handle build_smart_key
prefix_of_handle coll v local no_slash no_colon =
    rw (key_part-append coll (v ++ colon ∷ local) no_slash)
      (extract_smart_value-append v local no_colon)

vertex_shard :
    (s : ShardingStrategy) (v local : Str) (shards : ℕ)
    → Lacks colon v
    → get_responsible_shard s (build_smart_key v local) shards ≡ compute_shard_index v shards
unfolding build_smart_key
vertex_shard s v local shards h =
    rw
      (
        get_responsible_shard_value s (v ++ colon ∷ local) shards,
        extract_smart_prefix-append v local h,
      )
      refl

edge_shard :
    (s : ShardingStrategy) (v w edge : Str) (shards : ℕ)
    → Lacks colon v
    → get_responsible_shard s (build_smart_edge_key v w edge) shards ≡ compute_shard_index v shards
unfolding build_smart_edge_key
edge_shard s v w edge shards h =
    rw
      (
        get_responsible_shard_value s (v ++ colon ∷ (w ++ colon ∷ edge)) shards,
        extract_smart_prefix-append v (w ++ colon ∷ edge) h,
      )
      refl

-- In a disjoint graph, an accepted edge between two vertices with smart keys, neither of them in
-- a satellite collection, joins vertices of one shard, and the edge itself, by its own key, is on
-- that shard too, whichever strategies the three collections use. The collections' names have no
-- '/' and the smart values no ':'.
pub validate_edge_colocates :
    (from_coll v from_local to_coll w to_local edge : Str) (satellites : StrSet)
    (s t u : ShardingStrategy) (shards : ℕ)
    → Lacks slash from_coll
    → Lacks colon v
    → Lacks slash to_coll
    → Lacks colon w
    → is_satellite_side satellites (from_coll ++ slash ∷ build_smart_key v from_local) ≡ false
    → is_satellite_side satellites (to_coll ++ slash ∷ build_smart_key w to_local) ≡ false
    → validate_edge
        (from_coll ++ slash ∷ build_smart_key v from_local)
        (to_coll ++ slash ∷ build_smart_key w to_local)
        true
        satellites
      ≡ success
    → (get_responsible_shard s (build_smart_key v from_local) shards
        ≡ get_responsible_shard t (build_smart_key w to_local) shards)
      × (get_responsible_shard u (build_smart_edge_key v w edge) shards
          ≡ get_responsible_shard s (build_smart_key v from_local) shards)
validate_edge_colocates from_coll v from_local to_coll w to_local edge satellites s t u shards
      no_slash no_colon no_slash_to no_colon_to plain plain_to accepted =
    let same : v ≡ w =
      elim ((validate_edge_iff (from_coll ++ slash ∷ build_smart_key v from_local)
          (to_coll ++ slash ∷ build_smart_key w to_local) true satellites).0
        accepted) [
          | inl h ↦ cc
          | inr (inl h) ↦ cc
          | inr (inr (inl h)) ↦ cc
          | inr (inr (inr h)) ↦
              sym (prefix_of_handle from_coll v from_local no_slash no_colon)
              ∙ h
              ∙ prefix_of_handle to_coll w to_local no_slash_to no_colon_to
        ] in
    (
      vertex_shard s v from_local shards no_colon
          ∙ ap (λ p. compute_shard_index p shards) same
          ∙ sym (vertex_shard t w to_local shards no_colon_to),
      edge_shard u v w edge shards no_colon ∙ sym (vertex_shard s v from_local shards no_colon),
    )

no_prefix : (key : Str) → Lacks colon key → extract_smart_value key ≡ []
unfolding extract_smart_value
no_prefix key h = rw (extract_smart_value, find_char-Lacks colon key h) refl

-- Vertices whose keys have no ':' all pass for one partition: a disjoint graph accepts any edge
-- between two of them, in collections without '/' in their names, while the sharding hashes the
-- whole of each key.
pub validate_edge_without_prefix :
    (from_coll a to_coll b : Str) (satellites : StrSet) (s : ShardingStrategy) (shards : ℕ)
    → Lacks slash from_coll
    → Lacks colon a
    → Lacks slash to_coll
    → Lacks colon b
    → (validate_edge (from_coll ++ slash ∷ a) (to_coll ++ slash ∷ b) true satellites ≡ success)
      × (get_responsible_shard s a shards ≡ compute_shard_index a shards)
      × (get_responsible_shard s b shards ≡ compute_shard_index b shards)
unfolding extract_prefix_from_key_or_handle extract_smart_value extract_smart_prefix
validate_edge_without_prefix from_coll a to_coll b satellites s shards no_slash no_colon no_slash_to
      no_colon_to =
    (
      (validate_edge_iff (from_coll ++ slash ∷ a) (to_coll ++ slash ∷ b) true satellites).1 (
          inr (
            inr (
              inr (
                rw
                  (
                    key_part-append from_coll a no_slash,
                    key_part-append to_coll b no_slash_to,
                    no_prefix a no_colon,
                    no_prefix b no_colon_to,
                  )
                  refl)))),
      rw (get_responsible_shard_value, extract_smart_prefix, find_char-Lacks colon a no_colon) refl,
      rw (get_responsible_shard_value, extract_smart_prefix, find_char-Lacks colon b no_colon_to)
          refl,
    )
