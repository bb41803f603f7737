-- ===== src/SmartGraph/Examples.antt =====
-- Runs of the code modelled in SmartGraph.antt.
use open_arango_dbcore.Prelude.{
  ℕ, ◌≡◌, ◌≢◌, ◌↔◌, ◌⊎◌, ◌<◌, ◌==◌, refl, Bool, true, false, List, [], ◌∷◌, ◌++◌, Str, Lacks,
  length, drop, suc, arith,
}
use open_arango_dbcore.Sharding.{
  hash_smart_edge, hex_smart_vertex, get_responsible_shard, compute_shard_index, fnv_loop, fnv_step,
}
use open_arango_dbcore.SmartGraph.{
  success, error, prefix_mismatch, validate_document, validate_edge, is_satellite_side,
  extract_prefix_from_key_or_handle, extract_smart_value, build_smart_key, build_smart_edge_key,
  slash, parse_collection_name,
}
use open_arango_dbcore.SmartGraph.Colocation.{validate_edge_colocates}

abbrev europe : Str
europe = b'e' ∷ b'u' ∷ []

abbrev asia : Str
asia = b'a' ∷ b's' ∷ []

abbrev people : Str
people = b'p' ∷ []

abbrev alice : Str
alice = b'a' ∷ b'1' ∷ []

abbrev bob : Str
bob = b'b' ∷ b'2' ∷ []

document_is_accepted : validate_document (build_smart_key europe alice) europe [] ≡ success
unfolding validate_document build_smart_key open_arango_dbcore.Prelude.find_char
    open_arango_dbcore.Prelude.str_eq
document_is_accepted = refl

other_value_is_refused :
    validate_document (build_smart_key europe alice) asia [] ≡ error (prefix_mismatch europe asia)
unfolding validate_document build_smart_key open_arango_dbcore.Prelude.find_char
    open_arango_dbcore.Prelude.str_eq
other_value_is_refused = refl

no_satellite : is_satellite_side [] (people ++ slash ∷ build_smart_key europe alice) ≡ false
unfolding is_satellite_side parse_collection_name build_smart_key
    open_arango_dbcore.Prelude.find_char open_arango_dbcore.Prelude.count
no_satellite = refl

no_satellite_bob : is_satellite_side [] (people ++ slash ∷ build_smart_key europe bob) ≡ false
unfolding is_satellite_side parse_collection_name build_smart_key
    open_arango_dbcore.Prelude.find_char open_arango_dbcore.Prelude.count
no_satellite_bob = refl

edge_in_europe_is_accepted :
    validate_edge
      (people ++ slash ∷ build_smart_key europe alice)
      (people ++ slash ∷ build_smart_key europe bob)
      true
      []
    ≡ success
unfolding validate_edge build_smart_key is_satellite_side parse_collection_name
    open_arango_dbcore.Prelude.find_char open_arango_dbcore.Prelude.count
    open_arango_dbcore.Prelude.str_eq extract_prefix_from_key_or_handle extract_smart_value
    open_arango_dbcore.SmartGraph.key_part
edge_in_europe_is_accepted = refl

validate_edge_colocates_example :
    (get_responsible_shard hex_smart_vertex (build_smart_key europe alice) 7
      ≡ get_responsible_shard hex_smart_vertex (build_smart_key europe bob) 7)
    × (get_responsible_shard hash_smart_edge (build_smart_edge_key europe europe alice) 7
        ≡ get_responsible_shard hex_smart_vertex (build_smart_key europe alice) 7)
validate_edge_colocates_example =
    validate_edge_colocates people europe alice people europe bob alice [] hex_smart_vertex
      hex_smart_vertex hash_smart_edge 7 (refl, tt) (refl, (refl, tt)) (refl, tt) (refl, (refl, tt))
      no_satellite no_satellite_bob edge_in_europe_is_accepted

-- Two such keys that lie on different shards.
alice_and_bob_apart : (compute_shard_index alice 7 == compute_shard_index bob 7) ≡ false
unfolding compute_shard_index fnv_loop fnv_step
alice_and_bob_apart = refl
