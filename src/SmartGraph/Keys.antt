-- ===== src/SmartGraph/Keys.antt =====
-- The keys that SmartGraphSchema.cpp builds give their parts back.
use open_arango_dbcore.Prelude.{
  suc, ◌≡◌, refl, drop, length, drop-length-suc, ◌∷◌, ◌++◌, Str, Lacks, find_char-append,
  take-length,
}
use open_arango_dbcore.Sharding.{colon, extract_smart_prefix}
use open_arango_dbcore.SmartGraph.{
  extract_smart_value, build_smart_key, build_smart_edge_key, slash, key_part,
  parse_collection_name,
}

pub extract_smart_prefix-append :
    (v rest : Str) → Lacks colon v → extract_smart_prefix (v ++ colon ∷ rest) ≡ v
unfolding extract_smart_prefix
extract_smart_prefix-append v rest h =
    rw (extract_smart_prefix, find_char-append colon v rest h, take-length v (colon ∷ rest)) refl

pub extract_smart_value-append :
    (v rest : Str) → Lacks colon v → extract_smart_value (v ++ colon ∷ rest) ≡ v
unfolding extract_smart_value
extract_smart_value-append v rest h =
    rw (extract_smart_value, find_char-append colon v rest h, take-length v (colon ∷ rest)) refl

pub key_part-append : (coll key : Str) → Lacks slash coll → key_part (coll ++ slash ∷ key) ≡ key
unfolding key_part
key_part-append coll key h =
    rw (key_part, find_char-append slash coll key h, drop-length-suc slash coll key) refl

pub parse_collection_name-append :
    (coll key : Str) → Lacks slash coll → parse_collection_name (coll ++ slash ∷ key) ≡ coll
unfolding parse_collection_name
parse_collection_name-append coll key h =
    rw (parse_collection_name, find_char-append slash coll key h, take-length coll (slash ∷ key))
      refl

-- A vertex key built from a value without ':' gives its value back, to the validation and to the
-- sharding alike, and what follows its first ':' is the local key. So does an edge key, whose
-- rest gives the second value.
pub build_smart_key_reads_back :
    (v w local : Str)
    → Lacks colon v
    → Lacks colon w
    → (extract_smart_value (build_smart_key v local) ≡ v)
      × (extract_smart_prefix (build_smart_key v local) ≡ v)
      × (drop (suc (length v)) (build_smart_key v local) ≡ local)
      × (extract_smart_prefix (build_smart_edge_key v w local) ≡ v)
      × (drop (suc (length v)) (build_smart_edge_key v w local) ≡ build_smart_key w local)
unfolding build_smart_key build_smart_edge_key
build_smart_key_reads_back v w local hv hw = (
  extract_smart_value-append v local hv,
  extract_smart_prefix-append v local hv,
  drop-length-suc colon v local,
  extract_smart_prefix-append v (w ++ colon ∷ local) hv,
  drop-length-suc colon v (w ++ colon ∷ local),
)
