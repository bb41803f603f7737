-- ===== src/Cluster/Satellites/SmartToSat.antt =====
-- The registry of SatelliteDistribution.cpp against the edge validation of SmartGraphSchema.cpp,
-- which takes its satellite collections from it.
use open_arango_dbcore.Prelude.{
  ◌≡◌, ◌≢◌, refl, sym, ◌∙◌, Bool, true, inl, inr, [], ◌∷◌, ◌++◌, Str, str_key, Lacks,
  find_char-append, take-length, Bool-cases, arith,
}
use open_arango_dbcore.SmartGraph.{success, validate_edge, is_satellite_side}
use open_arango_dbcore.SmartGraph.Keys.{parse_collection_name-append}
use open_arango_dbcore.SmartGraph.Validation.{validate_edge_iff}
use open_arango_dbcore.Cluster.Satellites.{
  SatelliteCollectionRegistry, is_satellite_collection, is_smart_to_sat_edge,
  extract_collection_name, xor, slash,
}

extract_collection_name-append :
    (coll key : Str) → Lacks slash coll → extract_collection_name (coll ++ slash ∷ key) ≡ coll
unfolding extract_collection_name
extract_collection_name-append coll key h =
    rw (extract_collection_name, find_char-append slash coll key h, take-length coll (slash ∷ key))
      refl

satellite_side_of :
    (r : SatelliteCollectionRegistry) (coll key : Str)
    → coll ≢ []
    → Lacks slash coll
    → is_satellite_side r.satellites (coll ++ slash ∷ key) ≡ is_satellite_collection r coll
unfolding is_satellite_side is_satellite_collection
satellite_side_of r [] key named h = absurd (named refl)
satellite_side_of r (c ∷ coll) key named h =
    rw (is_satellite_side, parse_collection_name-append (c ∷ coll) key h) refl

-- An edge that the registry finds to lead between a smart and a satellite collection passes the
-- validation of edges, disjoint graph or not, whatever its keys. The collections' names are not
-- empty and have no '/'.
pub is_smart_to_sat_edge_validates :
    (r : SatelliteCollectionRegistry) (a key b other : Str) (disjoint : Bool)
    → a ≢ []
    → Lacks slash a
    → b ≢ []
    → Lacks slash b
    → is_smart_to_sat_edge
        (extract_collection_name (a ++ slash ∷ key))
        (extract_collection_name (b ++ slash ∷ other))
        r
      ≡ true
    → validate_edge (a ++ slash ∷ key) (b ++ slash ∷ other) disjoint r.satellites ≡ success
unfolding is_smart_to_sat_edge xor
is_smart_to_sat_edge_validates r a key b other disjoint named no_slash named_to no_slash_to h =
    let one_side : xor (is_satellite_collection r a) (is_satellite_collection r b) ≡ true =
      rw
        (
          sym (extract_collection_name-append a key no_slash),
          sym (extract_collection_name-append b other no_slash_to),
        )
        h in
    (validate_edge_iff (a ++ slash ∷ key) (b ++ slash ∷ other) disjoint r.satellites).1 (
      inr (elim (Bool-cases (is_satellite_collection r a)) [
        | inl member ↦ inl (satellite_side_of r a key named no_slash ∙ member)
        | inr other_side ↦
            inr (inl (satellite_side_of r b other named_to no_slash_to ∙ ground (arith, one_side)))
      ]))
