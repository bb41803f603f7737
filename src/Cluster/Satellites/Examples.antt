-- ===== src/Cluster/Satellites/Examples.antt =====
-- Runs of the code modelled in Satellites.antt.
use open_arango_dbcore.Prelude.{
  ℕ, ◌<◌, ◌≡◌, ◌≢◌, refl, Bool, true, false, List, [], ◌∷◌, ◌++◌, Str, str_eq, if◌then◌else◌,
  length, Lacks, pow10, arith,
}
use open_arango_dbcore.Cluster.Satellites.{
  SatelliteCollectionRegistry, is_satellite_collection, is_smart_to_sat_edge,
  extract_collection_name, slash, xor,
}

abbrev towns : Str
towns = b't' ∷ []

abbrev people : Str
people = b'p' ∷ []

abbrev registry : SatelliteCollectionRegistry
registry = record { satellites = towns ∷ [] }

leads_to_satellite :
    is_smart_to_sat_edge
      (extract_collection_name (people ++ slash ∷ b'1' ∷ []))
      (extract_collection_name (towns ++ slash ∷ b'2' ∷ []))
      registry
    ≡ true
unfolding is_smart_to_sat_edge xor is_satellite_collection open_arango_dbcore.Prelude.count str_eq
    extract_collection_name open_arango_dbcore.Prelude.find_char
leads_to_satellite = refl
