-- ===== src/Cluster/Satellites.antt =====
-- Enterprise/Cluster/SatelliteDistribution.{h,cpp}: the registry of satellite collections and the
-- one shard that each of them has.
pub mod Registry
pub mod Assignment
pub mod SmartToSat
mod Examples
use open_arango_dbcore.Prelude.{
  ℕ, zero, suc, ◌+◌, ◌-◌, List, [], ◌∷◌, ◌++◌, Option, none, some, Bool, true, false, not, ltb,
  ◌==◌, if◌then◌else◌, Str, str_eq, str_key, count, find_char, take, to_string, length, get_or,
}

-- '/', between the collection and the key of a document's id
abbrev pub slash : ℕ
slash = b'/'

pub record SatelliteShardAssignment : Type 0 where
  pub shard_id : Str
  pub leader : Str
  pub followers : List Str

-- std::unordered_set: a list with no element twice
pub record SatelliteCollectionRegistry : Type 0 where
  pub satellites : List Str

abbrev pub new_registry : SatelliteCollectionRegistry
new_registry = record { satellites = [] }

unfoldable pub is_satellite_collection : SatelliteCollectionRegistry → Str → Bool
is_satellite_collection r name = ltb 0 (count name r.satellites)

unfoldable pub register_satellite : SatelliteCollectionRegistry → Str → SatelliteCollectionRegistry
register_satellite r name =
    if ltb 0 (count name r.satellites) then r else record { satellites = name ∷ r.satellites }

unfoldable pub remove : Str → List Str → List Str
remove name [] = []
remove name (s ∷ rest) =
    let others = remove name rest in if str_eq s name then others else s ∷ others

unfoldable pub unregister_satellite :
    SatelliteCollectionRegistry → Str → SatelliteCollectionRegistry
unregister_satellite r name = record { satellites = remove name r.satellites }

unfoldable pub clear : SatelliteCollectionRegistry → SatelliteCollectionRegistry
clear r = record { satellites = [] }

abbrev pub satellite_replication_factor : ℕ
satellite_replication_factor = 0

abbrev pub satellite_number_of_shards : ℕ
satellite_number_of_shards = 1

unfoldable pub is_satellite : ℕ → Bool
is_satellite replication_factor = replication_factor == satellite_replication_factor

unfoldable pub effective_write_concern : ℕ → ℕ
effective_write_concern number_of_db_servers = number_of_db_servers

-- for (i = 1; i < size; ++i) followers.push_back(dbServers[i]); the first argument counts down
-- from size - i.
unfoldable pub followers_loop : ℕ → ℕ → List Str → List Str → List Str
followers_loop zero i servers followers = followers
followers_loop (suc left) i servers followers =
    followers_loop left (suc i) servers (followers ++ get_or servers i [] ∷ [])

unfoldable pub assign_shards : List Str → Str → ℕ → SatelliteShardAssignment
assign_shards [] shard_prefix shard_number = record {
  shard_id = shard_prefix ++ to_string shard_number;
  leader = [];
  followers = [];
}
assign_shards (first ∷ rest) shard_prefix shard_number = record {
  shard_id = shard_prefix ++ to_string shard_number;
  leader = get_or (first ∷ rest) 0 [];
  followers = followers_loop (length (first ∷ rest) - 1) 1 (first ∷ rest) [];
}

unfoldable pub xor : Bool → Bool → Bool
xor true b = not b
xor false b = b

unfoldable pub is_smart_to_sat_edge : Str → Str → SatelliteCollectionRegistry → Bool
is_smart_to_sat_edge from_collection to_collection registry =
    xor (is_satellite_collection registry from_collection)
      (is_satellite_collection registry to_collection)

unfoldable pub extract_collection_name : Str → Str
extract_collection_name document_id = elim (find_char slash document_id) [
  | none ↦ document_id
  | some pos ↦ take pos document_id
]
