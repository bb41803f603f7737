-- ===== src/Cluster/Satellites/Registry.antt =====
-- The registry of SatelliteDistribution.cpp is a set: each operation changes one name's membership.
use open_arango_dbcore.Prelude.{
  ◌≡◌, ◌≤◌, refl, true, false, List, [], ◌∷◌, if◌then◌else◌, Str, str_eq, str_eq_iff, str_key,
  count, arith,
}
use open_arango_dbcore.Cluster.Satellites.{
  SatelliteCollectionRegistry, is_satellite_collection, register_satellite, unregister_satellite,
  remove, clear, new_registry,
}

-- No element stands twice.
abbrev pub NoRepeat : SatelliteCollectionRegistry → Type 0
NoRepeat r = (name : Str) → count name r.satellites ≤ 1

count-remove :
    (name other : Str) (s : List Str)
    → count other (remove name s) ≡ (if str_eq name other then 0 else count other s)
unfolding count remove
count-remove name other [] = ground arith
count-remove name other (x ∷ s) =
    ground (
      arith,
      str_eq_iff x name,
      str_eq_iff x other,
      str_eq_iff name other,
      count-remove name other s,
    )

-- Registering a name, taking one out and clearing change the membership of that name, or of all,
-- and of no other.
pub registry_membership :
    (r : SatelliteCollectionRegistry) (name other : Str)
    → (is_satellite_collection (register_satellite r name) other
        ≡ (if str_eq name other then true else is_satellite_collection r other))
      × (is_satellite_collection (unregister_satellite r name) other
          ≡ (if str_eq name other then false else is_satellite_collection r other))
      × (is_satellite_collection (clear r) other ≡ false)
unfolding is_satellite_collection register_satellite unregister_satellite clear count
registry_membership r name other = (
  ground (arith, str_eq_iff name other),
  ground (arith, str_eq_iff name other, count-remove name other r.satellites),
  refl,
)

-- The registry starts with no name twice, and every operation keeps it so.
pub registry-NoRepeat :
    NoRepeat new_registry
    × ((r : SatelliteCollectionRegistry) (name : Str)
        → NoRepeat r
        → NoRepeat (register_satellite r name)
          × NoRepeat (unregister_satellite r name)
          × NoRepeat (clear r))
unfolding register_satellite unregister_satellite clear count
registry-NoRepeat = (
  λ name. omega arith,
  λ r name once. (
    λ other. ground (arith, str_eq_iff name other, once other, once name),
    λ other. ground (arith, count-remove name other r.satellites, once other),
    λ other. omega arith,
  ),
)
