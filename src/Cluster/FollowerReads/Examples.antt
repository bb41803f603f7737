-- ===== src/Cluster/FollowerReads/Examples.antt =====
-- Runs of the code modelled in FollowerReads.antt.
use open_arango_dbcore.Prelude.{
  ℕ, ◌+◌, ◌%◌, ◌<◌, ◌≡◌, ◌↔◌, refl, Bool, true, false, List, [], ◌∷◌, ◌++◌, map, Option, none, some,
  Str, str_key, Map, find, length, take, drop, count, ltb, arith,
}
use open_arango_dbcore.Cluster.FollowerReads.{
  choose_replica, get_responsible_servers, is_dirty_read_allowed, allow_dirty_read, to_lower,
}
use open_arango_dbcore.Cluster.FollowerReads.RoundRobin.{picks, choose_replica_rotates}
use open_arango_dbcore.Cluster.FollowerReads.Routing.{Route, get_responsible_servers_routes}

abbrev server_a : Str
server_a = b'a' ∷ []

abbrev server_b : Str
server_b = b'b' ∷ []

abbrev server_c : Str
server_c = b'c' ∷ []

abbrev shard_one : Str
shard_one = b's' ∷ b'1' ∷ []

choose_replica_rotates_example :
    picks 3 7 server_a (server_b ∷ server_c ∷ [])
    ≡ drop (7 % 3) (server_a ∷ server_b ∷ server_c ∷ [])
      ++ take (7 % 3) (server_a ∷ server_b ∷ server_c ∷ [])
choose_replica_rotates_example =
    choose_replica_rotates 7 server_a (server_b ∷ server_c ∷ []) (omega arith)

three_calls : picks 3 7 server_a (server_b ∷ server_c ∷ []) ≡ server_b ∷ server_c ∷ server_a ∷ []
unfolding picks choose_replica
three_calls = refl

get_responsible_servers_routes_example :
    Route
      ((shard_one, server_a) ∷ [])
      ((shard_one, server_b ∷ []) ∷ [])
      shard_one
      (ltb 0 (count shard_one (shard_one ∷ [])))
      (find shard_one
        (get_responsible_servers
          (shard_one ∷ [])
          5
          []
          ((shard_one, server_a) ∷ [])
          ((shard_one, server_b ∷ []) ∷ [])).1)
get_responsible_servers_routes_example =
    get_responsible_servers_routes (shard_one ∷ []) 5 [] ((shard_one, server_a) ∷ [])
      ((shard_one, server_b ∷ []) ∷ []) shard_one

abbrev opted_in : Map Str Str
opted_in = (allow_dirty_read, b'T' ∷ b'r' ∷ b'U' ∷ b'e' ∷ []) ∷ []

opted_in_is_allowed : is_dirty_read_allowed opted_in ≡ true
unfolding is_dirty_read_allowed to_lower find open_arango_dbcore.Prelude.str_eq
opted_in_is_allowed = refl
