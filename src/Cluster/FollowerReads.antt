-- ===== src/Cluster/FollowerReads.antt =====
-- Enterprise/Cluster/ReadFromFollower.{h,cpp}: reads that followers may serve. The round-robin
-- counter is a static atomic; one `fetch_add` is one step on it, so it is a state that the calls
-- pass on in the order of their steps.
pub mod RoundRobin
pub mod Routing
pub mod Headers
mod Examples
use open_arango_dbcore.Prelude.{
  ℕ, zero, suc, ◌+◌, ◌-◌, ◌%◌, List, [], ◌∷◌, Option, none, some, Bool, true, false, ◌&&◌, ltb, leb,
  ◌==◌, if◌then◌else◌, Str, str_eq, str_key, Map, find, insert, length, get_or, u64_mod, ℤ, lebℤ,
  pos,
}

pub data Mode : Type 0 where
  eventual bounded : Mode

-- Durations are signed numbers of milliseconds.
pub record StalenessConfig : Type 0 where
  pub mode : Mode
  pub max_staleness : ℤ

pub record ReplicaSelection : Type 0 where
  pub server_id : Str
  pub is_follower : Bool

-- std::tolower in the "C" locale
unfoldable pub to_lower : ℕ → ℕ
to_lower c = if leb b'A' c && leb c b'Z' then c + 32 else c

-- "x-arango-allow-dirty-read"
abbrev pub allow_dirty_read : Str
allow_dirty_read =
    b'x' ∷ b'-' ∷ b'a' ∷ b'r' ∷ b'a' ∷ b'n' ∷ b'g' ∷ b'o' ∷ b'-' ∷ b'a' ∷ b'l' ∷ b'l' ∷ b'o' ∷ b'w'
    ∷ b'-' ∷ b'd' ∷ b'i' ∷ b'r' ∷ b't' ∷ b'y' ∷ b'-' ∷ b'r' ∷ b'e' ∷ b'a' ∷ b'd' ∷ []

-- "x-arango-potential-dirty-read"
abbrev pub potential_dirty_read : Str
potential_dirty_read =
    b'x' ∷ b'-' ∷ b'a' ∷ b'r' ∷ b'a' ∷ b'n' ∷ b'g' ∷ b'o' ∷ b'-' ∷ b'p' ∷ b'o' ∷ b't' ∷ b'e' ∷ b'n'
    ∷ b't' ∷ b'i' ∷ b'a' ∷ b'l' ∷ b'-' ∷ b'd' ∷ b'i' ∷ b'r' ∷ b't' ∷ b'y' ∷ b'-' ∷ b'r' ∷ b'e'
    ∷ b'a' ∷ b'd' ∷ []

-- "true"
abbrev pub true_text : Str
true_text = b't' ∷ b'r' ∷ b'u' ∷ b'e' ∷ []

unfoldable pub is_dirty_read_allowed : Map Str Str → Bool
is_dirty_read_allowed headers = elim (find allow_dirty_read headers) [
  | none ↦ false
  | some val ↦
      if length val == 4
      then to_lower (get_or val 0 0) == b't'
        && (to_lower (get_or val 1 0) == b'r'
            && (to_lower (get_or val 2 0) == b'u' && to_lower (get_or val 3 0) == b'e'))
      else false
]

-- The counter's next value, and the selection.
unfoldable pub choose_replica : ℕ → Str → List Str → ℕ × ReplicaSelection
choose_replica counter leader [] = (counter, record { server_id = leader; is_follower = false })
choose_replica counter leader (f ∷ rest) =
    let followers : List Str = f ∷ rest in
    let total_replicas : ℕ = 1 + length followers in
    let index : ℕ = counter % total_replicas in
    (
      (counter + 1) % u64_mod,
      if index == 0
          then record { server_id = leader; is_follower = false }
          else record { server_id = get_or followers (index - 1) []; is_follower = true },
    )

unfoldable pub followers_of : Str → Map Str (List Str) → List Str
followers_of shard followers = elim (find shard followers) [ none ↦ [] | some servers ↦ servers ]

-- The loop over the shards; a set's shards come in some order.
unfoldable pub responsible_loop :
    List Str → ℕ → Map Str Str → Map Str Str → Map Str (List Str) → ℕ × Map Str Str
responsible_loop [] counter result leaders followers = (counter, result)
responsible_loop (shard ∷ shards) counter result leaders followers = elim (find shard leaders) [
  | none ↦ responsible_loop shards counter result leaders followers
  | some leader ↦
      let (next, selection) = choose_replica counter leader (followers_of shard followers) in
      responsible_loop shards next (insert shard selection.server_id result) leaders followers
]

-- `result` is cleared first, whatever it held.
unfoldable pub get_responsible_servers :
    List Str → ℕ → Map Str Str → Map Str Str → Map Str (List Str) → ℕ × Map Str Str
get_responsible_servers shards counter result leaders followers =
    responsible_loop shards counter [] leaders followers

unfoldable pub is_follower_eligible : ℤ → StalenessConfig → Bool
is_follower_eligible reported_lag config = elim config.mode [
  | eventual ↦ true
  | bounded ↦
      if lebℤ config.max_staleness (pos 0) && lebℤ (pos 0) config.max_staleness
      then false
      else lebℤ reported_lag config.max_staleness
]

unfoldable pub set_dirty_read_response_header : Map Str Str → Bool → Map Str Str
set_dirty_read_response_header headers follower_used =
    if follower_used then insert potential_dirty_read true_text headers else headers
