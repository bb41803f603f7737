-- ===== src/Cluster/Satellites/Assignment.antt =====
-- The one shard of a satellite collection (SatelliteDistribution.cpp: assignShards) is on every
-- server of the cluster.
use open_arango_dbcore.Prelude.{
  ℕ, zero, suc, ◌+◌, ◌-◌, ◌<◌, ◌≡◌, ◌≢◌, refl, sym, ap, ◌∙◌, List, [], ◌∷◌, ◌++◌, Str, length, drop,
  get_or, drop-get_or, drop_all, append_assoc, append_nil, drop-length, to_string,
  to_string-injective, pow10, arith,
}
use open_arango_dbcore.Cluster.Satellites.{assign_shards, followers_loop, effective_write_concern}

followers_loop-drop :
    (left i : ℕ) (servers acc : List Str)
    → left + i ≡ length servers
    → followers_loop left i servers acc ≡ acc ++ drop i servers
unfolding followers_loop
followers_loop-drop zero i servers acc h =
    rw (drop_all i servers (omega (arith, h))) (sym (append_nil acc))
followers_loop-drop (suc left) i servers acc h =
    followers_loop-drop left (suc i) servers (acc ++ get_or servers i [] ∷ []) (omega (arith, h))
    ∙ append_assoc acc (get_or servers i [] ∷ []) (drop (suc i) servers)
    ∙ ap (λ t. acc ++ t) (sym (drop-get_or i servers [] (omega (arith, h))))

-- In a cluster with servers, the leader and the followers are those servers, each once and in
-- their order, as many as the effective write concern asks to acknowledge.
pub assign_shards_covers :
    (servers : List Str) (shard_prefix : Str) (number : ℕ)
    → servers ≢ []
    → ((assign_shards servers shard_prefix number).leader
          ∷ (assign_shards servers shard_prefix number).followers
        ≡ servers)
      × (length (
            (assign_shards servers shard_prefix number).leader
            ∷ (assign_shards servers shard_prefix number).followers)
          ≡ effective_write_concern (length servers))
unfolding assign_shards effective_write_concern
assign_shards_covers [] shard_prefix number some_server = absurd (some_server refl)
assign_shards_covers (first ∷ rest) shard_prefix number some_server =
    let all : first ∷ followers_loop (suc (length rest) - 1) 1 (first ∷ rest) [] ≡ first ∷ rest =
      ap (◌∷◌ first)
        (followers_loop-drop (suc (length rest) - 1) 1 (first ∷ rest) [] (omega arith)) in
    (all, ap length all)

shard_id_of :
    (servers : List Str) (shard_prefix : Str) (n : ℕ)
    → (assign_shards servers shard_prefix n).shard_id ≡ shard_prefix ++ to_string n
unfolding assign_shards
shard_id_of [] shard_prefix n = refl
shard_id_of (first ∷ rest) shard_prefix n = refl

-- Two shards of one prefix have the same id only if they have the same number.
pub assign_shards_distinct :
    (servers others : List Str) (shard_prefix : Str) (n m : ℕ)
    → n < pow10 20
    → m < pow10 20
    → (assign_shards servers shard_prefix n).shard_id
      ≡ (assign_shards others shard_prefix m).shard_id
    → n ≡ m
assign_shards_distinct servers others shard_prefix n m hn hm e = to_string-injective n m hn hm (
    sym (drop-length shard_prefix (to_string n))
    ∙ ap (drop (length shard_prefix))
        (sym (shard_id_of servers shard_prefix n) ∙ e ∙ shard_id_of others shard_prefix m)
    ∙ drop-length shard_prefix (to_string m))
