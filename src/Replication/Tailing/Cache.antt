-- ===== src/Replication/Tailing/Cache.antt =====
-- The look-ups of ShardWALTailer.cpp: the cache never changes the answer, and one pass of the loop.
use open_arango_dbcore.Prelude.{
  ℕ, ◌≡◌, refl, sym, ◌∙◌, Bool, false, ◌&&◌, not, none, some, inl, inr, ltb, if◌then◌else◌, Str,
  str_key, str_eq, str_eq_iff, Map, find, insert, find-insert, Bool-cases, Option-cases,
}
use open_arango_dbcore.Cluster.Satellites.{is_satellite}
use open_arango_dbcore.Replication.Tailing.{
  WalEntry, WalIterator, CollectionReplicationInfo, Resolver, ShardWalTailer, is_satellite_entry,
  belongs_to_shard, poll_step,
}

-- The cache holds answers of the resolver.
abbrev pub Cached : Resolver → Map Str CollectionReplicationInfo → Type 0
Cached resolver cache =
    (name : Str) (info : CollectionReplicationInfo)
    → find name cache ≡ some info
    → resolver name ≡ some info

-- The collection is known, and its replication factor is the satellites'.
unfoldable pub of_satellite : Resolver → WalEntry → Bool
of_satellite resolver e = elim (resolver e.collection_name) [
  | none ↦ false
  | some info ↦ is_satellite info.replication_factor
]

insert-Cached :
    (resolver : Resolver) (cache : Map Str CollectionReplicationInfo) (name : Str)
    (info : CollectionReplicationInfo)
    → resolver name ≡ some info
    → Cached resolver cache
    → Cached resolver (insert name info cache)
insert-Cached resolver cache name info resolved cached other held h =
    elim (Bool-cases (str_eq name other)) [
      | inl same ↦
          let here : some held ≡ some info =
            sym h ∙ find-insert name other info cache ∙ rw same refl in
          let at : name ≡ other = (str_eq_iff name other).0 same in rw (sym at, here) resolved
      | inr differ ↦
          cached other held (sym (find-insert name other info cache ∙ rw differ refl) ∙ h)
    ]

pub is_satellite_entry-Cached :
    (resolver : Resolver) (cache : Map Str CollectionReplicationInfo) (e : WalEntry)
    → Cached resolver cache
    → ((is_satellite_entry resolver cache e).1 ≡ of_satellite resolver e)
      × Cached resolver (is_satellite_entry resolver cache e).0
unfolding is_satellite_entry of_satellite
is_satellite_entry-Cached resolver cache e cached =
    elim (Option-cases (find e.collection_name cache)) [
      | inr (info, hit) ↦
          rw (hit, is_satellite_entry)
            (rw (cached e.collection_name info hit, of_satellite) refl, cached)
      | inl miss ↦ elim (Option-cases (resolver e.collection_name)) [
        | inl unknown ↦ rw (miss, is_satellite_entry) (rw (unknown, of_satellite) (refl, cached))
        | inr (info, resolved) ↦
            rw (miss, is_satellite_entry)
              (rw (resolved, of_satellite)
                (refl, insert-Cached resolver cache e.collection_name info resolved cached))
      ]
    ]

-- An entry that the tailer yields.
unfoldable pub wanted : Resolver → ℕ → ℕ → WalEntry → Bool
wanted resolver shard_index number_of_shards e =
    not (of_satellite resolver e) && belongs_to_shard shard_index number_of_shards e

-- The sequence number that it remembers after the entry.
unfoldable pub advance : Bool → ℕ → WalEntry → ℕ
advance yielded last e =
    if yielded
    then e.sequence_number
    else if ltb last e.sequence_number
    then e.sequence_number
    else last

module _ {I : Type 0} (wal : WalIterator I) (resolver : Resolver) where
  pub poll_step-wanted :
      (t : ShardWalTailer I) (e : WalEntry)
      → wal.entry t.iterator ≡ e
      → Cached resolver t.info_cache
      → ((poll_step wal resolver t).1
          ≡ (if wanted resolver t.shard_index t.number_of_shards e then some e else none))
        × ((poll_step wal resolver t).0.last_processed_seq
            ≡ advance (wanted resolver t.shard_index t.number_of_shards e) t.last_processed_seq e)
        × ((poll_step wal resolver t).0.iterator ≡ wal.next t.iterator)
        × ((poll_step wal resolver t).0.shard_index ≡ t.shard_index)
        × ((poll_step wal resolver t).0.number_of_shards ≡ t.number_of_shards)
        × Cached resolver (poll_step wal resolver t).0.info_cache
  unfolding poll_step wanted advance
  poll_step-wanted t e here cached =
      let first = is_satellite_entry-Cached resolver t.info_cache e cached in
      let again =
        is_satellite_entry-Cached resolver (is_satellite_entry resolver t.info_cache e).0 e
          first.1 in
      elim (Bool-cases
        (not (of_satellite resolver e) && belongs_to_shard t.shard_index t.number_of_shards e)) [
          | inl yielded ↦ rw (here, first.0, yielded) (refl, refl, refl, refl, refl, first.1)
          | inr skipped ↦ rw (here, first.0, skipped) (refl, refl, refl, refl, refl, again.1)
        ]

  pub poll_step-stopped : (t : ShardWalTailer I) → (poll_step wal resolver t).0.stopped ≡ t.stopped
  unfolding poll_step
  poll_step-stopped t =
      elim (Bool-cases (
        not (is_satellite_entry resolver t.info_cache (wal.entry t.iterator)).1
        && belongs_to_shard t.shard_index t.number_of_shards (wal.entry t.iterator))) [
          | inl yielded ↦ rw yielded refl
          | inr skipped ↦ rw skipped refl
        ]
