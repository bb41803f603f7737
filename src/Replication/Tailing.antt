-- ===== src/Replication/Tailing.antt =====
-- Enterprise/Replication/ShardWALTailer.{h,cpp} and IWALIterator.h: one shard's entries of a
-- write-ahead log. The iterator is an interface of the source, so it is a parameter, a record of
-- its operations; so is the callback that looks a collection up. `_stopped` is set by another
-- thread: the value that each pass of the loop reads is given by a function of the pass.
pub mod Cache
pub mod Polling
pub mod Resume
mod Examples
use open_arango_dbcore.Prelude.{
  ℕ, zero, suc, ◌+◌, ◌-◌, ◌≡◌, Bool, true, false, ◌&&◌, not, Option, none, some, List, [], ◌∷◌,
  ◌++◌, ltb, leb, ◌==◌, if◌then◌else◌, length, Str, str_key, Map, find, insert,
}
use open_arango_dbcore.Sharding.{compute_shard_index}
use open_arango_dbcore.Cluster.Satellites.{is_satellite}
use open_arango_dbcore.Replication.Sequence.{Operation}

pub record WalEntry : Type 0 where
  pub sequence_number : ℕ
  pub timestamp : ℕ
  pub collection_name : Str
  pub document_key : Str
  pub operation : Operation
  pub payload : Str

-- IWALIterator, on an iterator state I
pub record WalIterator (I : Type 0) : Type 0 where
  pub valid : I → Bool
  pub entry : I → WalEntry
  pub next : I → I
  pub seek : I → ℕ → I

pub record CollectionReplicationInfo : Type 0 where
  pub replication_factor : ℕ
  pub number_of_shards : ℕ

abbrev pub Resolver : Type 0
Resolver = Str → Option CollectionReplicationInfo

pub record ShardWalTailer (I : Type 0) : Type 0 where
  pub shard_index : ℕ
  pub number_of_shards : ℕ
  pub iterator : I
  pub stopped : Bool
  pub last_processed_seq : ℕ
  pub info_cache : Map Str CollectionReplicationInfo

abbrev pub new_tailer : {I : Type 0} → ℕ → ℕ → I → ShardWalTailer I
new_tailer shard_index number_of_shards iterator = record {
  shard_index = shard_index;
  number_of_shards = number_of_shards;
  iterator = iterator;
  stopped = false;
  last_processed_seq = 0;
  info_cache = [];
}

unfoldable pub belongs_to_shard : ℕ → ℕ → WalEntry → Bool
belongs_to_shard shard_index number_of_shards e =
    if leb number_of_shards 1
    then true
    else compute_shard_index e.document_key number_of_shards == shard_index

-- The cache, and whether the entry's collection is a satellite.
unfoldable pub is_satellite_entry :
    Resolver
    → Map Str CollectionReplicationInfo
    → WalEntry
    → Map Str CollectionReplicationInfo × Bool
is_satellite_entry resolver cache e = elim (find e.collection_name cache) [
  | some info ↦ (cache, is_satellite info.replication_factor)
  | none ↦ elim (resolver e.collection_name) [
    | none ↦ (cache, false)
    | some info ↦ (insert e.collection_name info cache, is_satellite info.replication_factor)
  ]
]

module _ {I : Type 0} (wal : WalIterator I) (resolver : Resolver) where
  -- The body of the loop: the tailer, and the entry if it is one of the result. The test of the
  -- second branch looks the collection up again.
  unfoldable pub poll_step : ShardWalTailer I → ShardWalTailer I × Option WalEntry
  poll_step t =
      let current : WalEntry = wal.entry t.iterator in
      let (cache, satellite) = is_satellite_entry resolver t.info_cache current in
      if not satellite && belongs_to_shard t.shard_index t.number_of_shards current
      then (
        record t {
          info_cache = cache;
          last_processed_seq = current.sequence_number;
          iterator = wal.next t.iterator;
        },
        some current,
      )
      else let (cache_again, still) = is_satellite_entry resolver cache current in
        (
          record t {
            info_cache = cache_again;
            last_processed_seq =
                if ltb t.last_processed_seq current.sequence_number
                then current.sequence_number
                else t.last_processed_seq;
            iterator = wal.next t.iterator;
          },
          none,
        )

  -- `stops k` is what pass k reads from `_stopped`; `result` is what is yielded so far.
  unfoldable pub poll_loop :
      ℕ → (ℕ → Bool) → ℕ → ℕ → ShardWalTailer I → List WalEntry → ShardWalTailer I × List WalEntry
  poll_loop zero stops k max_entries t result = (t, result)
  poll_loop (suc fuel) stops k max_entries t result =
      elim (wal.valid t.iterator && not (stops k) && ltb (length result) max_entries) [
        | false ↦ (t, result)
        | true ↦
            let (examined, yielded) = poll_step t in
            elim yielded [
              | some current ↦
                  poll_loop fuel stops (suc k) max_entries examined (result ++ current ∷ [])
              | none ↦ poll_loop fuel stops (suc k) max_entries examined result
            ]
      ]

  unfoldable pub poll : ℕ → (ℕ → Bool) → ℕ → ShardWalTailer I → ShardWalTailer I × List WalEntry
  poll fuel stops max_entries t = poll_loop fuel stops 0 max_entries t []

  unfoldable pub seek_to : ℕ → ShardWalTailer I → ShardWalTailer I
  seek_to sequence_number t = record t {
    iterator = wal.seek t.iterator sequence_number;
    last_processed_seq = if ltb 0 sequence_number then sequence_number - 1 else 0;
  }

unfoldable pub stop : {I : Type 0} → ShardWalTailer I → ShardWalTailer I
stop t = record t { stopped = true }

-- The iterator stands before these entries, and has no more.
pub data Reads {I : Type 0} (wal : WalIterator I) : I → List WalEntry → Type 0 where
  at_end : (it : I) → wal.valid it ≡ false → Reads wal it []
  at_entry :
      (it : I) (e : WalEntry) (log : List WalEntry)
      → wal.valid it ≡ true
      → wal.entry it ≡ e
      → Reads wal (wal.next it) log
      → Reads wal it (e ∷ log)
