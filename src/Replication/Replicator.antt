-- ===== src/Replication/Replicator.antt =====
-- Enterprise/Replication/DC2DCReplicator.{h,cpp}: the source's side of the replication. One thread
-- per shard polls the log, batches its entries and hands the batches to the transport; the options
-- are checked and the feature is prepared, started and stopped by the server.
pub mod Delivery
pub mod Options
mod Examples
use open_arango_dbcore.Prelude.{
  ℕ, zero, suc, ◌+◌, ◌-◌, Bool, true, false, ◌&&◌, not, Option, none, some, List, [], ◌∷◌, ◌++◌,
  ltb, leb, ◌==◌, if◌then◌else◌, length, Str, str_key, Map, find, to_string,
}
use open_arango_dbcore.Replication.Tailing.{
  WalEntry, WalIterator, Resolver, ShardWalTailer, poll, new_tailer,
}
use open_arango_dbcore.Replication.Batching.{
  Surroundings, MessageBatch, MessageBatcher, add, flush, new_batcher,
}
use open_arango_dbcore.Replication.Batching.Keeping.{batches}
use open_arango_dbcore.Replication.Lag.{ReplicationLagMonitor, record_entry}

pub record Dc2DcOptions : Type 0 where
  pub enabled : Bool
  pub target_cluster : Str
  pub lag_tolerance_sec : ℕ
  pub batch_size : ℕ
  pub thread_count : ℕ
  pub max_retries : ℕ
  pub checkpoint_interval_sec : ℕ
  pub checkpoint_path : Str

abbrev pub is_empty : Str → Bool
is_empty [] = true
is_empty (c ∷ rest) = false

unfoldable pub validate_options : Dc2DcOptions → Bool
validate_options o =
    if not o.enabled
    then true
    else if is_empty o.target_cluster
    then false
    else if o.batch_size == 0
    then false
    else if o.thread_count == 0
    then false
    else if o.checkpoint_interval_sec == 0
    then false
    else true

-- What the thread of one shard works on, and the batches it has handed to `onBatchReady`.
pub record ShardTail (I W : Type 0) : Type 0 where
  pub tailer : ShardWalTailer I
  pub batcher : MessageBatcher
  pub monitor : ReplicationLagMonitor
  pub world : W
  pub sent : List MessageBatch

-- "shard_" and the index
unfoldable pub shard_name : ℕ → Str
shard_name shard_index = b's' ∷ b'h' ∷ b'a' ∷ b'r' ∷ b'd' ∷ b'_' ∷ to_string shard_index

module _ {I W : Type 0} (wal : WalIterator I) (resolver : Resolver) (around : Surroundings W) where
  unfoldable pub entries_loop : Str → List WalEntry → ShardTail I W → ShardTail I W
  entries_loop shard_id [] s = s
  entries_loop shard_id (entry ∷ rest) s =
      let (world, batcher, msg) = add around s.world s.batcher entry in
      entries_loop shard_id rest (record s {
        monitor = record_entry s.monitor shard_id entry.timestamp;
        world = world;
        batcher = batcher;
        sent = s.sent ++ batches msg;
      })

  unfoldable pub flush_tail : ShardTail I W → ShardTail I W
  flush_tail s =
      let (world, batcher, partial) = flush around s.world s.batcher in
      record s { world = world; batcher = batcher; sent = s.sent ++ batches partial }

  -- The entries of one poll; if there are none, the partial batch is flushed.
  unfoldable pub handle_entries : Str → List WalEntry → ShardTail I W → ShardTail I W
  handle_entries shard_id [] s = flush_tail (entries_loop shard_id [] s)
  handle_entries shard_id (e ∷ rest) s = entries_loop shard_id (e ∷ rest) s

  -- One pass of the loop. Nothing stops the tailer from outside: `_tailers`, through which `stop`
  -- would, is never filled.
  unfoldable pub tail_pass : ℕ → Str → ℕ → ShardTail I W → ShardTail I W
  tail_pass fuel shard_id batch_size s =
      let (polled, entries) = poll wal resolver fuel (λ k. s.tailer.stopped) batch_size s.tailer in
      handle_entries shard_id entries (record s { tailer = polled })

  -- `_tailing` is read true `passes` times, and then false.
  unfoldable pub shard_tail_loop : ℕ → ℕ → Str → ℕ → ShardTail I W → ShardTail I W
  shard_tail_loop fuel zero shard_id batch_size s = flush_tail s
  shard_tail_loop fuel (suc passes) shard_id batch_size s =
      shard_tail_loop fuel passes shard_id batch_size (tail_pass fuel shard_id batch_size s)

  -- The thread's state at its start.
  abbrev pub start_tail : ℕ → ℕ → ℕ → I → ReplicationLagMonitor → W → ShardTail I W
  start_tail shard_index number_of_shards batch_size iterator monitor world = record {
    tailer = new_tailer shard_index number_of_shards iterator;
    batcher = new_batcher (shard_name shard_index) batch_size;
    monitor = monitor;
    world = world;
    sent = [];
  }
