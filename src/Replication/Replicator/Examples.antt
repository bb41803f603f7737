-- ===== src/Replication/Replicator/Examples.antt =====
-- Runs of the code modelled in Replicator.antt.
use open_arango_dbcore.Prelude.{
  ℕ, ◌+◌, ◌≤◌, ◌≡◌, ◌⊎◌, refl, Bool, true, false, none, List, [], ◌∷◌, take, drop, arith,
}
use open_arango_dbcore.Replication.Sequence.{insert_op}
use open_arango_dbcore.Replication.Tailing.{
  WalEntry, WalIterator, Resolver, Reads, at_end, at_entry,
}
use open_arango_dbcore.Replication.Tailing.Polling.{wanted_entries}
use open_arango_dbcore.Replication.Batching.{Surroundings}
use open_arango_dbcore.Replication.Batching.Keeping.{entries_of}
use open_arango_dbcore.Replication.Lag.{ReplicationLagMonitor}
use open_arango_dbcore.Replication.Replicator.{
  Dc2DcOptions, validate_options, shard_name, shard_tail_loop, start_tail,
}
use open_arango_dbcore.Replication.Replicator.Options.{shard_tail_loop-delivers}

abbrev options : Dc2DcOptions
options = record {
  enabled = true;
  target_cluster = b'h' ∷ [];
  lag_tolerance_sec = 30;
  batch_size = 2;
  thread_count = 4;
  max_retries = 5;
  checkpoint_interval_sec = 60;
  checkpoint_path = [];
}

abbrev entry_at : ℕ → WalEntry
entry_at n = record {
  sequence_number = n;
  timestamp = n;
  collection_name = [];
  document_key = [];
  operation = insert_op;
  payload = [];
}

abbrev some_left : List WalEntry → Bool
some_left [] = false
some_left (e ∷ log) = true

abbrev first_or_zero : List WalEntry → WalEntry
first_or_zero [] = entry_at 0
first_or_zero (e ∷ log) = e

-- An iterator that cannot go back.
abbrev list_wal : WalIterator (List WalEntry)
list_wal = record {
  valid = some_left;
  entry = first_or_zero;
  next = λ it. drop 1 it;
  seek = λ it target. it;
}

list_wal-Reads : (log : List WalEntry) → Reads list_wal log log
list_wal-Reads [] = at_end [] refl
list_wal-Reads (e ∷ log) = at_entry (e ∷ log) e log refl refl (list_wal-Reads log)

abbrev unknown : Resolver
unknown name = none

abbrev around : Surroundings ℕ
around = record { sequence_provider = λ w. (w + 1, w); now = λ w. (w, 0) }

abbrev monitor : ReplicationLagMonitor
monitor = record { lag_threshold_micros = 100; last_timestamps = [] }

abbrev wal_log : List WalEntry
wal_log = entry_at 1 ∷ entry_at 2 ∷ entry_at 3 ∷ []

options_are_valid : validate_options options ≡ true
unfolding validate_options
options_are_valid = refl

shard_tail_loop-delivers_example :
    (n : ℕ) × (n ≤ 3)
    × (entries_of
          (shard_tail_loop list_wal unknown around 3 3
            (shard_name 0)
            2
            (start_tail list_wal unknown around 0 1 2 wal_log monitor 1)).sent
        ≡ wanted_entries unknown 0 1 (take n wal_log))
    × ((n ≡ 3) ⊎ (3 ≤ n))
shard_tail_loop-delivers_example =
    shard_tail_loop-delivers list_wal unknown around options 3 3 0 1 wal_log monitor 1 wal_log
      options_are_valid refl (list_wal-Reads wal_log) (omega arith)
