-- ===== src/Replication/Lifecycle/Examples.antt =====
-- Tests of the replicator's life, and the theorems at a replicator of two shards.
use open_arango_dbcore.Prelude.{
  ℕ, ◌≡◌, refl, ap, Bool, true, false, Option, none, some, List, [], ◌∷◌, Str, str_key, find, ◌*◌,
  arith,
}
use open_arango_dbcore.Replication.Sequence.{SequenceNumberTracker, new_tracker, new_generator}
use open_arango_dbcore.Replication.Checkpoint.{success, Disk, Faults, save, load}
use open_arango_dbcore.Replication.Checkpoint.RoundTrip.{Storable, load-save}
use open_arango_dbcore.Replication.Replicator.{Dc2DcOptions}
use open_arango_dbcore.Replication.Lifecycle.{
  Dc2DcReplicator, prepare, started, terminated, not_prepared, configure_wal_tailing, start, stop,
  destroy, is_tailing,
}
use open_arango_dbcore.Replication.Lifecycle.Restart.{start-stop, start-stop_terminates}

abbrev options : Dc2DcOptions
options = record {
  enabled = true;
  target_cluster = b't' ∷ [];
  lag_tolerance_sec = 30;
  batch_size = 10;
  thread_count = 2;
  max_retries = 5;
  checkpoint_interval_sec = 60;
  checkpoint_path = b'p' ∷ [];
}

abbrev tracker : SequenceNumberTracker
tracker = record { last_applied = (b's' ∷ b'0' ∷ [], 42) ∷ [] }

abbrev created : Dc2DcReplicator
created = record {
  options = options;
  generator = new_generator;
  tracker = new_tracker;
  lag_monitor = record { lag_threshold_micros = 30000000; last_timestamps = [] };
  prepared = false;
  wal_tailing_configured = false;
  number_of_shards = 0;
  tailing = false;
  tail_threads = [];
}

abbrev running : Dc2DcReplicator
running = record created {
  tracker = tracker;
  prepared = true;
  wal_tailing_configured = true;
  number_of_shards = 2;
  tailing = true;
  tail_threads = 0 ∷ 1 ∷ [];
}

abbrev no_faults : Faults
no_faults = record { open_fails = false; write_fails = false; written = []; rename_fails = false }

abbrev empty_disk : Disk
empty_disk = record { checkpoint = none; temporary = none }

tracker-Storable : Storable tracker.last_applied
unfolding find open_arango_dbcore.Prelude.str_eq
tracker-Storable = ((refl, (refl, tt)), omega arith, refl, tt)

start_unprepared : start created true empty_disk ≡ some (created, not_prepared)
unfolding start
start_unprepared = refl

start_two_shards :
    start (configure_wal_tailing 2 (prepare created)) true empty_disk
    ≡ some (
      record (configure_wal_tailing 2 (prepare created)) {
        tailing = true;
        tail_threads = 0 ∷ 1 ∷ [];
      },
      started,
    )
unfolding start configure_wal_tailing prepare
start_two_shards = refl

destroyed : is_tailing (destroy running) ≡ false
unfolding is_tailing destroy
destroyed = refl

start-stop_example :
    (r' : Dc2DcReplicator) × (start (prepare created) true (stop running no_faults empty_disk).1
      ≡ some (r', started))
    × ((shard : Str) → find shard r'.tracker.last_applied ≡ find shard running.tracker.last_applied)
unfolding save
start-stop_example = start-stop running created no_faults empty_disk refl tracker-Storable refl refl

restored_by_load :
    (restored : SequenceNumberTracker) × (load tracker true (stop running no_faults empty_disk).1
      ≡ some (restored, success))
unfolding save stop
restored_by_load =
    let (restored, loaded, same) =
      load-save tracker tracker no_faults empty_disk tracker-Storable refl in
    (restored, loaded)

start-stop_terminates_example :
    (r' : Dc2DcReplicator) × (start
        (stop running no_faults empty_disk).0
        true
        (stop running no_faults empty_disk).1
      ≡ some (r', terminated))
start-stop_terminates_example =
    start-stop_terminates running no_faults true empty_disk 0 (1 ∷ []) restored_by_load.0 refl refl
      refl restored_by_load.1
