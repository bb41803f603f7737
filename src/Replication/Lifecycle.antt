-- ===== src/Replication/Lifecycle.antt =====
-- Enterprise/Replication/DC2DCReplicator.{h,cpp}: prepare, start, stop and the threads' end, over the
-- checkpoint. A running or finished thread that is not joined is the index of its shard.
pub mod Restart
mod Examples
use open_arango_dbcore.Prelude.{
  ℕ, zero, suc, ◌*◌, Bool, true, false, ◌&&◌, not, Option, none, some, List, [], ◌∷◌, ◌++◌,
  if◌then◌else◌,
}
use open_arango_dbcore.Replication.Sequence.{
  SequenceNumberGenerator, new_generator, SequenceNumberTracker, new_tracker,
}
use open_arango_dbcore.Replication.Checkpoint.{
  CheckpointError, CheckpointResult, success, failure, Disk, Faults, save, load,
}
use open_arango_dbcore.Replication.Lag.{ReplicationLagMonitor}
use open_arango_dbcore.Replication.Replicator.{Dc2DcOptions}

pub record Dc2DcReplicator : Type 0 where
  pub options : Dc2DcOptions
  pub generator : SequenceNumberGenerator
  pub tracker : SequenceNumberTracker
  pub lag_monitor : ReplicationLagMonitor
  pub prepared : Bool
  pub wal_tailing_configured : Bool
  pub number_of_shards : ℕ
  pub tailing : Bool
  pub tail_threads : List ℕ

unfoldable pub prepare : Dc2DcReplicator → Dc2DcReplicator
prepare r = record r {
  generator = new_generator;
  tracker = new_tracker;
  lag_monitor = record {
    lag_threshold_micros = r.options.lag_tolerance_sec * 1000000;
    last_timestamps = [];
  };
  prepared = true;
}

unfoldable pub configure_wal_tailing : ℕ → Dc2DcReplicator → Dc2DcReplicator
configure_wal_tailing number_of_shards r = record r {
  number_of_shards = number_of_shards;
  wal_tailing_configured = true;
}

-- How start ends: a vector that still holds a joinable thread terminates the process when cleared.
pub data Started : Type 0 where
  started not_prepared terminated : Started
  checkpoint_not_loaded : CheckpointError → Started

unfoldable pub threads_from : ℕ → ℕ → List ℕ
threads_from i zero = []
threads_from i (suc count) = i ∷ threads_from (suc i) count

-- From the clearing of the threads on.
unfoldable pub start_tailing : Dc2DcReplicator → Dc2DcReplicator × Started
unfolding threads_from
start_tailing r = elim r.tail_threads [
  | [] ↦ (record r { tailing = true; tail_threads = threads_from 0 r.number_of_shards }, started)
  | i ∷ rest ↦ (record r { tailing = true }, terminated)
]

unfoldable pub start : Dc2DcReplicator → Bool → Disk → Option (Dc2DcReplicator × Started)
unfolding load start_tailing
start r opens disk =
    if not r.prepared then some (r, not_prepared) else elim (load r.tracker opens disk) [
      | none ↦ none
      | some (tracker, failure e) ↦ some (record r { tracker = tracker }, checkpoint_not_loaded e)
      | some (tracker, success) ↦
          if r.wal_tailing_configured && not r.tailing
          then some (start_tailing (record r { tracker = tracker }))
          else some (record r { tracker = tracker }, started)
    ]

unfoldable pub stop : Dc2DcReplicator → Faults → Disk → Dc2DcReplicator × Disk
unfolding save
stop r faults disk =
    if not r.prepared
    then (r, disk)
    else (record r { tailing = false }, (save r.tracker faults disk).0)

unfoldable pub join_tail_threads : Dc2DcReplicator → Dc2DcReplicator
join_tail_threads r = record r { tail_threads = [] }

unfoldable pub destroy : Dc2DcReplicator → Dc2DcReplicator
unfolding join_tail_threads
destroy r = join_tail_threads (record r { tailing = false })

unfoldable pub is_tailing : Dc2DcReplicator → Bool
is_tailing r = r.tailing
