-- ===== src/Replication/Lifecycle/Restart.antt =====
-- What a restart of the replicator finds.
use open_arango_dbcore.Prelude.{
  ℕ, ◌≡◌, refl, ap, ◌∙◌, Bool, true, false, ◌&&◌, not, Option, none, some, List, [], ◌∷◌,
  if◌then◌else◌, Str, str_key, find, inl, inr, Bool-cases,
}
use open_arango_dbcore.Replication.Sequence.{SequenceNumberTracker}
use open_arango_dbcore.Replication.Checkpoint.{
  CheckpointResult, success, failure, Disk, Faults, save, load,
}
use open_arango_dbcore.Replication.Checkpoint.RoundTrip.{Storable, load-save}
use open_arango_dbcore.Replication.Lifecycle.{
  Dc2DcReplicator, prepare, Started, started, terminated, not_prepared, checkpoint_not_loaded,
  threads_from, start_tailing, start, stop,
}

-- start, by what it tests and loads.
abbrev tailing_from : Dc2DcReplicator → List ℕ → Dc2DcReplicator × Started
tailing_from r threads = elim threads [
  | [] ↦ (record r { tailing = true; tail_threads = threads_from 0 r.number_of_shards }, started)
  | i ∷ rest ↦ (record r { tailing = true }, terminated)
]

abbrev started_from :
    Dc2DcReplicator
    → Bool
    → Option (SequenceNumberTracker × CheckpointResult)
    → Bool
    → List ℕ
    → Option (Dc2DcReplicator × Started)
started_from r prepared loaded tails threads =
    if not prepared then some (r, not_prepared) else elim loaded [
      | none ↦ none
      | some (tracker, failure e) ↦ some (record r { tracker = tracker }, checkpoint_not_loaded e)
      | some (tracker, success) ↦
          if tails
          then some (tailing_from (record r { tracker = tracker }) threads)
          else some (record r { tracker = tracker }, started)
    ]

start_by :
    (r : Dc2DcReplicator) (opens : Bool) (disk : Disk)
    → start r opens disk
      ≡ started_from r r.prepared
          (load r.tracker opens disk)
          (r.wal_tailing_configured && not r.tailing)
          r.tail_threads
unfolding start start_tailing
start_by r opens disk = refl

-- A replicator whose threads have been joined starts from whatever its checkpoint gives.
start_loads :
    (r : Dc2DcReplicator) (opens : Bool) (disk : Disk) (restored : SequenceNumberTracker)
    → r.prepared ≡ true
    → r.tail_threads ≡ []
    → load r.tracker opens disk ≡ some (restored, success)
    → (r' : Dc2DcReplicator) × (start r opens disk ≡ some (r', started)) × (r'.tracker ≡ restored)
start_loads r opens disk restored ready joined loaded =
    elim (Bool-cases (r.wal_tailing_configured && not r.tailing)) [
      | inl tails ↦ (
        record r {
          tracker = restored;
          tailing = true;
          tail_threads = threads_from 0 r.number_of_shards;
        },
        start_by r opens disk ∙ (λ i. started_from r (ready i) (loaded i) (tails i) (joined i)),
        refl,
      )
      | inr quiet ↦ (
        record r { tracker = restored },
        start_by r opens disk ∙ (λ i. started_from r (ready i) (loaded i) (quiet i) (joined i)),
        refl,
      )
    ]

stop_saves :
    (r : Dc2DcReplicator) (faults : Faults) (disk : Disk)
    → r.prepared ≡ true
    → (stop r faults disk).1 ≡ (save r.tracker faults disk).0
unfolding stop
stop_saves r faults disk ready = rw (ready, stop) (refl)

stop_ends :
    (r : Dc2DcReplicator) (faults : Faults) (disk : Disk)
    → r.prepared ≡ true
    → (stop r faults disk).0 ≡ record r { tailing = false }
unfolding stop
stop_ends r faults disk ready =
    let stopped : Bool → Dc2DcReplicator × Disk = λ prepared.
      if not prepared
      then (r, disk)
      else (record r { tailing = false }, (save r.tracker faults disk).0) in
    λ i. (stopped (ready i)).0

-- A restart resumes where the stop left off: if a prepared replicator's shard names have no quote and
-- its numbers are 64-bit ones, and the save at its stop succeeds, then a new replicator that is
-- prepared, has no thread left over and opens the file starts, and its tracker has the same last
-- sequence for every shard.
pub start-stop :
    (r fresh : Dc2DcReplicator) (faults : Faults) (disk : Disk)
    → r.prepared ≡ true
    → Storable r.tracker.last_applied
    → (save r.tracker faults disk).1 ≡ success
    → fresh.tail_threads ≡ []
    → (r' : Dc2DcReplicator) × (start (prepare fresh) true (stop r faults disk).1
        ≡ some (r', started))
      × ((shard : Str) → find shard r'.tracker.last_applied ≡ find shard r.tracker.last_applied)
unfolding prepare
start-stop r fresh faults disk ready plain saved joined =
    let (restored, loaded, same) =
      load-save r.tracker (prepare fresh).tracker faults disk plain saved in
    let on_disk : (stop r faults disk).1 ≡ (save r.tracker faults disk).0 =
      stop_saves r faults disk ready in
    let (r', began, kept) =
      start_loads (prepare fresh) true (stop r faults disk).1 restored refl joined
        (ap (load (prepare fresh).tracker true) on_disk ∙ loaded) in
    (
      r',
      began,
      λ shard. ap (λ (t : SequenceNumberTracker). find shard t.last_applied) kept ∙ same shard,
    )

-- Starting again after a stop kills the process: with the tailing configured and at least one shard
-- thread started before, which stop does not join, a second start whose checkpoint loads ends in
-- std::terminate.
pub start-stop_terminates :
    (r : Dc2DcReplicator) (faults : Faults) (opens : Bool) (disk : Disk) (i : ℕ) (rest : List ℕ)
    (restored : SequenceNumberTracker)
    → r.prepared ≡ true
    → r.wal_tailing_configured ≡ true
    → r.tail_threads ≡ i ∷ rest
    → load r.tracker opens (stop r faults disk).1 ≡ some (restored, success)
    → (r' : Dc2DcReplicator) × (start (stop r faults disk).0 opens (stop r faults disk).1
        ≡ some (r', terminated))
start-stop_terminates r faults opens disk i rest restored ready configured unjoined loaded =
    let stopped : Dc2DcReplicator = record r { tailing = false } in
    (
      record stopped { tracker = restored; tailing = true },
      ap (λ (s : Dc2DcReplicator). start s opens (stop r faults disk).1)
            (stop_ends r faults disk ready)
          ∙ start_by stopped opens (stop r faults disk).1
          ∙ (λ j. started_from stopped (ready j) (loaded j) (configured j && true) (unjoined j)),
    )
