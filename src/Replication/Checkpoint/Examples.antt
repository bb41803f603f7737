-- ===== src/Replication/Checkpoint/Examples.antt =====
-- Tests of the checkpoint, and the theorems at a small tracker.
use open_arango_dbcore.Prelude.{
  ℕ, ◌≡◌, ◌≢◌, ◌⊎◌, refl, Bool, true, false, Option, none, some, List, [], ◌∷◌, Str, str_key, find,
  arith,
}
use open_arango_dbcore.Replication.Sequence.{SequenceNumberTracker, new_tracker, get_state}
use open_arango_dbcore.Replication.Checkpoint.{
  CheckpointError, no_shards_key, Disk, Faults, success, failure, refused, parsed, parse, render,
  save, load,
}
use open_arango_dbcore.Replication.Checkpoint.Parsing.{load_ends}
use open_arango_dbcore.Replication.Checkpoint.Saving.{save_replaces}
use open_arango_dbcore.Replication.Checkpoint.RoundTrip.{Storable, load-save}

abbrev tracker : SequenceNumberTracker
tracker = record { last_applied = (b's' ∷ b'1' ∷ [], 42) ∷ (b's' ∷ b':' ∷ b'}' ∷ [], 17) ∷ [] }

abbrev no_faults : Faults
no_faults = record { open_fails = false; write_fails = false; written = []; rename_fails = false }

abbrev old_disk : Disk
old_disk = record { checkpoint = some (b'x' ∷ []); temporary = none }

reread : parse (render tracker.last_applied) ≡ parsed tracker.last_applied
unfolding parse open_arango_dbcore.Prelude.find_str render open_arango_dbcore.Prelude.find_char
    open_arango_dbcore.Prelude.to_string open_arango_dbcore.Prelude.dec_digits
    open_arango_dbcore.Prelude.dec_value open_arango_dbcore.Prelude.insert
    open_arango_dbcore.Prelude.str_eq
reread = refl

empty_file : parse [] ≡ refused no_shards_key
unfolding parse open_arango_dbcore.Prelude.find_str
empty_file = refl

tracker-Storable : Storable tracker.last_applied
unfolding find open_arango_dbcore.Prelude.str_eq
tracker-Storable =
    ((refl, (refl, tt)), omega arith, refl, ((refl, (refl, (refl, tt))), omega arith, refl, tt))

load_ends_example : load tracker true old_disk ≢ none
load_ends_example = load_ends tracker true old_disk

save_replaces_example :
    (((save tracker no_faults old_disk).1 ≡ success)
      × ((save tracker no_faults old_disk).0
          ≡ record { checkpoint = some (render (get_state tracker)); temporary = none }))
    ⊎ ((e : CheckpointError) × ((save tracker no_faults old_disk).1 ≡ failure e)
        × ((save tracker no_faults old_disk).0.checkpoint ≡ old_disk.checkpoint))
save_replaces_example = save_replaces tracker no_faults old_disk

load-save_example :
    (restored : SequenceNumberTracker) × (load new_tracker true (save tracker no_faults old_disk).0
      ≡ some (restored, success))
    × ((shard : Str) → find shard restored.last_applied ≡ find shard tracker.last_applied)
unfolding save
load-save_example = load-save tracker new_tracker no_faults old_disk tracker-Storable refl
