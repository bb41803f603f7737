-- ===== src/Replication/Checkpoint/Saving.antt =====
-- A save that fails leaves the checkpoint file alone.
use open_arango_dbcore.Prelude.{◌≡◌, ◌⊎◌, refl, none, some, inl, inr, Bool-cases}
use open_arango_dbcore.Replication.Sequence.{SequenceNumberTracker, get_state}
use open_arango_dbcore.Replication.Checkpoint.{
  CheckpointError, Disk, Faults, success, failure, render, save, temporary_not_opened,
  temporary_not_written, not_renamed,
}

-- The checkpoint file is replaced as a whole or not at all: whichever step of a save fails, a save
-- that reports success has put the text of the tracker's whole state at the path and left no
-- temporary file, and one that reports a failure has left the file at the path as it was.
pub save_replaces :
    (tracker : SequenceNumberTracker) (faults : Faults) (disk : Disk)
    → (((save tracker faults disk).1 ≡ success)
        × ((save tracker faults disk).0
            ≡ record { checkpoint = some (render (get_state tracker)); temporary = none }))
      ⊎ ((e : CheckpointError) × ((save tracker faults disk).1 ≡ failure e)
          × ((save tracker faults disk).0.checkpoint ≡ disk.checkpoint))
unfolding save
save_replaces tracker faults disk = elim (Bool-cases faults.open_fails) [
  | inl no_open ↦ rw (no_open, save) (inr (temporary_not_opened, refl, refl))
  | inr opened ↦ elim (Bool-cases faults.write_fails) [
    | inl no_write ↦ rw (opened, no_write, save) (inr (temporary_not_written, refl, refl))
    | inr wrote ↦ elim (Bool-cases faults.rename_fails) [
      | inl no_rename ↦ rw (opened, wrote, no_rename, save) (inr (not_renamed, refl, refl))
      | inr renamed ↦ rw (opened, wrote, renamed, save) (inl (refl, refl))
    ]
  ]
]
