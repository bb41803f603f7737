-- ===== src/Replication/Batching.antt =====
-- Enterprise/Replication/MessageBatcher.{h,cpp}: log entries gathered into batches. The callback
-- for sequence numbers and the clock belong to the caller: they are operations on a state W of
-- the surroundings, which the calls pass on.
pub mod Keeping
mod Examples
use open_arango_dbcore.Prelude.{
  ℕ, ◌%◌, Bool, true, false, Option, none, some, List, [], ◌∷◌, ◌++◌, leb, if◌then◌else◌, length,
  Str, u32_mod,
}
use open_arango_dbcore.Replication.Tailing.{WalEntry}

pub record Surroundings (W : Type 0) : Type 0 where
  pub sequence_provider : W → W × ℕ
  pub now : W → W × ℕ

pub record MessageBatch : Type 0 where
  pub shard_id : Str
  pub sequence_number : ℕ
  pub entries : List WalEntry
  pub batch_timestamp : ℕ

pub record MessageBatcher : Type 0 where
  pub shard_id : Str
  pub batch_size : ℕ
  pub pending : List WalEntry

abbrev pub new_batcher : Str → ℕ → MessageBatcher
new_batcher shard_id batch_size = record {
  shard_id = shard_id;
  batch_size = batch_size;
  pending = [];
}

module _ {W : Type 0} (around : Surroundings W) where
  -- The clock is read before the sequence number is taken.
  unfoldable pub seal : W → MessageBatcher → W × MessageBatcher × MessageBatch
  seal w b =
      let (timed, time) = around.now w in
      let (numbered, number) = around.sequence_provider timed in
      (
        numbered,
        record b { pending = [] },
        record {
          shard_id = b.shard_id;
          sequence_number = number;
          entries = b.pending;
          batch_timestamp = time;
        },
      )

  unfoldable pub add : W → MessageBatcher → WalEntry → W × MessageBatcher × Option MessageBatch
  add w b e =
      let grown : MessageBatcher = record b { pending = b.pending ++ e ∷ [] } in
      elim (leb grown.batch_size (length grown.pending)) [
        | true ↦ let (after, emptied, batch) = seal w grown in (after, emptied, some batch)
        | false ↦ (w, grown, none)
      ]

  unfoldable pub flush : W → MessageBatcher → W × MessageBatcher × Option MessageBatch
  flush w b = elim b.pending [
    | [] ↦ (w, b, none)
    | e ∷ rest ↦ let (after, emptied, batch) = seal w b in (after, emptied, some batch)
  ]

unfoldable pub reset : MessageBatcher → MessageBatcher
reset b = record b { pending = [] }

unfoldable pub pending_count : MessageBatcher → ℕ
pending_count b = length b.pending % u32_mod
