-- ===== src/Replication/Batching/Examples.antt =====
-- Runs of the code modelled in Batching.antt.
use open_arango_dbcore.Prelude.{ℕ, ◌+◌, ◌≡◌, refl, List, [], ◌∷◌, ◌++◌}
use open_arango_dbcore.Replication.Sequence.{insert_op}
use open_arango_dbcore.Replication.Tailing.{WalEntry}
use open_arango_dbcore.Replication.Batching.{Surroundings, MessageBatcher, new_batcher}
use open_arango_dbcore.Replication.Batching.Keeping.{add_all, entries_of, numbers_of, add_all-keeps}

abbrev entry_at : ℕ → WalEntry
entry_at n = record {
  sequence_number = n;
  timestamp = n;
  collection_name = [];
  document_key = [];
  operation = insert_op;
  payload = [];
}

-- The next number, and a clock.
abbrev around : Surroundings (ℕ × ℕ)
around = record { sequence_provider = λ w. ((w.0 + 1, w.1), w.0); now = λ w. ((w.0, w.1 + 7), w.1) }

abbrev added : List WalEntry
added = entry_at 1 ∷ entry_at 2 ∷ entry_at 3 ∷ entry_at 4 ∷ entry_at 5 ∷ []

abbrev batcher : MessageBatcher
batcher = new_batcher (b's' ∷ []) 2

add_all-keeps_example :
    entries_of (add_all around added (9, 0) batcher).2
      ++ (add_all around added (9, 0) batcher).1.pending
    ≡ batcher.pending ++ added
add_all-keeps_example = add_all-keeps around added (9, 0) batcher

two_batches : numbers_of (add_all around added (9, 0) batcher).2 ≡ 9 ∷ 10 ∷ []
unfolding add_all numbers_of open_arango_dbcore.Replication.Batching.add
    open_arango_dbcore.Replication.Batching.seal
two_batches = refl
