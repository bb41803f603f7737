-- ===== src/Replication/Sequence/Examples.antt =====
-- Tests of the sequence numbers, and their theorems at concrete inputs.
use open_arango_dbcore.Prelude.{
  ℕ, ◌+◌, ◌≡◌, refl, ◌<◌, List, [], ◌∷◌, arith, Str, str_key, find, insert, count, str_eq,
}
use open_arango_dbcore.Replication.Sequence.{
  SequenceNumberGenerator, new_generator, next_sequence, get_or_create, fetch_add, DirectMqMessage,
  insert_op, SequenceNumberTracker, check, out_of_order, last_applied_sequence, is_already_applied,
}
use open_arango_dbcore.Replication.Sequence.Numbering.{after_requests, next_sequence-numbering}
use open_arango_dbcore.Replication.Sequence.Interleaving.{
  asks, adds, acts, additions, fetch_add-increasing,
}

abbrev shard_a : Str
shard_a = b's' ∷ b'1' ∷ []

abbrev shard_b : Str
shard_b = b's' ∷ b'2' ∷ []

abbrev requests : List Str
requests = shard_a ∷ shard_b ∷ shard_a ∷ []

third_for_a : (next_sequence (after_requests new_generator requests) shard_a).1 ≡ 3
unfolding next_sequence after_requests get_or_create fetch_add find insert str_eq
third_for_a = refl

next_sequence-numbering_example :
    (next_sequence (after_requests new_generator requests) shard_a).1 ≡ count shard_a requests + 1
unfolding count str_eq
next_sequence-numbering_example = next_sequence-numbering requests shard_a (omega arith)

abbrev one_counter : SequenceNumberGenerator
one_counter = record { counters = (shard_a, 0) ∷ []; cells = 5 ∷ [] }

fetch_add-increasing_example :
    (fetch_add one_counter 0).1
    < (fetch_add (acts (fetch_add one_counter 0).0 (asks shard_b ∷ adds 0 ∷ adds 1 ∷ [])) 0).1
unfolding additions
fetch_add-increasing_example =
    fetch_add-increasing one_counter 0 (asks shard_b ∷ adds 0 ∷ adds 1 ∷ []) (omega arith)
      (omega arith)

abbrev message : ℕ → DirectMqMessage
message n = record { shard_id = shard_a; sequence = n; operation = insert_op; payload = [] }

abbrev applied_four : SequenceNumberTracker
applied_four = record { last_applied = (shard_a, 4) ∷ [] }

gap_seen : check applied_four (message 7) ≡ out_of_order
unfolding check is_already_applied last_applied_sequence find str_eq
gap_seen = refl
