-- ===== src/Replication/Tailing/Examples.antt =====
-- Runs of the code modelled in Tailing.antt, with an iterator over a list.
use open_arango_dbcore.Prelude.{
  ℕ, suc, ◌+◌, ◌≤◌, ◌<◌, ◌≡◌, refl, Bool, true, false, Option, none, some, List, [], ◌∷◌, take,
  drop, ltb, if◌then◌else◌, length, Str, str_eq, str_key, find, Bool-cases, inl, inr, arith,
}
use open_arango_dbcore.Replication.Sequence.{insert_op}
use open_arango_dbcore.Replication.Tailing.{
  WalEntry, WalIterator, Resolver, ShardWalTailer, Reads, at_end, at_entry, poll, poll_loop,
  poll_step, seek_to, new_tailer, is_satellite_entry, belongs_to_shard,
}
use open_arango_dbcore.Replication.Tailing.Polling.{Following, Polled, poll-Polled, wanted_entries}
use open_arango_dbcore.Replication.Tailing.Resume.{Seeks, from_sequence, seek_to-resumes}

abbrev blank : WalEntry
blank = record {
  sequence_number = 0;
  timestamp = 0;
  collection_name = [];
  document_key = [];
  operation = insert_op;
  payload = [];
}

abbrev first_or_blank : List WalEntry → WalEntry
first_or_blank [] = blank
first_or_blank (e ∷ log) = e

abbrev some_left : List WalEntry → Bool
some_left [] = false
some_left (e ∷ log) = true

-- An iterator over `whole`; its state is what is left.
abbrev list_over : List WalEntry → WalIterator (List WalEntry)
list_over whole = record {
  valid = some_left;
  entry = first_or_blank;
  next = λ it. drop 1 it;
  seek = λ it target. from_sequence target whole;
}

list_over-Reads : (whole log : List WalEntry) → Reads (list_over whole) log log
list_over-Reads whole [] = at_end [] refl
list_over-Reads whole (e ∷ log) = at_entry (e ∷ log) e log refl refl (list_over-Reads whole log)

-- "t" is a satellite collection, and no other is known.
abbrev satellites_t : Resolver
satellites_t name =
    if str_eq name (b't' ∷ [])
    then some (record { replication_factor = 0; number_of_shards = 1 })
    else none

abbrev one : WalEntry
one = record blank { sequence_number = 3; collection_name = b'p' ∷ [] }

abbrev two : WalEntry
two = record blank { sequence_number = 5; collection_name = b't' ∷ [] }

abbrev three : WalEntry
three = record blank { sequence_number = 6; collection_name = b'p' ∷ [] }

abbrev wal_log : List WalEntry
wal_log = one ∷ two ∷ three ∷ []

abbrev list_wal : WalIterator (List WalEntry)
list_wal = list_over wal_log

abbrev tailer : ShardWalTailer (List WalEntry)
tailer = new_tailer 0 1 wal_log

tailer-Following : Following list_wal satellites_t 0 1 wal_log tailer
unfolding find
tailer-Following = record {
  reads = list_over-Reads wal_log wal_log;
  cached = λ name info h. cc;
  own_shard = refl;
  all_shards = refl;
}

poll-Polled_example :
    Polled list_wal satellites_t 0 1
      (λ k. false)
      0
      2
      0
      []
      wal_log
      (poll list_wal satellites_t 3 (λ k. false) 2 tailer)
poll-Polled_example =
    poll-Polled list_wal satellites_t 0 1 3 (λ k. false) 2 tailer wal_log tailer-Following
      (omega arith)

-- The satellite collection's entry is skipped.
two_of_three : (poll list_wal satellites_t 3 (λ k. false) 2 tailer).1 ≡ one ∷ three ∷ []
unfolding poll poll_loop poll_step is_satellite_entry find str_eq belongs_to_shard
    open_arango_dbcore.Cluster.Satellites.is_satellite open_arango_dbcore.Prelude.insert
two_of_three = refl

from_sequence-Seeks : Seeks list_wal wal_log
from_sequence-Seeks it target = list_over-Reads wal_log (from_sequence target wal_log)

seek_to-resumes_example :
    (n : ℕ) × ((poll list_wal satellites_t 3 (λ k. false) 1 tailer).1
      ≡ wanted_entries satellites_t 0 1 (take n wal_log))
    × Following list_wal satellites_t 0 1 (drop n wal_log) (
        seek_to list_wal satellites_t
          (suc (poll list_wal satellites_t 3 (λ k. false) 1 tailer).0.last_processed_seq)
          (new_tailer 0 1 []))
    × ((seek_to list_wal satellites_t
          (suc (poll list_wal satellites_t 3 (λ k. false) 1 tailer).0.last_processed_seq)
          (new_tailer 0 1 [])).last_processed_seq
        ≡ (poll list_wal satellites_t 3 (λ k. false) 1 tailer).0.last_processed_seq)
seek_to-resumes_example =
    seek_to-resumes list_wal satellites_t 0 1 3 (λ k. false) 1 tailer wal_log [] from_sequence-Seeks
      (omega arith, (omega arith, (omega arith, tt))) tailer-Following (omega arith)
