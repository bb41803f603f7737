-- ===== src/Replication/Tailing/Resume.antt =====
-- Restarting a tailer (ShardWALTailer.cpp: seekTo) at the sequence number it remembered.
use open_arango_dbcore.Prelude.{
  ℕ, zero, suc, ◌≤◌, ◌<◌, ◌≡◌, refl, ap, ◌∙◌, subst, Bool, true, false, List, [], ◌∷◌, length, take,
  drop, ltb, if◌then◌else◌, arith, find, str_key,
}
use open_arango_dbcore.Replication.Tailing.{
  WalEntry, WalIterator, Resolver, ShardWalTailer, Reads, poll, seek_to, new_tailer,
}
use open_arango_dbcore.Replication.Tailing.Cache.{wanted, advance}
use open_arango_dbcore.Replication.Tailing.Polling.{
  wanted_entries, advance_all, Following, Polled, poll-Polled,
}

-- Sequence numbers grow along the log, from above `last`.
abbrev pub Ascends : ℕ → List WalEntry → Type 0
Ascends last [] = Unit {0}
Ascends last (e ∷ log) = (last < e.sequence_number) × Ascends e.sequence_number log

-- The log from the first entry on whose number is at least `target`.
unfoldable pub from_sequence : ℕ → List WalEntry → List WalEntry
from_sequence target [] = []
from_sequence target (e ∷ log) =
    if ltb e.sequence_number target then from_sequence target log else e ∷ log

-- What IWALIterator.h says of `seek`, for an iterator over this log.
abbrev pub Seeks : {I : Type 0} → WalIterator I → List WalEntry → Type 0
Seeks {I} wal log =
    (it : I) (target : ℕ) → Reads wal (wal.seek it target) (from_sequence target log)

advance-Ascends :
    (yielded : Bool) (last : ℕ) (e : WalEntry)
    → last < e.sequence_number
    → advance yielded last e ≡ e.sequence_number
unfolding advance
advance-Ascends true last e h = refl
advance-Ascends false last e h = ground (arith, h)

from_sequence-all :
    (target : ℕ) (log : List WalEntry) → Ascends target log → from_sequence (suc target) log ≡ log
unfolding from_sequence
from_sequence-all target [] h = refl
from_sequence-all target (e ∷ log) h = ground (arith, h.0)

module _ (resolver : Resolver) (shard shards : ℕ) where
  advance_all-ge :
      (last : ℕ) (log : List WalEntry) (n : ℕ)
      → Ascends last log
      → last ≤ advance_all resolver shard shards last (take n log)
  unfolding advance_all
  advance_all-ge last log zero h = omega arith
  advance_all-ge last [] (suc n) h = omega arith
  advance_all-ge last (e ∷ log) (suc n) h =
      rw (advance_all, advance-Ascends (wanted resolver shard shards e) last e h.0)
        (omega (arith, h.0, advance_all-ge e.sequence_number log n h.1))

  -- Behind the number that the examined entries leave, the rest of the log begins.
  from_sequence-rest :
      (last : ℕ) (log : List WalEntry) (n : ℕ)
      → Ascends last log
      → from_sequence (suc (advance_all resolver shard shards last (take n log))) log ≡ drop n log
  unfolding advance_all from_sequence
  from_sequence-rest last log zero h = from_sequence-all last log h
  from_sequence-rest last [] (suc n) h = refl
  from_sequence-rest last (e ∷ log) (suc n) h =
      let passed : ltb e.sequence_number
            (suc (advance_all resolver shard shards e.sequence_number (take n log)))
          ≡ true =
        ground (arith, advance_all-ge e.sequence_number log n h.1) in
      let stepped : advance_all resolver shard shards last (take (suc n) (e ∷ log))
          ≡ advance_all resolver shard shards e.sequence_number (take n log) =
        rw (advance_all, advance-Ascends (wanted resolver shard shards e) last e h.0) refl in
      ap (λ l. from_sequence (suc l) (e ∷ log)) stepped
      ∙ rw (from_sequence, passed) (from_sequence-rest e.sequence_number log n h.1)

module _ {I : Type 0} (wal : WalIterator I) (resolver : Resolver) (shard shards : ℕ) where
  -- When a log's sequence numbers grow from above the one that the tailer remembers, its iterator
  -- seeks as the interface says, and there is fuel for the log: after a poll, a new tailer of the
  -- same shard that is sent to the number behind the one that the poll left goes on exactly where
  -- it stopped. What the poll yielded are this shard's entries up to there, and the new tailer
  -- reads the rest, with the same number remembered.
  pub seek_to-resumes :
      (fuel : ℕ) (stops : ℕ → Bool) (max_entries : ℕ) (t : ShardWalTailer I) (log : List WalEntry)
      (it : I)
      → Seeks wal log
      → Ascends t.last_processed_seq log
      → Following wal resolver shard shards log t
      → length log ≤ fuel
      → (n : ℕ) × ((poll wal resolver fuel stops max_entries t).1
          ≡ wanted_entries resolver shard shards (take n log))
        × Following wal resolver shard shards (drop n log) (
            seek_to wal resolver
              (suc (poll wal resolver fuel stops max_entries t).0.last_processed_seq)
              (new_tailer shard shards it))
        × ((seek_to wal resolver
              (suc (poll wal resolver fuel stops max_entries t).0.last_processed_seq)
              (new_tailer shard shards it)).last_processed_seq
            ≡ (poll wal resolver fuel stops max_entries t).0.last_processed_seq)
  unfolding seek_to find
  seek_to-resumes fuel stops max_entries t log it seeks ascends following enough =
      let polled : Polled wal resolver shard shards stops 0 max_entries t.last_processed_seq [] log
          (poll wal resolver fuel stops max_entries t) =
        poll-Polled wal resolver shard shards fuel stops max_entries t log following enough in
      let target : ℕ = suc (poll wal resolver fuel stops max_entries t).0.last_processed_seq in
      (
        polled.examined,
        polled.result,
        record {
          reads =
              subst (λ rest. Reads wal (wal.seek it target) rest)
                (ap (λ l. from_sequence (suc l) log) polled.remembers
                  ∙ from_sequence-rest resolver shard shards t.last_processed_seq log
                      polled.examined ascends)
                (seeks it target);
          cached = λ name info h. cc;
          own_shard = refl;
          all_shards = refl;
        },
        ground arith,
      )
