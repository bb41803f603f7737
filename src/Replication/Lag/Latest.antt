-- ===== src/Replication/Lag/Latest.antt =====
-- What ReplicationLagMonitor.cpp remembers and reports.
use open_arango_dbcore.Prelude.{
  ℕ, ◌≡◌, refl, sym, ap, ◌∙◌, inl, inr, List, [], ◌∷◌, max, ltb, if◌then◌else◌, Str, str_key,
  str_eq, str_eq_iff, Map, find, insert, find-insert, Bool-cases, arith,
}
use open_arango_dbcore.Replication.Lag.{
  ReplicationLagMonitor, last_timestamp, or_zero, record_entry,
}

-- Timestamps recorded one after the other, for any shards.
unfoldable pub record_all : List (Str × ℕ) → ReplicationLagMonitor → ReplicationLagMonitor
record_all [] m = m
record_all ((shard, ts) ∷ rest) m = record_all rest (record_entry m shard ts)

-- The largest of a shard's timestamps.
unfoldable pub latest_of : Str → List (Str × ℕ) → ℕ → ℕ
latest_of shard [] best = best
latest_of shard ((other, ts) ∷ rest) best =
    latest_of shard rest (if str_eq other shard then max best ts else best)

or_zero-find :
    (shard other : Str) (v : ℕ) (m : Map Str ℕ)
    → or_zero (find other (insert shard v m))
      ≡ (if str_eq shard other then v else or_zero (find other m))
unfolding or_zero
or_zero-find shard other v m = elim (Bool-cases (str_eq shard other)) [
  | inl same ↦ rw (find-insert shard other v m, same) refl
  | inr differ ↦ rw (find-insert shard other v m, differ) refl
]

last_timestamp-or_zero :
    (m : ReplicationLagMonitor) (shard : Str)
    → last_timestamp m shard ≡ or_zero (find shard m.last_timestamps)
unfolding last_timestamp
last_timestamp-or_zero m shard = refl

find_last :
    (m : ReplicationLagMonitor) (shard other : Str) (ts : ℕ)
    → last_timestamp (record_entry m shard ts) other ≡ (
        if str_eq shard other
        then (if ltb (last_timestamp m shard) ts then ts else last_timestamp m shard)
        else last_timestamp m other)
unfolding record_entry
find_last m shard other ts =
    last_timestamp-or_zero (record_entry m shard ts) other
    ∙ or_zero-find shard other
        (if ltb (last_timestamp m shard) ts then ts else last_timestamp m shard) m.last_timestamps
    ∙ ap
        (λ old.
          if str_eq shard other
          then (if ltb (last_timestamp m shard) ts then ts else last_timestamp m shard)
          else old)
        (sym (last_timestamp-or_zero m other))

pub record_entry-last :
    (m : ReplicationLagMonitor) (shard other : Str) (ts : ℕ)
    → last_timestamp (record_entry m shard ts) other
      ≡ (if str_eq shard other then max (last_timestamp m other) ts else last_timestamp m other)
record_entry-last m shard other ts = elim (Bool-cases (str_eq shard other)) [
  | inl same ↦
      let at : shard ≡ other = (str_eq_iff shard other).0 same in
      find_last m shard other ts ∙ rw (same, sym at) (ground arith)
  | inr differ ↦ find_last m shard other ts ∙ rw differ refl
]

-- Whatever the order of the recorded entries, a shard's remembered timestamp is the largest of its
-- own, and of the one remembered before.
pub record_all-latest :
    (recorded : List (Str × ℕ)) (m : ReplicationLagMonitor) (shard : Str)
    → last_timestamp (record_all recorded m) shard
      ≡ latest_of shard recorded (last_timestamp m shard)
unfolding record_all latest_of
record_all-latest [] m shard = refl
record_all-latest ((other, ts) ∷ rest) m shard =
    record_all-latest rest (record_entry m other ts) shard
    ∙ ap (λ best. latest_of shard rest best) (record_entry-last m other shard ts)
