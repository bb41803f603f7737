-- ===== src/Replication/Lag.antt =====
-- Enterprise/Replication/ReplicationLagMonitor.{h,cpp}: how far each shard is behind. The source
-- compares doubles; here the lag and the threshold are whole numbers of microseconds, as the
-- timestamps are, and the lag is signed: a timestamp may lie ahead of the clock.
pub mod Latest
mod Examples
use open_arango_dbcore.Prelude.{
  ℕ, zero, suc, ◌-◌, Bool, true, false, not, Option, none, some, List, [], ◌∷◌, ltb, leb,
  if◌then◌else◌, Str, str_key, Map, find, insert, ℤ, pos, negsuc, lebℤ,
}

pub record ReplicationLagMonitor : Type 0 where
  pub lag_threshold_micros : ℕ
  pub last_timestamps : Map Str ℕ

pub record ShardLagInfo : Type 0 where
  pub shard_id : Str
  pub last_entry_timestamp : ℕ
  pub current_timestamp : ℕ
  pub lag_micros : ℤ
  pub exceeds_threshold : Bool

unfoldable pub or_zero : Option ℕ → ℕ
or_zero none = 0
or_zero (some seen) = seen

unfoldable pub last_timestamp : ReplicationLagMonitor → Str → ℕ
last_timestamp m shard = or_zero (find shard m.last_timestamps)

-- _lastTimestamps[shardId] makes an entry 0 if there is none.
unfoldable pub record_entry : ReplicationLagMonitor → Str → ℕ → ReplicationLagMonitor
record_entry m shard entry_timestamp =
    let ts : ℕ = last_timestamp m shard in
    record m {
      last_timestamps =
          insert shard (if ltb ts entry_timestamp then entry_timestamp else ts) m.last_timestamps;
    }

unfoldable pub delta : ℕ → ℕ → ℤ
delta current last = if leb last current then pos (current - last) else negsuc (last - current - 1)

unfoldable pub exceeds : ReplicationLagMonitor → ℤ → Bool
exceeds m lag = not (lebℤ lag (pos m.lag_threshold_micros))

unfoldable pub lag_info : ReplicationLagMonitor → ℕ → Str → ℕ → ShardLagInfo
lag_info m now shard last = record {
  shard_id = shard;
  last_entry_timestamp = last;
  current_timestamp = now;
  lag_micros = delta now last;
  exceeds_threshold = exceeds m (delta now last);
}

-- The clock's reading is an argument; a call reads it once.
unfoldable pub get_lag : ReplicationLagMonitor → ℕ → Str → ShardLagInfo
get_lag m now shard = elim (find shard m.last_timestamps) [
  | none ↦ record {
    shard_id = shard;
    last_entry_timestamp = 0;
    current_timestamp = now;
    lag_micros = pos 0;
    exceeds_threshold = false;
  }
  | some last ↦ lag_info m now shard last
]

unfoldable pub lags_loop :
    ReplicationLagMonitor → ℕ → Map Str ℕ → Map Str ShardLagInfo → Map Str ShardLagInfo
lags_loop m now [] result = result
lags_loop m now ((shard, last) ∷ rest) result =
    lags_loop m now rest (insert shard (lag_info m now shard last) result)

unfoldable pub get_all_lags : ReplicationLagMonitor → ℕ → Map Str ShardLagInfo
get_all_lags m now = lags_loop m now m.last_timestamps []

unfoldable pub exceeds_loop : ReplicationLagMonitor → ℕ → Map Str ℕ → Bool
exceeds_loop m now [] = false
exceeds_loop m now ((shard, last) ∷ rest) =
    if exceeds m (delta now last) then true else exceeds_loop m now rest

unfoldable pub any_shard_exceeds_threshold : ReplicationLagMonitor → ℕ → Bool
any_shard_exceeds_threshold m now = exceeds_loop m now m.last_timestamps
