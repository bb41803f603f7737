-- ===== src/Replication/Lag/Examples.antt =====
-- A run of the code modelled in Lag.antt.
use open_arango_dbcore.Prelude.{
  ℕ, ◌≡◌, refl, Bool, true, false, List, [], ◌∷◌, Str, str_key, pos, negsuc,
}
use open_arango_dbcore.Replication.Lag.{
  ReplicationLagMonitor, last_timestamp, get_lag, any_shard_exceeds_threshold,
}
use open_arango_dbcore.Replication.Lag.Latest.{record_all}

abbrev monitor : ReplicationLagMonitor
monitor = record { lag_threshold_micros = 100; last_timestamps = [] }

abbrev shard_a : Str
shard_a = b'a' ∷ []

abbrev recorded : List (Str × ℕ)
recorded = (shard_a, 50) ∷ (b'b' ∷ [], 90) ∷ (shard_a, 20) ∷ []

behind : (get_lag (record_all recorded monitor) 151 shard_a).exceeds_threshold ≡ true
unfolding record_all get_lag open_arango_dbcore.Prelude.find
    open_arango_dbcore.Replication.Lag.record_entry open_arango_dbcore.Prelude.insert
    open_arango_dbcore.Prelude.str_eq open_arango_dbcore.Replication.Lag.lag_info
    open_arango_dbcore.Replication.Lag.exceeds open_arango_dbcore.Prelude.lebℤ
    open_arango_dbcore.Replication.Lag.delta last_timestamp
    open_arango_dbcore.Replication.Lag.or_zero
behind = refl

ahead : (get_lag (record_all recorded monitor) 40 shard_a).lag_micros ≡ negsuc 9
unfolding record_all get_lag open_arango_dbcore.Prelude.find
    open_arango_dbcore.Replication.Lag.record_entry open_arango_dbcore.Prelude.insert
    open_arango_dbcore.Prelude.str_eq open_arango_dbcore.Replication.Lag.lag_info
    open_arango_dbcore.Replication.Lag.delta last_timestamp
    open_arango_dbcore.Replication.Lag.or_zero
ahead = refl
