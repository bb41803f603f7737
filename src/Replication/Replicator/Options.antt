-- ===== src/Replication/Replicator/Options.antt =====
-- The options that DC2DCReplicator.cpp accepts, and the tail loop under them.
use open_arango_dbcore.Prelude.{
  ℕ, ◌≤◌, ◌<◌, ◌≡◌, ◌≢◌, ◌↔◌, ◌⊎◌, refl, sym, ◌∙◌, true, false, inl, inr, List, [], ◌∷◌, append_nil,
  length, take, find, str_key, Str, arith,
}
use open_arango_dbcore.Replication.Tailing.{WalEntry, WalIterator, Resolver, Reads}
use open_arango_dbcore.Replication.Tailing.Polling.{wanted_entries}
use open_arango_dbcore.Replication.Batching.{Surroundings}
use open_arango_dbcore.Replication.Batching.Keeping.{entries_of}
use open_arango_dbcore.Replication.Lag.{ReplicationLagMonitor}
use open_arango_dbcore.Replication.Replicator.{
  Dc2DcOptions, validate_options, is_empty, shard_name, shard_tail_loop, start_tail,
}
use open_arango_dbcore.Replication.Replicator.Delivery.{working, shard_tail_loop-Working, held}

is_empty_iff : (s : Str) → (is_empty s ≡ false) ↔ (s ≢ [])
is_empty_iff [] = (λ h. cc, λ h. absurd (h refl))
is_empty_iff (c ∷ s) = (λ h e. cc, λ h. refl)

-- The options are accepted exactly when the feature is off, or has a target and its batch size,
-- thread count and checkpoint interval are not zero.
pub validate_options_iff :
    (o : Dc2DcOptions)
    → (validate_options o ≡ true) ↔ (
        (o.enabled ≡ false)
        ⊎ ((o.target_cluster ≢ [])
            × (0 < o.batch_size)
            × (0 < o.thread_count)
            × (0 < o.checkpoint_interval_sec)))
unfolding validate_options
validate_options_iff o = ground (arith, is_empty_iff o.target_cluster)

module _ {I W : Type 0} (wal : WalIterator I) (resolver : Resolver) (around : Surroundings W) where
  -- Under accepted options of an enabled feature, with an iterator that reads the log and fuel
  -- for its entries, the thread of a shard hands over exactly this shard's entries of a prefix of
  -- the log, in order and none of a satellite collection, when it is told to end after any number
  -- of passes: of the whole log, if the passes are as many as its entries.
  pub shard_tail_loop-delivers :
      (o : Dc2DcOptions) (fuel passes shard shards : ℕ) (it : I) (monitor : ReplicationLagMonitor)
      (w : W) (log : List WalEntry)
      → validate_options o ≡ true
      → o.enabled ≡ true
      → Reads wal it log
      → length log ≤ fuel
      → (n : ℕ) × (n ≤ length log)
        × (entries_of
              (shard_tail_loop wal resolver around fuel passes
                (shard_name shard)
                o.batch_size
                (start_tail wal resolver around shard shards o.batch_size it monitor w)).sent
            ≡ wanted_entries resolver shard shards (take n log))
        × ((n ≡ length log) ⊎ (passes ≤ n))
  unfolding find held entries_of wanted_entries
  shard_tail_loop-delivers o fuel passes shard shards it monitor w log accepted on reads enough =
      let some_size : 0 < o.batch_size = elim ((validate_options_iff o).0 accepted) [
        | inl off ↦ absurd (ground (arith, off, on))
        | inr (target, size, threads, interval) ↦ size
      ] in
      let (state, empty) =
        shard_tail_loop-Working wal resolver around fuel passes shard shards o.batch_size 0
          (shard_name shard) log
          (start_tail wal resolver around shard shards o.batch_size it monitor w) enough some_size
          (working 0 (omega arith)
            (record {
              reads = reads;
              cached = λ name info h. cc;
              own_shard = refl;
              all_shards = refl;
            })
            refl refl (inr (omega arith))) in
      elim state [
        | working n within follows running holds far ↦ (
          n,
          within,
          sym (
                rw empty (
                  append_nil (
                    entries_of
                      (shard_tail_loop wal resolver around fuel passes (shard_name shard)
                        o.batch_size
                        (start_tail wal resolver around shard shards o.batch_size it monitor
                          w)).sent)))
              ∙ holds,
          elim far [ inl all ↦ inl all | inr far_enough ↦ inr (omega (arith, far_enough)) ],
        )
      ]
