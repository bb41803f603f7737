-- ===== src/Replication/Applier/Complete.antt =====
-- ReplicationApplier: with writes that succeed, exactly the numbers 1 to n are applied, where n is the
-- greatest number up to which all have arrived.
use open_arango_dbcore.Prelude.{
  ℕ, zero, suc, ◌≤◌, ◌<◌, ◌≡◌, subst, Bool, false, none, List, [], ◌∷◌, u64_mod, Str, str_key,
  nat_key, find, arith, inl, inr,
}
use open_arango_dbcore.Replication.Applier.{
  ApplyMessage, ReplicationApplier, new_applier, increment, last_of, apply_locked, apply_batches,
  last_applied_sequence, apply_each, apply_batch,
}
use open_arango_dbcore.Replication.Applier.Invariant.{IsValid}
use open_arango_dbcore.Replication.Applier.Order.{
  AllSmall, AllBatches, apply_locked-IsValid, apply_each-IsValid,
}
use open_arango_dbcore.Replication.Applier.Held.{Held}
use open_arango_dbcore.Replication.Applier.Gaps.{Gapped, apply_locked-zero, apply_locked-Gapped}
use open_arango_dbcore.Replication.Applier.Delivery.{
  InBatch, Arrives, apply_locked-takes, apply_each-Held, apply_batches-Held,
}
use open_arango_dbcore.Replication.Applier.Invariant.{empty-IsValid}

next_applied :
    (s : Str) (n : ℕ) (a : ReplicationApplier)
    → suc n < u64_mod
    → n ≤ last_applied_sequence a s
    → Held s (suc n) a
    → Gapped s a
    → suc n ≤ last_applied_sequence a s
unfolding last_applied_sequence
next_applied s n a bound below (inl applied) g = applied
next_applied s n a bound below (inr (buf, found, (m, there))) g = ground (
  arith,
  g buf found,
  λ (e : last_of a.last_applied s ≡ n).
      subst (λ (k : ℕ). find (increment k) buf ≡ none) e (g buf found),
)

module _ (write_cb : List (ApplyMessage × ℕ) → ApplyMessage → ℕ)
    (ok : (writes : List (ApplyMessage × ℕ)) (m : ApplyMessage) → write_cb writes m ≡ 0)
    (satellite_cb : Str → Bool) where
  -- One message of the batch, then the rest of it.
  apply_each-next :
      (a : ReplicationApplier) (msg : ApplyMessage) (messages : List ApplyMessage)
      → apply_each write_cb satellite_cb a (msg ∷ messages)
        ≡ apply_each write_cb satellite_cb (apply_locked write_cb satellite_cb a msg).0 messages
  unfolding apply_each
  apply_each-next a msg messages = rw (apply_locked-zero write_cb ok satellite_cb a msg)

  apply_each-Gapped :
      (s : Str) (a : ReplicationApplier) (messages : List ApplyMessage)
      → AllSmall messages
      → IsValid a
      → Gapped s a
      → Gapped s (apply_each write_cb satellite_cb a messages)
  apply_each-Gapped s a [] small v g = unfold apply_each in g
  apply_each-Gapped s a (msg ∷ messages) small v g = rw (apply_each-next a msg messages) (
      apply_each-Gapped s (apply_locked write_cb satellite_cb a msg).0 messages small.1
        (apply_locked-IsValid write_cb satellite_cb a msg small.0 v)
        (apply_locked-Gapped write_cb ok satellite_cb s a msg v small.0 g))

  apply_batches-Gapped :
      (s : Str) (a : ReplicationApplier) (batches : List (List ApplyMessage))
      → AllBatches batches
      → IsValid a
      → Gapped s a
      → Gapped s (apply_batches write_cb satellite_cb a batches)
  unfolding apply_batches apply_batch
  apply_batches-Gapped s a [] small v g = g
  apply_batches-Gapped s a (batch ∷ batches) small v g =
      apply_batches-Gapped s (apply_each write_cb satellite_cb a batch) batches small.1
        (apply_each-IsValid write_cb satellite_cb a batch small.0 v)
        (apply_each-Gapped s a batch small.0 v g)

  taken-Held :
      (s : Str) (k : ℕ) (a : ReplicationApplier) (msg : ApplyMessage)
      → msg.sequence < u64_mod
      → IsValid a
      → satellite_cb s ≡ false
      → msg.shard_id ≡ s
      → msg.sequence ≡ k
      → Held s k (apply_locked write_cb satellite_cb a msg).0
  taken-Held s k a msg small v ours shard number =
      rw (← shard, ← number)
        (apply_locked-takes write_cb satellite_cb a msg v small (rw shard ours)
          (apply_locked-zero write_cb ok satellite_cb a msg))

  apply_each-takes :
      (s : Str) (k : ℕ) (a : ReplicationApplier) (messages : List ApplyMessage)
      → AllSmall messages
      → IsValid a
      → satellite_cb s ≡ false
      → InBatch s k messages
      → Held s k (apply_each write_cb satellite_cb a messages)
  apply_each-takes s k a [] small v ours i = absurd i
  apply_each-takes s k a (msg ∷ messages) small v ours (inl (shard, number)) =
      rw (apply_each-next a msg messages) (
        apply_each-Held write_cb satellite_cb s k (apply_locked write_cb satellite_cb a msg).0
          messages small.1 (apply_locked-IsValid write_cb satellite_cb a msg small.0 v)
          (taken-Held s k a msg small.0 v ours shard number))
  apply_each-takes s k a (msg ∷ messages) small v ours (inr later) =
      rw (apply_each-next a msg messages) (
        apply_each-takes s k (apply_locked write_cb satellite_cb a msg).0 messages small.1
          (apply_locked-IsValid write_cb satellite_cb a msg small.0 v) ours later)

  apply_batches-takes :
      (s : Str) (k : ℕ) (a : ReplicationApplier) (batches : List (List ApplyMessage))
      → AllBatches batches
      → IsValid a
      → satellite_cb s ≡ false
      → Arrives s k batches
      → Held s k (apply_batches write_cb satellite_cb a batches)
  unfolding apply_batches apply_batch
  apply_batches-takes s k a [] small v ours i = absurd i
  apply_batches-takes s k a (batch ∷ batches) small v ours (inl now) =
      apply_batches-Held write_cb satellite_cb s k (apply_each write_cb satellite_cb a batch)
        batches small.1 (apply_each-IsValid write_cb satellite_cb a batch small.0 v)
        (apply_each-takes s k a batch small.0 v ours now)
  apply_batches-takes s k a (batch ∷ batches) small v ours (inr later) =
      apply_batches-takes s k (apply_each write_cb satellite_cb a batch) batches small.1
        (apply_each-IsValid write_cb satellite_cb a batch small.0 v) ours later

  new_applier-Gapped : (s : Str) → Gapped s new_applier
  unfolding find
  new_applier-Gapped s = λ buf h. cc

  -- If no write fails and the messages 1, …, n of a shard that is no satellite have all arrived, in
  -- any order, with any repetitions and any others among them, then all of them are applied.
  pub apply_batches-delivers :
      (batches : List (List ApplyMessage)) (s : Str) (n : ℕ)
      → AllBatches batches
      → satellite_cb s ≡ false
      → n < u64_mod
      → ((k : ℕ) → 1 ≤ k → k ≤ n → Arrives s k batches)
      → n ≤ last_applied_sequence (apply_batches write_cb satellite_cb new_applier batches) s
  apply_batches-delivers batches s zero small ours bound all = omega arith
  apply_batches-delivers batches s (suc n) small ours bound all =
      let below =
        apply_batches-delivers batches s n small ours (omega arith)
          (λ k h i. all k h (omega arith)) in
      next_applied s n (apply_batches write_cb satellite_cb new_applier batches) bound below
        (apply_batches-takes s (suc n) new_applier batches small empty-IsValid ours
          (all (suc n) (omega arith) (omega arith)))
        (apply_batches-Gapped s new_applier batches small empty-IsValid (new_applier-Gapped s))
