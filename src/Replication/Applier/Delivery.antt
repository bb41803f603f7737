-- ===== src/Replication/Applier/Delivery.antt =====
-- ReplicationApplier: no message that was taken is lost, and once 1, …, n have all arrived, in any
-- order and with any repetitions, all of them are applied.
use open_arango_dbcore.Prelude.{
  ℕ, ◌<◌, ◌≡◌, ◌⊎◌, Bool, false, List, [], ◌∷◌, leb, ◌==◌, u64_mod, Str, str_key, nat_key, arith,
  Bool-cases, inl, inr,
}
use open_arango_dbcore.Replication.Applier.{
  ApplyMessage, ReplicationApplier, increment, last_of, apply_locked, apply_batches, apply_message,
  apply_each, apply_batch,
}
use open_arango_dbcore.Replication.Applier.Invariant.{IsValid}
use open_arango_dbcore.Replication.Applier.Order.{
  next_number, AllSmall, AllBatches, apply_locked-IsValid, apply_each-IsValid,
}
use open_arango_dbcore.Replication.Applier.Held.{
  Held, buffer_message-Held, buffer_message-takes, write_message-Held, write_message-takes,
}

-- A message of the shard with this number is among those of the batches.
abbrev pub InBatch : Str → ℕ → List ApplyMessage → Type 0
InBatch s k [] = ⊥
InBatch s k (msg ∷ messages) = ((msg.shard_id ≡ s) × (msg.sequence ≡ k)) ⊎ InBatch s k messages

abbrev pub Arrives : Str → ℕ → List (List ApplyMessage) → Type 0
Arrives s k [] = ⊥
Arrives s k (batch ∷ batches) = InBatch s k batch ⊎ Arrives s k batches

module _ (write_cb : List (ApplyMessage × ℕ) → ApplyMessage → ℕ) (satellite_cb : Str → Bool) where
  pub apply_locked-Held :
      (s : Str) (k : ℕ) (a : ReplicationApplier) (msg : ApplyMessage)
      → IsValid a
      → msg.sequence < u64_mod
      → Held s k a
      → Held s k (apply_locked write_cb satellite_cb a msg).0
  unfolding apply_locked
  apply_locked-Held s k a msg v small w = elim (Bool-cases (satellite_cb msg.shard_id)) [
    | inl satellite ↦ rw satellite w
    | inr ours ↦ elim (Bool-cases (leb msg.sequence (last_of a.last_applied msg.shard_id))) [
      | inl duplicate ↦ rw (ours, duplicate) w
      | inr new ↦
          elim (Bool-cases (msg.sequence == increment (last_of a.last_applied msg.shard_id))) [
            | inr early ↦ rw (ours, new, early) (buffer_message-Held write_cb s k a msg w)
            | inl next ↦
                rw (ours, new, next)
                  (write_message-Held write_cb s k a msg v (next_number a msg v new next) small w)
          ]
    ]
  ]

  -- A message that is no satellite's and for which the call returns 0 is applied or buffered.
  pub apply_locked-takes :
      (a : ReplicationApplier) (msg : ApplyMessage)
      → IsValid a
      → msg.sequence < u64_mod
      → satellite_cb msg.shard_id ≡ false
      → (apply_locked write_cb satellite_cb a msg).1 ≡ 0
      → Held msg.shard_id msg.sequence (apply_locked write_cb satellite_cb a msg).0
  unfolding apply_locked
  apply_locked-takes a msg v small ours zero_code =
      elim (Bool-cases (leb msg.sequence (last_of a.last_applied msg.shard_id))) [
        | inl duplicate ↦ rw (ours, duplicate) (inl (ground arith))
        | inr new ↦
            elim (Bool-cases (msg.sequence == increment (last_of a.last_applied msg.shard_id))) [
              | inr early ↦ rw (ours, new, early) (buffer_message-takes write_cb a msg)
              | inl next ↦
                  rw (ours, new, next)
                    (write_message-takes write_cb a msg v (next_number a msg v new next) small
                      (rw (ours, new, next) at zero_code))
            ]
      ]

  pub apply_each-Held :
      (s : Str) (k : ℕ) (a : ReplicationApplier) (messages : List ApplyMessage)
      → AllSmall messages
      → IsValid a
      → Held s k a
      → Held s k (apply_each write_cb satellite_cb a messages)
  unfolding apply_each
  apply_each-Held s k a [] small v w = w
  apply_each-Held s k a (msg ∷ messages) small v w =
      let b = apply_locked write_cb satellite_cb a msg in
      let held = apply_locked-Held s k a msg v small.0 w in
      elim (Bool-cases ((apply_locked write_cb satellite_cb a msg).1 == 0)) [
        | inl done ↦ rw done (
            apply_each-Held s k (apply_locked write_cb satellite_cb a msg).0 messages small.1
              (apply_locked-IsValid write_cb satellite_cb a msg small.0 v) held)
        | inr failed ↦ rw failed held
      ]

  pub apply_batches-Held :
      (s : Str) (k : ℕ) (a : ReplicationApplier) (batches : List (List ApplyMessage))
      → AllBatches batches
      → IsValid a
      → Held s k a
      → Held s k (apply_batches write_cb satellite_cb a batches)
  unfolding apply_batches apply_batch
  apply_batches-Held s k a [] small v w = w
  apply_batches-Held s k a (batch ∷ batches) small v w =
      apply_batches-Held s k (apply_each write_cb satellite_cb a batch) batches small.1
        (apply_each-IsValid write_cb satellite_cb a batch small.0 v)
        (apply_each-Held s k a batch small.0 v w)

  -- A message that is no satellite's and for which `applyMessage` returns 0 is applied or in its
  -- shard's buffer, and stays so after any later batches, with any answers of the callback.
  pub apply_message-kept :
      (a : ReplicationApplier) (msg : ApplyMessage) (later : List (List ApplyMessage))
      → IsValid a
      → msg.sequence < u64_mod
      → satellite_cb msg.shard_id ≡ false
      → (apply_message write_cb satellite_cb a msg).1 ≡ 0
      → AllBatches later
      → Held msg.shard_id msg.sequence
          (apply_batches write_cb satellite_cb (apply_message write_cb satellite_cb a msg).0 later)
  unfolding apply_message
  apply_message-kept a msg later v small ours zero_code rest =
      apply_batches-Held msg.shard_id msg.sequence (apply_locked write_cb satellite_cb a msg).0
        later rest (apply_locked-IsValid write_cb satellite_cb a msg small v)
        (apply_locked-takes a msg v small ours zero_code)
