-- ===== src/Replication/Applier/Order.antt =====
-- ReplicationApplier: whatever arrives and whatever the write callback answers, the successful writes
-- of a shard are its messages 1, 2, 3, …, each once and in this order.
use open_arango_dbcore.Prelude.{
  ℕ, ◌+◌, ◌<◌, ◌≡◌, refl, Bool, true, false, List, [], ◌∷◌, leb, ◌==◌, u64_mod, Str, str_key,
  nat_key, str_eq, str_eq_iff, Map, find, insert, find-insert, arith, Bool-cases, Option-cases, inl,
  inr,
}
use open_arango_dbcore.Replication.Applier.{
  ApplyMessage, ReplicationApplier, new_applier, increment, last_of, buffer_message, write_message,
  wrote, apply_locked, apply_each, apply_batch, apply_batches, last_applied_sequence,
}
use open_arango_dbcore.Replication.Applier.Invariant.{
  count_down, written, IsBuffer, IsValid, last_of-insert, write-InOrder, failed-InOrder,
  same_writes-InOrder, empty-IsValid, own-IsBuffer,
}
use open_arango_dbcore.Replication.Applier.Drain.{zero_rc, drain_buffered-IsValid}

insert-IsBuffer :
    (msg : ApplyMessage) (buf : Map ℕ ApplyMessage)
    → 0 < msg.sequence
    → msg.sequence < u64_mod
    → IsBuffer msg.shard_id buf
    → IsBuffer msg.shard_id (insert msg.sequence msg buf)
insert-IsBuffer msg buf h k v = record {
  each = λ j m e. ground (arith, find-insert msg.sequence j msg buf, v.each j m);
}

nil-IsBuffer : (s : Str) → IsBuffer s []
unfolding find
nil-IsBuffer s = record { each = λ j m e. cc }

stored-IsValid :
    (a : ReplicationApplier) (s : Str) (buf : Map ℕ ApplyMessage)
    → IsValid a
    → IsBuffer s buf
    → IsValid (record a { buffer = insert s buf a.buffer })
stored-IsValid a s buf v own = record {
  in_order = record { ordered = v.in_order.ordered; bounded = v.in_order.bounded };
  buffers = λ u rest h. elim (Bool-cases (str_eq s u)) [
    | inl here ↦
        own-IsBuffer s u buf rest own ((str_eq_iff s u).0 here)
          (ground (arith, find-insert s u buf a.buffer))
    | inr other ↦ v.buffers u rest (ground (arith, find-insert s u buf a.buffer))
  ];
}

buffer_message-IsValid :
    (a : ReplicationApplier) (msg : ApplyMessage)
    → IsValid a
    → 0 < msg.sequence
    → msg.sequence < u64_mod
    → IsValid (buffer_message a msg)
unfolding buffer_message
buffer_message-IsValid a msg v h k = elim (Option-cases (find msg.shard_id a.buffer)) [
  | inl new ↦
      rw (new, buffer_message)
        (stored-IsValid a msg.shard_id (insert msg.sequence msg []) v
          (insert-IsBuffer msg [] h k (nil-IsBuffer msg.shard_id)))
  | inr (buf, old) ↦
      rw (old, buffer_message)
        (stored-IsValid a msg.shard_id (insert msg.sequence msg buf) v
          (insert-IsBuffer msg buf h k (v.buffers msg.shard_id buf old)))
]

pub next_number :
    (a : ReplicationApplier) (msg : ApplyMessage)
    → IsValid a
    → leb msg.sequence (last_of a.last_applied msg.shard_id) ≡ false
    → (msg.sequence == increment (last_of a.last_applied msg.shard_id)) ≡ true
    → msg.sequence ≡ last_of a.last_applied msg.shard_id + 1
next_number a msg v new next = ground (arith, v.in_order.bounded msg.shard_id)

-- The sequence of a message is a `uint64_t`.
abbrev pub AllSmall : List ApplyMessage → Type 0
AllSmall [] = Unit {0}
AllSmall (msg ∷ messages) = (msg.sequence < u64_mod) × AllSmall messages

abbrev pub AllBatches : List (List ApplyMessage) → Type 0
AllBatches [] = Unit {0}
AllBatches (batch ∷ batches) = AllSmall batch × AllBatches batches

module _ (write_cb : List (ApplyMessage × ℕ) → ApplyMessage → ℕ) where
  pub wrote-IsValid :
      (a : ReplicationApplier) (msg : ApplyMessage)
      → IsValid a
      → msg.sequence ≡ last_of a.last_applied msg.shard_id + 1
      → msg.sequence < u64_mod
      → (write_cb a.writes msg == 0) ≡ true
      → IsValid (wrote a msg (write_cb a.writes msg))
  wrote-IsValid a msg v next small done = record {
    in_order =
        write-InOrder a _ msg.shard_id msg v.in_order refl next small
          (zero_rc a.writes msg (write_cb a.writes msg) done)
          (λ u. last_of-insert a.last_applied msg.shard_id u msg.sequence);
    buffers = v.buffers;
  }

  write_message-IsValid :
      (a : ReplicationApplier) (msg : ApplyMessage)
      → IsValid a
      → msg.sequence ≡ last_of a.last_applied msg.shard_id + 1
      → msg.sequence < u64_mod
      → IsValid (write_message write_cb a msg).0
  unfolding write_message
  write_message-IsValid a msg v next small = elim (Bool-cases (write_cb a.writes msg == 0)) [
    | inl done ↦
        rw (done, write_message)
          (drain_buffered-IsValid write_cb msg.shard_id _ (wrote-IsValid a msg v next small done))
    | inr failed ↦
        rw (failed, write_message)
          (record {
            in_order =
                failed-InOrder a _ msg (write_cb a.writes msg) v.in_order failed refl (λ u. refl);
            buffers = v.buffers;
          })
  ]

  module _ (satellite_cb : Str → Bool) where
    counted-IsValid :
        (a b : ReplicationApplier)
        → IsValid a
        → b.writes ≡ a.writes
        → b.last_applied ≡ a.last_applied
        → b.buffer ≡ a.buffer
        → IsValid b
    counted-IsValid a b v hw hl hb = record {
      in_order = same_writes-InOrder a b v.in_order hw (λ u. rw hl);
      buffers = λ s buf h. v.buffers s buf (rw (← hb) h);
    }

    pub apply_locked-IsValid :
        (a : ReplicationApplier) (msg : ApplyMessage)
        → msg.sequence < u64_mod
        → IsValid a
        → IsValid (apply_locked write_cb satellite_cb a msg).0
    unfolding apply_locked
    apply_locked-IsValid a msg small v = elim (Bool-cases (satellite_cb msg.shard_id)) [
      | inl satellite ↦ rw satellite (counted-IsValid a _ v refl refl refl)
      | inr ours ↦ elim (Bool-cases (leb msg.sequence (last_of a.last_applied msg.shard_id))) [
        | inl duplicate ↦ rw (ours, duplicate) (counted-IsValid a _ v refl refl refl)
        | inr new ↦
            elim (Bool-cases (msg.sequence == increment (last_of a.last_applied msg.shard_id))) [
              | inr early ↦
                  rw (ours, new, early) (buffer_message-IsValid a msg v (ground arith) small)
              | inl next ↦
                  rw (ours, new, next)
                    (write_message-IsValid a msg v (next_number a msg v new next) small)
            ]
      ]
    ]

    pub apply_each-IsValid :
        (a : ReplicationApplier) (messages : List ApplyMessage)
        → AllSmall messages
        → IsValid a
        → IsValid (apply_each write_cb satellite_cb a messages)
    unfolding apply_each
    apply_each-IsValid a [] small v = v
    apply_each-IsValid a (msg ∷ messages) small v =
        let w = apply_locked-IsValid a msg small.0 v in
        elim (Bool-cases ((apply_locked write_cb satellite_cb a msg).1 == 0)) [
          | inl done ↦
              rw done
                (apply_each-IsValid (apply_locked write_cb satellite_cb a msg).0 messages small.1 w)
          | inr failed ↦ rw failed w
        ]

    pub apply_batches-IsValid :
        (a : ReplicationApplier) (batches : List (List ApplyMessage))
        → AllBatches batches
        → IsValid a
        → IsValid (apply_batches write_cb satellite_cb a batches)
    unfolding apply_batches apply_batch
    apply_batches-IsValid a [] small v = v
    apply_batches-IsValid a (batch ∷ batches) small v =
        apply_batches-IsValid (apply_each write_cb satellite_cb a batch) batches small.1
          (apply_each-IsValid a batch small.0 v)

    -- After any batches, with any answers of the callback, the successful writes to a shard are those
    -- of its messages 1 to the last applied one, in this order and each once.
    pub apply_batches-ordered :
        (batches : List (List ApplyMessage)) (s : Str)
        → AllBatches batches
        → written s (apply_batches write_cb satellite_cb new_applier batches).writes
          ≡ count_down
              (last_applied_sequence (apply_batches write_cb satellite_cb new_applier batches) s)
    unfolding last_applied_sequence
    apply_batches-ordered batches s small =
        (apply_batches-IsValid new_applier batches small empty-IsValid).in_order.ordered s
