-- ===== src/Replication/Applier/Examples.antt =====
-- Tests of ReplicationApplier, and its theorems at concrete inputs.
use open_arango_dbcore.Prelude.{
  ℕ, ◌≡◌, refl, subst, ◌≤◌, ◌==◌, Bool, false, List, [], ◌∷◌, arith, length, Str, str_key, nat_key,
  find, insert, erase, str_eq, if◌then◌else◌, inl, inr, Bool-cases,
}
use open_arango_dbcore.Replication.Applier.{
  ReplicationApplier, ApplyMessage, insert_op, new_applier, apply_locked, apply_message, apply_each,
  apply_batch, apply_batches, last_applied_sequence, last_of, touch, drain_step, drain_loop,
  put_back, drain_buffered, buffer_message, write_message, is_empty,
}
use open_arango_dbcore.Replication.Applier.Invariant.{written, count_down, empty-IsValid, IsValid}
use open_arango_dbcore.Replication.Applier.Order.{apply_batches-ordered, apply_each-IsValid}
use open_arango_dbcore.Replication.Applier.Held.{Held}
use open_arango_dbcore.Replication.Applier.Delivery.{apply_message-kept, Arrives}
use open_arango_dbcore.Replication.Applier.Complete.{apply_batches-delivers}
use open_arango_dbcore.Replication.Applier.Replay.{apply_batch-replay, Unmoved}

abbrev shard_a : Str
shard_a = b's' ∷ b'1' ∷ []

abbrev msg : ℕ → ApplyMessage
msg n = record {
  shard_id = shard_a;
  sequence = n;
  operation = insert_op;
  payload = [];
  document_key = [];
  document_rev = [];
}

abbrev always : List (ApplyMessage × ℕ) → ApplyMessage → ℕ
always writes m = 0

-- The second call fails, the others succeed.
abbrev second_fails : List (ApplyMessage × ℕ) → ApplyMessage → ℕ
second_fails writes m = if length writes == 1 then 7 else 0

abbrev no_satellite : Str → Bool
no_satellite s = false

abbrev shuffled : List (List ApplyMessage)
shuffled = (msg 2 ∷ msg 1 ∷ msg 2 ∷ []) ∷ (msg 3 ∷ []) ∷ []

shuffled_all :
    last_applied_sequence (apply_batches always no_satellite new_applier shuffled) shard_a ≡ 3
unfolding apply_batches apply_batch apply_each apply_locked last_applied_sequence last_of find
    insert erase str_eq buffer_message write_message drain_buffered drain_loop drain_step touch
    put_back is_empty
shuffled_all = refl

apply_batches-ordered_example :
    written shard_a (apply_batches second_fails no_satellite new_applier shuffled).writes
    ≡ count_down (
        last_applied_sequence
          (apply_batches second_fails no_satellite new_applier shuffled)
          shard_a)
apply_batches-ordered_example =
    apply_batches-ordered second_fails no_satellite shuffled shard_a (omega arith)

apply_message-kept_example : Held shard_a 2 (
    apply_batches second_fails no_satellite
      (apply_message second_fails no_satellite new_applier (msg 2)).0
      shuffled)
unfolding apply_message apply_locked last_of find buffer_message
apply_message-kept_example =
    apply_message-kept second_fails no_satellite new_applier (msg 2) shuffled empty-IsValid
      (omega arith) refl refl (omega arith)

three_arrive : (k : ℕ) → 1 ≤ k → k ≤ 3 → Arrives shard_a k shuffled
three_arrive k low high = elim (Bool-cases (k == 1)) [
  | inl one ↦ inl (inr (inl (refl, ground arith)))
  | inr more ↦ elim (Bool-cases (k == 2)) [
    | inl two ↦ inl (inl (refl, ground arith))
    | inr three ↦ inr (inl (inl (refl, ground arith)))
  ]
]

apply_batches-delivers_example :
    3 ≤ last_applied_sequence (apply_batches always no_satellite new_applier shuffled) shard_a
apply_batches-delivers_example =
    apply_batches-delivers always (λ w m. refl) no_satellite shuffled shard_a 3 (omega arith) refl
      (omega arith) three_arrive

-- Message 2 comes early, message 1 is written, and the write of message 2 fails.
abbrev after_failure : ReplicationApplier
after_failure = record {
  last_applied = (shard_a, 1) ∷ [];
  buffer = (shard_a, (2, msg 2) ∷ []) ∷ [];
  total_applied = 1;
  total_duplicates = 0;
  total_satellite_skipped = 0;
  writes = (msg 2, 7) ∷ (msg 1, 0) ∷ [];
}

reaches_failure :
    apply_each second_fails no_satellite new_applier (msg 2 ∷ msg 1 ∷ []) ≡ after_failure
unfolding apply_each apply_locked last_of find insert erase str_eq buffer_message write_message
    drain_buffered drain_loop drain_step touch put_back is_empty
reaches_failure = refl

after_failure-IsValid : IsValid after_failure
after_failure-IsValid = subst IsValid reaches_failure (
    apply_each-IsValid second_fails no_satellite new_applier (msg 2 ∷ msg 1 ∷ []) (omega arith)
      empty-IsValid)

apply_batch-replay_example :
    Unmoved after_failure
      (apply_batch second_fails no_satellite after_failure (msg 1 ∷ msg 1 ∷ [])).0
    × ((apply_batch second_fails no_satellite after_failure (msg 1 ∷ msg 1 ∷ [])).1 ≡ 0)
unfolding last_of find str_eq
apply_batch-replay_example =
    apply_batch-replay second_fails no_satellite after_failure (msg 1 ∷ msg 1 ∷ [])
      (inr (omega arith), (inr (omega arith), tt))
