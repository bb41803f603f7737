-- ===== src/Replication/Applier.antt =====
-- Enterprise/Replication/ReplicationApplier.{h,cpp}: the target's side, which applies the messages of
-- each shard in the order of their numbers, and buffers those that come early.
-- The write callback is any function of the writes before and of the message; an `int` code is a
-- number, 0 for success. `writes` is the history of calls that it sees, newest first. The mutex is
-- held for the whole of each operation. Counters are `uint64_t`.
pub mod Invariant
pub mod Drain
pub mod Order
pub mod Progress
pub mod Held
pub mod Gaps
pub mod Delivery
pub mod Complete
pub mod Replay
mod Examples
use open_arango_dbcore.Prelude.{
  ℕ, zero, suc, ◌+◌, ◌-◌, ◌%◌, Bool, true, false, Option, none, some, List, [], ◌∷◌, ◌++◌, ltb, leb,
  ◌==◌, if◌then◌else◌, length, not, u64_mod, Str, str_key, nat_key, Map, find, insert, erase,
}

pub data ReplicationOperation : Type 0 where
  insert_op update_op remove_op truncate_op : ReplicationOperation

pub record ApplyMessage : Type 0 where
  pub shard_id : Str
  pub sequence : ℕ
  pub operation : ReplicationOperation
  pub payload : List ℕ
  pub document_key : Str
  pub document_rev : Str

pub record ReplicationApplier : Type 0 where
  pub last_applied : Map Str ℕ
  pub buffer : Map Str (Map ℕ ApplyMessage)
  pub total_applied : ℕ
  pub total_duplicates : ℕ
  pub total_satellite_skipped : ℕ
  pub writes : List (ApplyMessage × ℕ)

abbrev pub new_applier : ReplicationApplier
new_applier = record {
  last_applied = [];
  buffer = [];
  total_applied = 0;
  total_duplicates = 0;
  total_satellite_skipped = 0;
  writes = [];
}

abbrev pub increment : ℕ → ℕ
increment n = (n + 1) % u64_mod

-- The value of a shard, 0 if it has none; `m[k]` also adds the pair (k, 0) to the map.
unfoldable pub last_of : Map Str ℕ → Str → ℕ
last_of m shard = elim (find shard m) [ none ↦ 0 | some n ↦ n ]

unfoldable pub touch : Map Str ℕ → Str → Map Str ℕ
touch m shard = elim (find shard m) [ none ↦ insert shard 0 m | some n ↦ m ]

unfoldable pub last_applied_sequence : ReplicationApplier → Str → ℕ
last_applied_sequence a shard = last_of a.last_applied shard

unfoldable pub buffered_in : Map Str (Map ℕ ApplyMessage) → ℕ
buffered_in [] = 0
buffered_in ((shard, buf) ∷ rest) = length buf + buffered_in rest

unfoldable pub buffered_count : ReplicationApplier → ℕ
buffered_count a = buffered_in a.buffer % u64_mod

-- An iteration of the loop of `drainBuffered` leaves it, or goes on with a smaller buffer.
pub data DrainStep : Type 0 where
  leaves : ReplicationApplier → DrainStep
  goes_on : ReplicationApplier → Map ℕ ApplyMessage → DrainStep

unfoldable pub is_empty {ℓ} : {A : Type ℓ} → List A → Bool
is_empty [] = true
is_empty (x ∷ xs) = false

-- What is left of the shard's buffer stays, and the shard's entry is erased if nothing is.
unfoldable pub put_back : Str → ReplicationApplier → Map ℕ ApplyMessage → ReplicationApplier
put_back shard a buf =
    if is_empty buf
    then record a { buffer = erase shard a.buffer }
    else record a { buffer = insert shard buf a.buffer }

unfoldable pub buffer_message : ReplicationApplier → ApplyMessage → ReplicationApplier
buffer_message a msg = elim (find msg.shard_id a.buffer) [
  | none ↦ record a { buffer = insert msg.shard_id (insert msg.sequence msg []) a.buffer }
  | some buf ↦ record a { buffer = insert msg.shard_id (insert msg.sequence msg buf) a.buffer }
]

-- The tracking after a write that succeeded.
abbrev pub wrote : ReplicationApplier → ApplyMessage → ℕ → ReplicationApplier
wrote a msg rc = record a {
  last_applied = insert msg.shard_id msg.sequence a.last_applied;
  total_applied = increment a.total_applied;
  writes = (msg, rc) ∷ a.writes;
}

module _ (write_cb : List (ApplyMessage × ℕ) → ApplyMessage → ℕ) where
  unfoldable pub drain_step : Str → ReplicationApplier → Map ℕ ApplyMessage → DrainStep
  drain_step shard a buf =
      let applied = touch a.last_applied shard in
      let next_seq : ℕ = increment (last_of applied shard) in
      elim (find next_seq buf) [
        | none ↦ leaves (record a { last_applied = applied })
        | some msg ↦
            let rc : ℕ = write_cb a.writes msg in
            if rc == 0
            then goes_on
                (record a {
                  last_applied = insert shard next_seq applied;
                  total_applied = increment a.total_applied;
                  writes = (msg, rc) ∷ a.writes;
                })
                (erase next_seq buf)
            else leaves (record a { last_applied = applied; writes = (msg, rc) ∷ a.writes })
      ]

  -- The fuel is the size of the buffer, which each further iteration makes smaller.
  unfoldable pub drain_loop :
      ℕ
      → Str
      → ReplicationApplier
      → Map ℕ ApplyMessage
      → ℕ
      → ReplicationApplier × Map ℕ ApplyMessage × ℕ
  drain_loop zero shard a buf drained = (a, buf, drained)
  drain_loop (suc fuel) shard a buf drained =
      if is_empty buf then (a, buf, drained) else elim (drain_step shard a buf) [
        | leaves b ↦ (b, buf, drained)
        | goes_on b rest ↦ drain_loop fuel shard b rest (increment drained)
      ]

  -- The number is that of the messages drained.
  unfoldable pub drain_buffered : Str → ReplicationApplier → ReplicationApplier × ℕ
  drain_buffered shard a = elim (find shard a.buffer) [
    | none ↦ (a, 0)
    | some buf ↦
        let (b, rest, drained) = drain_loop (length buf) shard a buf 0 in
        (put_back shard b rest, drained)
  ]

  -- The call of the callback and what follows it.
  unfoldable pub write_message : ReplicationApplier → ApplyMessage → ReplicationApplier × ℕ
  write_message a msg =
      let rc : ℕ = write_cb a.writes msg in
      if rc == 0
      then ((drain_buffered msg.shard_id (wrote a msg rc)).0, 0)
      else (record a { writes = (msg, rc) ∷ a.writes }, rc)

  module _ (satellite_cb : Str → Bool) where
    unfoldable pub apply_locked : ReplicationApplier → ApplyMessage → ReplicationApplier × ℕ
    apply_locked a msg =
        if satellite_cb msg.shard_id
        then (record a { total_satellite_skipped = increment a.total_satellite_skipped }, 0)
        else let last_seq : ℕ = last_of a.last_applied msg.shard_id in
          if leb msg.sequence last_seq
          then (record a { total_duplicates = increment a.total_duplicates }, 0)
          else if not (msg.sequence == increment last_seq)
          then (buffer_message a msg, 0)
          else write_message a msg

    unfoldable pub apply_message : ReplicationApplier → ApplyMessage → ReplicationApplier × ℕ
    apply_message a msg = apply_locked a msg

    -- The loop stops at the first error.
    unfoldable pub apply_each : ReplicationApplier → List ApplyMessage → ReplicationApplier
    apply_each a [] = a
    apply_each a (msg ∷ messages) =
        let (b, rc) = apply_locked a msg in
        let rest = apply_each b messages in if rc == 0 then rest else b

    unfoldable pub apply_batch : ReplicationApplier → List ApplyMessage → ReplicationApplier × ℕ
    apply_batch a messages =
        let b = apply_each a messages in
        (b, (b.total_applied + u64_mod - a.total_applied) % u64_mod)

    -- A sequence of calls of `applyBatch`.
    unfoldable pub apply_batches :
        ReplicationApplier → List (List ApplyMessage) → ReplicationApplier
    apply_batches a [] = a
    apply_batches a (messages ∷ batches) = apply_batches (apply_batch a messages).0 batches
