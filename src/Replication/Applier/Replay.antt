-- ===== src/Replication/Applier/Replay.antt =====
-- ReplicationApplier: what happens to messages that arrive again.
use open_arango_dbcore.Prelude.{
  ℕ, zero, suc, ◌+◌, ◌≤◌, ◌<◌, ◌≡◌, ◌⊎◌, subst, refl, ◌∙◌, Bool, true, false, some, List, [], ◌∷◌,
  leb, ◌==◌, length, u64_mod, Str, str_key, nat_key, str_eq_iff, Map, find, find-insert_self,
  find-erase, arith, inl, inr,
}
use open_arango_dbcore.Replication.Applier.{
  ApplyMessage, ReplicationApplier, increment, last_of, is_empty, drain_step, drain_loop, put_back,
  drain_buffered, write_message, wrote, apply_locked, last_applied_sequence, apply_message,
  apply_each, apply_batch,
}
use open_arango_dbcore.Replication.Applier.Invariant.{IsValid, last_of-insert}
use open_arango_dbcore.Replication.Applier.Drain.{
  Draining, drain_step-Draining, DrainStep-cases, StepDraining,
}
use open_arango_dbcore.Replication.Applier.Order.{wrote-IsValid}
use open_arango_dbcore.Replication.Applier.Progress.{StepOutcome, drain_step-StepOutcome}
use open_arango_dbcore.Replication.Applier.Held.{Draining-start}

put_back-stays :
    (s : Str) (k : ℕ) (m : ApplyMessage) (a : ReplicationApplier) (buf : Map ℕ ApplyMessage)
    → find k buf ≡ some m
    → k ≤ last_of a.last_applied s
    → (rest : Map ℕ ApplyMessage) × (find s (put_back s a buf).buffer ≡ some rest)
      × (find k rest ≡ some m)
      × (k ≤ last_of (put_back s a buf).last_applied s)
unfolding put_back is_empty find
put_back-stays s k m a [] there below = cc
put_back-stays s k m a (e ∷ buf) there below =
    (e ∷ buf, find-insert_self s (e ∷ buf) a.buffer, there, below)

-- Each message is of a satellite or has a number that is applied.
abbrev pub AllOld : (Str → Bool) → ReplicationApplier → List ApplyMessage → Type 0
AllOld satellite_cb a [] = Unit {0}
AllOld satellite_cb a (msg ∷ messages) =
    ((satellite_cb msg.shard_id ≡ true) ⊎ (msg.sequence ≤ last_of a.last_applied msg.shard_id))
    × AllOld satellite_cb a messages

moved-AllOld :
    (satellite_cb : Str → Bool) (a b : ReplicationApplier) (messages : List ApplyMessage)
    → b.last_applied ≡ a.last_applied
    → AllOld satellite_cb a messages
    → AllOld satellite_cb b messages
moved-AllOld satellite_cb a b [] same old = tt
moved-AllOld satellite_cb a b (msg ∷ messages) same (old, rest) =
    (rw same old, moved-AllOld satellite_cb a b messages same rest)

-- The two states differ in their counters of duplicates and of satellites at most.
pub record Unmoved (a b : ReplicationApplier) : Type 0 where
  pub writes : b.writes ≡ a.writes
  pub last_applied : b.last_applied ≡ a.last_applied
  pub buffer : b.buffer ≡ a.buffer
  pub total : b.total_applied ≡ a.total_applied

trans-Unmoved : (a b c : ReplicationApplier) → Unmoved a b → Unmoved b c → Unmoved a c
trans-Unmoved a b c v w = record {
  writes = w.writes ∙ v.writes;
  last_applied = w.last_applied ∙ v.last_applied;
  buffer = w.buffer ∙ v.buffer;
  total = w.total ∙ v.total;
}

module _ (write_cb : List (ApplyMessage × ℕ) → ApplyMessage → ℕ) where
  -- A number that is applied is not taken out of the buffer by the loop.
  drain_loop-stays :
      (fuel : ℕ) (s : Str) (k : ℕ) (m : ApplyMessage) (start a : ReplicationApplier)
      (buf : Map ℕ ApplyMessage) (drained : ℕ)
      → Draining s start a buf
      → k ≤ last_of a.last_applied s
      → find k buf ≡ some m
      → (find k (drain_loop write_cb fuel s a buf drained).1 ≡ some m)
        × (k ≤ last_of (drain_loop write_cb fuel s a buf drained).0.last_applied s)
  unfolding drain_loop is_empty
  drain_loop-stays zero s k m start a buf drained v below h = (h, below)
  drain_loop-stays (suc fuel) s k m start a [] drained v below h = (h, below)
  drain_loop-stays (suc fuel) s k m start a (e ∷ buf) drained v below h =
      let step = drain_step-Draining write_cb s start a (e ∷ buf) v in
      let outcome = drain_step-StepOutcome write_cb s start a (e ∷ buf) v in
      elim (DrainStep-cases (drain_step write_cb s a (e ∷ buf))) [
        | inl (b, c) ↦
            let same = subst (StepOutcome write_cb s a (e ∷ buf)) c outcome in
            rw (c, drain_loop) (h, omega arith)
        | inr (b, rest, c) ↦
            let (last, erased, _) = subst (StepOutcome write_cb s a (e ∷ buf)) c outcome in
            rw (c, drain_loop)
              (drain_loop-stays fuel s k m start b rest (increment drained)
                (subst (StepDraining write_cb s start (e ∷ buf)) c step) (omega arith)
                (rw erased (ground (arith, find-erase (last_of a.last_applied s + 1) k (e ∷ buf)))))
      ]

  drain_buffered-stays :
      (s : Str) (k : ℕ) (m : ApplyMessage) (a : ReplicationApplier) (buf : Map ℕ ApplyMessage)
      → IsValid a
      → k ≤ last_of a.last_applied s
      → find s a.buffer ≡ some buf
      → find k buf ≡ some m
      → (rest : Map ℕ ApplyMessage) × (find s (drain_buffered write_cb s a).0.buffer ≡ some rest)
        × (find k rest ≡ some m)
        × (k ≤ last_of (drain_buffered write_cb s a).0.last_applied s)
  unfolding drain_buffered
  drain_buffered-stays s k m a buf v below found there =
      let (stays, more) =
        drain_loop-stays (length buf) s k m a a buf 0 (Draining-start s a buf v found) below
          there in
      rw (found, drain_buffered) (put_back-stays s k m _ _ stays more)

  module _ (satellite_cb : Str → Bool) where
    -- If the next message of a shard was buffered and its write failed when the buffer was drained,
    -- and it is then delivered again and written, its entry stays in the buffer though it is applied.
    pub apply_message-stale :
        (a : ReplicationApplier) (msg m : ApplyMessage) (buf : Map ℕ ApplyMessage)
        → IsValid a
        → satellite_cb msg.shard_id ≡ false
        → msg.sequence ≡ last_applied_sequence a msg.shard_id + 1
        → msg.sequence < u64_mod
        → find msg.shard_id a.buffer ≡ some buf
        → find msg.sequence buf ≡ some m
        → write_cb a.writes msg ≡ 0
        → (rest : Map ℕ ApplyMessage) × (find msg.shard_id
              (apply_message write_cb satellite_cb a msg).0.buffer
            ≡ some rest)
          × (find msg.sequence rest ≡ some m)
          × (msg.sequence
              ≤ last_applied_sequence (apply_message write_cb satellite_cb a msg).0 msg.shard_id)
    unfolding apply_message apply_locked write_message last_applied_sequence
    apply_message-stale a msg m buf v ours next small found there ok =
        let done : (write_cb a.writes msg == 0) ≡ true = rw ok in
        let new : leb msg.sequence (last_of a.last_applied msg.shard_id) ≡ false = ground arith in
        let own : (msg.sequence == increment (last_of a.last_applied msg.shard_id)) ≡ true =
          ground arith in
        rw (ours, new, own, done)
          (drain_buffered-stays msg.shard_id msg.sequence m (wrote a msg (write_cb a.writes msg))
            buf (wrote-IsValid write_cb a msg v next small done)
            (ground (
              arith,
              last_of-insert a.last_applied msg.shard_id msg.shard_id msg.sequence,
              str_eq_iff msg.shard_id msg.shard_id,
            ))
            found there)

    apply_locked-old :
        (a : ReplicationApplier) (msg : ApplyMessage)
        → (satellite_cb msg.shard_id ≡ true) ⊎ (msg.sequence ≤ last_of a.last_applied msg.shard_id)
        → Unmoved a (apply_locked write_cb satellite_cb a msg).0
          × ((apply_locked write_cb satellite_cb a msg).1 ≡ 0)
    unfolding apply_locked
    apply_locked-old a msg old = ground arith

    apply_each-old :
        (a : ReplicationApplier) (messages : List ApplyMessage)
        → AllOld satellite_cb a messages
        → Unmoved a (apply_each write_cb satellite_cb a messages)
    unfolding apply_each
    apply_each-old a [] old = record {
      writes = refl;
      last_applied = refl;
      buffer = refl;
      total = refl;
    }
    apply_each-old a (msg ∷ messages) (old, rest) =
        let (step, done) = apply_locked-old a msg old in
        let b = (apply_locked write_cb satellite_cb a msg).0 in
        rw done (
          trans-Unmoved a b (apply_each write_cb satellite_cb b messages) step (
            apply_each-old b messages
              (moved-AllOld satellite_cb a b messages step.last_applied rest)))

    -- A batch of messages that are applied already, or of satellites, writes nothing, moves no number
    -- and buffers nothing, and the returned count is 0.
    pub apply_batch-replay :
        (a : ReplicationApplier) (messages : List ApplyMessage)
        → AllOld satellite_cb a messages
        → Unmoved a (apply_batch write_cb satellite_cb a messages).0
          × ((apply_batch write_cb satellite_cb a messages).1 ≡ 0)
    unfolding apply_batch
    apply_batch-replay a messages old =
        let same = apply_each-old a messages old in (same, rw same.total (omega arith))
