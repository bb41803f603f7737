-- ===== src/Replication/Sequence/Replay.antt =====
-- SequenceNumberTracker and IdempotencyChecker: a message that was applied is never applied again.
use open_arango_dbcore.Prelude.{
  ℕ, ◌+◌, ◌≤◌, ◌<◌, ◌≡◌, ◌↔◌, true, List, [], ◌∷◌, none, arith, u64_mod, leb, max, Str, str_key,
  str_eq, str_eq_iff, find, find-insert, if◌then◌else◌, inl, inr, Option-cases,
}
use open_arango_dbcore.Replication.Sequence.{
  SequenceNumberTracker, DirectMqMessage, is_already_applied, mark_applied, last_applied_sequence,
  accepted, rejected, out_of_order, check, accept,
}

-- A mark raises the shard's last sequence to the maximum, and leaves the other shards alone.
pub mark_applied-last :
    (t : SequenceNumberTracker) (s u : Str) (seq : ℕ)
    → last_applied_sequence (mark_applied t s seq) u
      ≡ (if str_eq s u then max (last_applied_sequence t s) seq else last_applied_sequence t u)
unfolding mark_applied last_applied_sequence
mark_applied-last t s u seq = elim (Option-cases (find s t.last_applied)) [
  | inl new ↦ rw (new, mark_applied) (ground (arith, find-insert s u seq t.last_applied))
  | inr (last, old) ↦
      rw (old, mark_applied) (ground (arith, find-insert s u (max last seq) t.last_applied))
]

applied-le :
    (t : SequenceNumberTracker) (s : Str) (k : ℕ)
    → is_already_applied t s k ≡ true
    → k ≤ last_applied_sequence t s
unfolding is_already_applied last_applied_sequence
applied-le t s k h = ground arith

applied-leb :
    (t : SequenceNumberTracker) (s : Str) (k : ℕ)
    → 1 ≤ k
    → is_already_applied t s k ≡ leb k (last_applied_sequence t s)
unfolding is_already_applied last_applied_sequence
applied-leb t s k h = ground arith

-- So does it decide what counts as applied.
pub mark_applied-applied :
    (t : SequenceNumberTracker) (s u : Str) (seq k : ℕ)
    → is_already_applied (mark_applied t s seq) u k ≡ (
        if str_eq s u
        then leb k (max (last_applied_sequence t s) seq)
        else is_already_applied t u k)
unfolding mark_applied last_applied_sequence is_already_applied
mark_applied-applied t s u seq k = elim (Option-cases (find s t.last_applied)) [
  | inl new ↦ rw (new, mark_applied) (ground (arith, find-insert s u seq t.last_applied))
  | inr (last, old) ↦
      rw (old, mark_applied) (ground (arith, find-insert s u (max last seq) t.last_applied))
]

mark_applied-keeps :
    (t : SequenceNumberTracker) (s u : Str) (seq k : ℕ)
    → is_already_applied t u k ≡ true
    → is_already_applied (mark_applied t s seq) u k ≡ true
mark_applied-keeps t s u seq k h =
    ground (arith, mark_applied-applied t s u seq k, str_eq_iff s u, applied-le t u k h)

-- From 1 on, a message is rejected exactly if its number is not above the shard's last, accepted
-- exactly if it is the next one, and out of order exactly if it is further ahead.
pub check-classifies :
    (t : SequenceNumberTracker) (msg : DirectMqMessage)
    → 1 ≤ msg.sequence
    → last_applied_sequence t msg.shard_id + 1 < u64_mod
    → ((check t msg ≡ rejected) ↔ (msg.sequence ≤ last_applied_sequence t msg.shard_id))
      × ((check t msg ≡ accepted) ↔ (msg.sequence ≡ last_applied_sequence t msg.shard_id + 1))
      × ((check t msg ≡ out_of_order) ↔ (last_applied_sequence t msg.shard_id + 1 < msg.sequence))
unfolding check
check-classifies t msg h k =
    let applied = applied-leb t msg.shard_id msg.sequence h in
    (
      ((λ e. ground (arith, applied)), (λ e. ground (arith, applied))),
      ((λ e. ground (arith, applied)), (λ e. ground (arith, applied))),
      ((λ e. ground (arith, applied)), (λ e. ground (arith, applied))),
    )

-- Number 0 is below every number that a shard can have applied, yet it passes for a shard that was
-- never seen.
pub check-zero_unseen :
    (t : SequenceNumberTracker) (msg : DirectMqMessage)
    → find msg.shard_id t.last_applied ≡ none
    → msg.sequence ≡ 0
    → (check t msg ≡ accepted) × (msg.sequence ≤ last_applied_sequence t msg.shard_id)
unfolding check is_already_applied last_applied_sequence
check-zero_unseen t msg h k = ground arith

unfoldable pub accept_all : SequenceNumberTracker → List DirectMqMessage → SequenceNumberTracker
accept_all t [] = t
accept_all t (m ∷ ms) = accept_all (accept t m) ms

accept_all-keeps :
    (t : SequenceNumberTracker) (ms : List DirectMqMessage) (s : Str) (k : ℕ)
    → is_already_applied t s k ≡ true
    → is_already_applied (accept_all t ms) s k ≡ true
unfolding accept_all accept
accept_all-keeps t [] s k h = h
accept_all-keeps t (m ∷ ms) s k h =
    accept_all-keeps (mark_applied t m.shard_id m.sequence) ms s k
      (mark_applied-keeps t m.shard_id s m.sequence k h)

accept-applied :
    (t : SequenceNumberTracker) (msg : DirectMqMessage) (s : Str) (k : ℕ)
    → s ≡ msg.shard_id
    → k ≤ msg.sequence
    → is_already_applied (accept t msg) s k ≡ true
unfolding accept
accept-applied t msg s k same below =
    ground (arith, mark_applied-applied t msg.shard_id s msg.sequence k, str_eq_iff msg.shard_id s)

-- Once a message was applied, every message of its shard with a number up to its own is rejected,
-- whatever was applied since.
pub check-accept_rejects :
    (t : SequenceNumberTracker) (msg replayed : DirectMqMessage) (later : List DirectMqMessage)
    → replayed.shard_id ≡ msg.shard_id
    → replayed.sequence ≤ msg.sequence
    → check (accept_all (accept t msg) later) replayed ≡ rejected
unfolding check
check-accept_rejects t msg replayed later same below = rw (
    accept_all-keeps (accept t msg) later replayed.shard_id replayed.sequence
      (accept-applied t msg replayed.shard_id replayed.sequence same below))
