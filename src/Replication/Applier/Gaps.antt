-- ===== src/Replication/Applier/Gaps.antt =====
-- ReplicationApplier: if no write fails, the number after the last applied one is never buffered.
use open_arango_dbcore.Prelude.{
  ℕ, ◌+◌, ◌<◌, ◌≡◌, subst, refl, ◌∙◌, sym, Bool, true, false, none, some, List, [], ◌∷◌, leb, ◌==◌,
  length, u64_mod, Str, str_key, nat_key, str_eq, str_eq_iff, Map, find, insert, find-insert,
  find-erase, arith, Bool-cases, Option-cases, inl, inr,
}
use open_arango_dbcore.Replication.Applier.{
  ApplyMessage, ReplicationApplier, increment, last_of, is_empty, put_back, drain_buffered,
  buffer_message, write_message, wrote, apply_locked,
}
use open_arango_dbcore.Replication.Applier.Invariant.{IsValid, last_of-insert}
use open_arango_dbcore.Replication.Applier.Order.{wrote-IsValid, next_number}
use open_arango_dbcore.Replication.Applier.Progress.{drain_loop-gap}
use open_arango_dbcore.Replication.Applier.Held.{Draining-start, drain_buffered-other}

-- The next number of the shard is not in its buffer.
abbrev pub Gapped : Str → ReplicationApplier → Type 0
Gapped s a =
    (buf : Map ℕ ApplyMessage)
    → find s a.buffer ≡ some buf
    → find (increment (last_of a.last_applied s)) buf ≡ none

put_back-Gapped :
    (s : Str) (a : ReplicationApplier) (buf : Map ℕ ApplyMessage)
    → find (increment (last_of a.last_applied s)) buf ≡ none
    → Gapped s (put_back s a buf)
unfolding put_back is_empty
put_back-Gapped s a [] gap =
    λ rest h. absurd (ground (arith, find-erase s s a.buffer, str_eq_iff s s))
put_back-Gapped s a (e ∷ buf) gap = λ rest h.
    let same : rest ≡ e ∷ buf =
      ground (arith, find-insert s s (e ∷ buf) a.buffer, str_eq_iff s s) in
    rw same gap

same-Gapped :
    (s : Str) (a b : ReplicationApplier)
    → find s b.buffer ≡ find s a.buffer
    → last_of b.last_applied s ≡ last_of a.last_applied s
    → Gapped s a
    → Gapped s b
same-Gapped s a b hb hl g = λ buf h. rw hl (g buf (sym hb ∙ h))

stored-Gapped :
    (s t : Str) (a : ReplicationApplier) (buf : Map ℕ ApplyMessage)
    → (s ≡ t → find (increment (last_of a.last_applied s)) buf ≡ none)
    → Gapped s a
    → Gapped s (record a { buffer = insert t buf a.buffer })
stored-Gapped s t a buf gap g = λ rest h. elim (Bool-cases (str_eq t s)) [
  | inl here ↦
      let same : rest ≡ buf = ground (arith, find-insert t s buf a.buffer) in
      rw same (gap (sym ((str_eq_iff t s).0 here)))
  | inr other ↦ g rest (ground (arith, find-insert t s buf a.buffer))
]

early-gap :
    (s : Str) (a : ReplicationApplier) (msg : ApplyMessage) (buf : Map ℕ ApplyMessage)
    → (msg.sequence == increment (last_of a.last_applied msg.shard_id)) ≡ false
    → find (increment (last_of a.last_applied s)) buf ≡ none
    → s ≡ msg.shard_id
    → find (increment (last_of a.last_applied s)) (insert msg.sequence msg buf) ≡ none
early-gap s a msg buf early gap same =
    let other : (msg.sequence == increment (last_of a.last_applied s)) ≡ false = rw same early in
    ground (arith, find-insert msg.sequence (increment (last_of a.last_applied s)) msg buf)

buffer_message-Gapped :
    (s : Str) (a : ReplicationApplier) (msg : ApplyMessage)
    → (msg.sequence == increment (last_of a.last_applied msg.shard_id)) ≡ false
    → Gapped s a
    → Gapped s (buffer_message a msg)
unfolding buffer_message find
buffer_message-Gapped s a msg early g = elim (Option-cases (find msg.shard_id a.buffer)) [
  | inl new ↦
      rw (new, buffer_message)
        (stored-Gapped s msg.shard_id a (insert msg.sequence msg [])
          (early-gap s a msg [] early refl) g)
  | inr (buf, old) ↦
      rw (old, buffer_message)
        (stored-Gapped s msg.shard_id a (insert msg.sequence msg buf)
          (λ same. early-gap s a msg buf early (g buf (rw same old)) same) g)
]

module _ (write_cb : List (ApplyMessage × ℕ) → ApplyMessage → ℕ)
    (ok : (writes : List (ApplyMessage × ℕ)) (m : ApplyMessage) → write_cb writes m ≡ 0) where
  drain_buffered-Gapped_own :
      (s : Str) (a : ReplicationApplier) → IsValid a → Gapped s (drain_buffered write_cb s a).0
  unfolding drain_buffered
  drain_buffered-Gapped_own s a v = elim (Option-cases (find s a.buffer)) [
    | inl none_yet ↦ rw (none_yet, drain_buffered) (λ buf h. absurd (ground arith))
    | inr (buf, found) ↦
        rw (found, drain_buffered)
          (put_back-Gapped s _ _ (
            drain_loop-gap write_cb ok (length buf) s a a buf 0 (omega arith)
              (Draining-start s a buf v found)))
  ]

  write_message-Gapped :
      (s : Str) (a : ReplicationApplier) (msg : ApplyMessage)
      → IsValid a
      → msg.sequence ≡ last_of a.last_applied msg.shard_id + 1
      → msg.sequence < u64_mod
      → Gapped s a
      → Gapped s (write_message write_cb a msg).0
  unfolding write_message
  write_message-Gapped s a msg v next small g =
      let done : (write_cb a.writes msg == 0) ≡ true = rw (ok a.writes msg) in
      let w = wrote-IsValid write_cb a msg v next small done in
      rw (done, write_message)
        (elim (Bool-cases (str_eq msg.shard_id s)) [
          | inl here ↦
              subst
                (λ t.
                  Gapped t
                    (drain_buffered write_cb msg.shard_id (wrote a msg (write_cb a.writes msg))).0)
                ((str_eq_iff msg.shard_id s).0 here)
                (drain_buffered-Gapped_own msg.shard_id (wrote a msg (write_cb a.writes msg)) w)
          | inr other ↦
              let (same, last) =
                drain_buffered-other write_cb msg.shard_id s (wrote a msg (write_cb a.writes msg)) w
                  other in
              same-Gapped s a
                (drain_buffered write_cb msg.shard_id (wrote a msg (write_cb a.writes msg))).0 same
                (last ∙ ground (arith, last_of-insert a.last_applied msg.shard_id s msg.sequence)) g
        ])

  module _ (satellite_cb : Str → Bool) where
    pub apply_locked-zero :
        (a : ReplicationApplier) (msg : ApplyMessage)
        → (apply_locked write_cb satellite_cb a msg).1 ≡ 0
    unfolding apply_locked write_message
    apply_locked-zero a msg = ground (arith, ok a.writes msg)

    pub apply_locked-Gapped :
        (s : Str) (a : ReplicationApplier) (msg : ApplyMessage)
        → IsValid a
        → msg.sequence < u64_mod
        → Gapped s a
        → Gapped s (apply_locked write_cb satellite_cb a msg).0
    unfolding apply_locked
    apply_locked-Gapped s a msg v small g = elim (Bool-cases (satellite_cb msg.shard_id)) [
      | inl satellite ↦ rw satellite g
      | inr ours ↦ elim (Bool-cases (leb msg.sequence (last_of a.last_applied msg.shard_id))) [
        | inl duplicate ↦ rw (ours, duplicate) g
        | inr new ↦
            elim (Bool-cases (msg.sequence == increment (last_of a.last_applied msg.shard_id))) [
              | inr early ↦ rw (ours, new, early) (buffer_message-Gapped s a msg early g)
              | inl next ↦
                  rw (ours, new, next)
                    (write_message-Gapped s a msg v (next_number a msg v new next) small g)
            ]
      ]
    ]
