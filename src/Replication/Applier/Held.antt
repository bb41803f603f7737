-- ===== src/Replication/Applier/Held.antt =====
-- ReplicationApplier: a message that is applied or buffered stays so through each operation.
use open_arango_dbcore.Prelude.{
  ℕ, ◌+◌, ◌≤◌, ◌<◌, ◌≡◌, ◌⊎◌, subst, refl, ap, ◌∙◌, sym, false, some, List, [], ◌∷◌, ◌==◌, length,
  u64_mod, Str, str_key, nat_key, str_eq, str_eq_iff, Map, find, insert, find-insert,
  find-insert_self, find-erase, arith, Bool-cases, Option-cases, inl, inr,
}
use open_arango_dbcore.Replication.Applier.{
  ApplyMessage, ReplicationApplier, last_of, is_empty, drain_loop, put_back, drain_buffered,
  buffer_message, write_message, wrote,
}
use open_arango_dbcore.Replication.Applier.Invariant.{IsValid, last_of-insert}
use open_arango_dbcore.Replication.Applier.Drain.{Draining, drain_loop-Draining}
use open_arango_dbcore.Replication.Applier.Order.{wrote-IsValid}
use open_arango_dbcore.Replication.Applier.Progress.{Waits, drain_loop-Waits}

-- Number `k` of the shard is applied, or is in the shard's buffer.
abbrev pub Held : Str → ℕ → ReplicationApplier → Type 0
Held s k a =
    (k ≤ last_of a.last_applied s)
    ⊎ ((buf : Map ℕ ApplyMessage) × (find s a.buffer ≡ some buf)
        × ((m : ApplyMessage) × (find k buf ≡ some m)))

pub Held-Waits :
    (s : Str) (k : ℕ) (a : ReplicationApplier) (buf : Map ℕ ApplyMessage)
    → find s a.buffer ≡ some buf
    → Held s k a
    → Waits s k a buf
Held-Waits s k a buf h (inl applied) = inl applied
Held-Waits s k a buf h (inr (other, g, (m, found))) =
    let same : other ≡ buf = ground arith in inr (m, rw (← same) found)

pub put_back-Held :
    (s : Str) (k : ℕ) (a : ReplicationApplier) (buf : Map ℕ ApplyMessage)
    → Waits s k a buf
    → Held s k (put_back s a buf)
unfolding put_back is_empty find
put_back-Held s k a [] (inl applied) = inl applied
put_back-Held s k a (e ∷ buf) (inl applied) = inl applied
put_back-Held s k a [] (inr (m, found)) = cc
put_back-Held s k a (e ∷ buf) (inr (m, found)) =
    inr (e ∷ buf, find-insert_self s (e ∷ buf) a.buffer, (m, found))

-- The start of the loop over a shard's buffer.
pub Draining-start :
    (s : Str) (a : ReplicationApplier) (buf : Map ℕ ApplyMessage)
    → IsValid a
    → find s a.buffer ≡ some buf
    → Draining s a a buf
Draining-start s a buf v h = record {
  in_order = v.in_order;
  others = λ u k. refl;
  same_buffer = refl;
  own_buffer = v.buffers s buf h;
}

pub put_back-other :
    (s u : Str) (a : ReplicationApplier) (buf : Map ℕ ApplyMessage)
    → str_eq s u ≡ false
    → (find u (put_back s a buf).buffer ≡ find u a.buffer)
      × ((put_back s a buf).last_applied ≡ a.last_applied)
unfolding put_back is_empty
put_back-other s u a [] h = (ground (arith, find-erase s u a.buffer), refl)
put_back-other s u a (e ∷ buf) h = (ground (arith, find-insert s u (e ∷ buf) a.buffer), refl)

module _ (write_cb : List (ApplyMessage × ℕ) → ApplyMessage → ℕ) where
  -- Draining one shard leaves the others alone.
  pub drain_buffered-other :
      (s u : Str) (a : ReplicationApplier)
      → IsValid a
      → str_eq s u ≡ false
      → (find u (drain_buffered write_cb s a).0.buffer ≡ find u a.buffer)
        × (last_of (drain_buffered write_cb s a).0.last_applied u ≡ last_of a.last_applied u)
  unfolding drain_buffered
  drain_buffered-other s u a v h = elim (Option-cases (find s a.buffer)) [
    | inl none_yet ↦ rw (none_yet, drain_buffered) (refl, refl)
    | inr (buf, found) ↦
        let d =
          drain_loop-Draining write_cb (length buf) s a a buf 0 (Draining-start s a buf v found) in
        let b = drain_loop write_cb (length buf) s a buf 0 in
        let (same, last) = put_back-other s u b.0 b.1 h in
        rw (found, drain_buffered)
          (
            same ∙ ap (λ (m : Map Str (Map ℕ ApplyMessage)). find u m) d.same_buffer,
            ap (λ (m : Map Str ℕ). last_of m u) last ∙ d.others u h,
          )
  ]

  drain_buffered-own :
      (s : Str) (k : ℕ) (a : ReplicationApplier)
      → IsValid a
      → Held s k a
      → Held s k (drain_buffered write_cb s a).0
  unfolding drain_buffered
  drain_buffered-own s k a v w = elim (Option-cases (find s a.buffer)) [
    | inl none_yet ↦ rw (none_yet, drain_buffered) w
    | inr (buf, found) ↦
        rw (found, drain_buffered)
          (put_back-Held s k _ _ (
            drain_loop-Waits write_cb (length buf) s k a a buf 0 (Draining-start s a buf v found)
              (Held-Waits s k a buf found w)))
  ]

  pub same-Held :
      (s : Str) (k : ℕ) (a b : ReplicationApplier)
      → find s b.buffer ≡ find s a.buffer
      → last_of b.last_applied s ≡ last_of a.last_applied s
      → Held s k a
      → Held s k b
  same-Held s k a b hb hl (inl applied) = inl (omega arith)
  same-Held s k a b hb hl (inr (buf, found, m)) = inr (buf, hb ∙ found, m)

  pub drain_buffered-Held :
      (s t : Str) (k : ℕ) (a : ReplicationApplier)
      → IsValid a
      → Held s k a
      → Held s k (drain_buffered write_cb t a).0
  drain_buffered-Held s t k a v w = elim (Bool-cases (str_eq t s)) [
    | inl here ↦
        subst (λ t. Held s k (drain_buffered write_cb t a).0) (sym ((str_eq_iff t s).0 here))
          (drain_buffered-own s k a v w)
    | inr other ↦
        let (same, last) = drain_buffered-other t s a v other in
        same-Held s k a (drain_buffered write_cb t a).0 same last w
  ]

  insert-some :
      (k j : ℕ) (msg m : ApplyMessage) (buf : Map ℕ ApplyMessage)
      → find k buf ≡ some m
      → (m' : ApplyMessage) × (find k (insert j msg buf) ≡ some m')
  insert-some k j msg m buf h = elim (Bool-cases (j == k)) [
    | inl here ↦ (msg, ground (arith, find-insert j k msg buf))
    | inr other ↦ (m, ground (arith, find-insert j k msg buf))
  ]

  pub buffer_message-Held :
      (s : Str) (k : ℕ) (a : ReplicationApplier) (msg : ApplyMessage)
      → Held s k a
      → Held s k (buffer_message a msg)
  unfolding buffer_message
  buffer_message-Held s k a msg (inl applied) = inl (ground arith)
  buffer_message-Held s k a msg (inr (buf, found, (m, there))) =
      elim (Bool-cases (str_eq msg.shard_id s)) [
        | inl here ↦
            let same = (str_eq_iff msg.shard_id s).0 here in
            let old : find msg.shard_id a.buffer ≡ some buf = rw same found in
            rw (old, buffer_message)
              (inr (
                insert msg.sequence msg buf,
                ground (arith, find-insert msg.shard_id s (insert msg.sequence msg buf) a.buffer),
                insert-some k msg.sequence msg m buf there,
              ))
        | inr other ↦ elim (Option-cases (find msg.shard_id a.buffer)) [
          | inl new ↦
              rw (new, buffer_message)
                (inr (
                  buf,
                  ground (arith, find-insert msg.shard_id s (insert msg.sequence msg []) a.buffer),
                  (m, there),
                ))
          | inr (mine, old) ↦
              rw (old, buffer_message)
                (inr (
                  buf,
                  ground
                      (arith, find-insert msg.shard_id s (insert msg.sequence msg mine) a.buffer),
                  (m, there),
                ))
        ]
      ]

  pub buffer_message-takes :
      (a : ReplicationApplier) (msg : ApplyMessage)
      → Held msg.shard_id msg.sequence (buffer_message a msg)
  unfolding buffer_message
  buffer_message-takes a msg = elim (Option-cases (find msg.shard_id a.buffer)) [
    | inl new ↦
        rw (new, buffer_message)
          (inr (
            _,
            find-insert_self msg.shard_id _ a.buffer,
            (msg, find-insert_self msg.sequence msg []),
          ))
    | inr (buf, old) ↦
        rw (old, buffer_message)
          (inr (
            _,
            find-insert_self msg.shard_id _ a.buffer,
            (msg, find-insert_self msg.sequence msg buf),
          ))
  ]

  pub wrote-Held :
      (s : Str) (k : ℕ) (a : ReplicationApplier) (msg : ApplyMessage) (rc : ℕ)
      → msg.sequence ≡ last_of a.last_applied msg.shard_id + 1
      → Held s k a
      → Held s k (wrote a msg rc)
  wrote-Held s k a msg rc next (inl applied) = inl (
      ground (
        arith,
        last_of-insert a.last_applied msg.shard_id s msg.sequence,
        str_eq_iff msg.shard_id s,
      ))
  wrote-Held s k a msg rc next (inr found) = inr found

  pub write_message-Held :
      (s : Str) (k : ℕ) (a : ReplicationApplier) (msg : ApplyMessage)
      → IsValid a
      → msg.sequence ≡ last_of a.last_applied msg.shard_id + 1
      → msg.sequence < u64_mod
      → Held s k a
      → Held s k (write_message write_cb a msg).0
  unfolding write_message
  write_message-Held s k a msg v next small w = elim (Bool-cases (write_cb a.writes msg == 0)) [
    | inl done ↦
        rw (done, write_message)
          (drain_buffered-Held s msg.shard_id k _ (wrote-IsValid write_cb a msg v next small done)
            (wrote-Held s k a msg (write_cb a.writes msg) next w))
    | inr failed ↦ rw (failed, write_message) w
  ]

  pub write_message-takes :
      (a : ReplicationApplier) (msg : ApplyMessage)
      → IsValid a
      → msg.sequence ≡ last_of a.last_applied msg.shard_id + 1
      → msg.sequence < u64_mod
      → (write_message write_cb a msg).1 ≡ 0
      → Held msg.shard_id msg.sequence (write_message write_cb a msg).0
  unfolding write_message
  write_message-takes a msg v next small zero_code =
      elim (Bool-cases (write_cb a.writes msg == 0)) [
        | inl done ↦
            rw (done, write_message)
              (drain_buffered-Held msg.shard_id msg.shard_id msg.sequence _
                (wrote-IsValid write_cb a msg v next small done)
                (inl (
                  ground (
                    arith,
                    last_of-insert a.last_applied msg.shard_id msg.shard_id msg.sequence,
                    str_eq_iff msg.shard_id msg.shard_id,
                  ))))
        | inr failed ↦ absurd (ground arith)
      ]
