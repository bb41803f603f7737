-- ===== src/Replication/Replicator/Delivery.antt =====
-- The tail loop of DC2DCReplicator.cpp hands over every entry of its shard.
use open_arango_dbcore.Prelude.{
  ℕ, zero, suc, ◌+◌, ◌≤◌, ◌<◌, ◌≡◌, ◌⊎◌, refl, sym, ap, ◌∙◌, subst, Bool, false, Option,
  Option-cases, Bool-cases, ltb, not, ◌&&◌, inl, inr, List, [], ◌∷◌, ◌++◌, append_assoc, append_nil,
  length, length-drop, take, drop, drop-drop, take-add, length-take, Str, arith,
}
use open_arango_dbcore.Replication.Tailing.{
  WalEntry, WalIterator, Resolver, ShardWalTailer, poll, poll_loop, poll_step,
}
use open_arango_dbcore.Replication.Tailing.Cache.{poll_step-stopped}
use open_arango_dbcore.Replication.Tailing.Polling.{
  wanted_entries, Following, Polled, poll-Polled, wanted_entries-append, length-wanted_entries,
}
use open_arango_dbcore.Replication.Batching.{
  Surroundings, MessageBatch, MessageBatcher, add, flush, seal,
}
use open_arango_dbcore.Replication.Batching.Keeping.{
  batches, entries_of, entries_of-append, add-keeps, flush-keeps,
}
use open_arango_dbcore.Replication.Replicator.{
  ShardTail, entries_loop, flush_tail, handle_entries, tail_pass, shard_tail_loop,
}
use open_arango_dbcore.Replication.Lag.{record_entry}

-- What was handed over and what is pending, in order.
unfoldable pub held : {I W : Type 0} → ShardTail I W → List WalEntry
held s = entries_of s.sent ++ s.batcher.pending

-- A step of the batcher that gives out what it takes in gives it to the transport.
held-step :
    {I W : Type 0} (s : ShardTail I W) (msg : Option MessageBatch) (batcher : MessageBatcher)
    (whole : List WalEntry)
    → entries_of (batches msg) ++ batcher.pending ≡ whole
    → entries_of (s.sent ++ batches msg) ++ batcher.pending ≡ entries_of s.sent ++ whole
held-step s msg batcher whole kept =
    ap (λ t. t ++ batcher.pending) (entries_of-append s.sent (batches msg))
    ∙ append_assoc (entries_of s.sent) (entries_of (batches msg)) batcher.pending
    ∙ ap (λ t. entries_of s.sent ++ t) kept

module _ {I W : Type 0} (wal : WalIterator I) (resolver : Resolver) (around : Surroundings W) where
  entries_loop-held :
      (shard_id : Str) (entries : List WalEntry) (s : ShardTail I W)
      → (held (entries_loop wal resolver around shard_id entries s) ≡ held s ++ entries)
        × ((entries_loop wal resolver around shard_id entries s).tailer ≡ s.tailer)
  unfolding entries_loop held
  entries_loop-held shard_id [] s = (sym (append_nil (held s)), refl)
  entries_loop-held shard_id (e ∷ rest) s =
      let (world, batcher, msg) = add around s.world s.batcher e in
      let after : ShardTail I W = record s {
        monitor = record_entry s.monitor shard_id e.timestamp;
        world = world;
        batcher = batcher;
        sent = s.sent ++ batches msg;
      } in
      let later = entries_loop-held shard_id rest after in
      (
        later.0
            ∙ ap (λ t. t ++ rest)
                (held-step s msg batcher (s.batcher.pending ++ e ∷ [])
                    (add-keeps around s.world s.batcher e).0
                  ∙ sym (append_assoc (entries_of s.sent) s.batcher.pending (e ∷ [])))
            ∙ append_assoc (held s) (e ∷ []) rest,
        later.1,
      )

  flush_tail-held :
      (s : ShardTail I W)
      → (held (flush_tail wal resolver around s) ≡ held s)
        × ((flush_tail wal resolver around s).batcher.pending ≡ [])
        × ((flush_tail wal resolver around s).tailer ≡ s.tailer)
  unfolding flush_tail held flush seal entries_of
  flush_tail-held s = (
    held-step s (flush around s.world s.batcher).2 (flush around s.world s.batcher).1
        s.batcher.pending (flush-keeps around s.world s.batcher).0,
    (flush-keeps around s.world s.batcher).1,
    refl,
  )

  handle_entries-held :
      (shard_id : Str) (entries : List WalEntry) (s : ShardTail I W)
      → (held (handle_entries wal resolver around shard_id entries s) ≡ held s ++ entries)
        × ((handle_entries wal resolver around shard_id entries s).tailer ≡ s.tailer)
  unfolding handle_entries
  handle_entries-held shard_id [] s =
      let looped = entries_loop-held shard_id [] s in
      let flushed = flush_tail-held (entries_loop wal resolver around shard_id [] s) in
      (flushed.0 ∙ looped.0, flushed.2 ∙ looped.1)
  handle_entries-held shard_id (e ∷ rest) s = entries_loop-held shard_id (e ∷ rest) s

  poll_loop-stopped :
      (fuel : ℕ) (stops : ℕ → Bool) (k max_entries : ℕ) (t : ShardWalTailer I)
      (before : List WalEntry)
      → (poll_loop wal resolver fuel stops k max_entries t before).0.stopped ≡ t.stopped
  unfolding poll_loop
  poll_loop-stopped zero stops k max_entries t before = refl
  poll_loop-stopped (suc fuel) stops k max_entries t before =
      elim (Bool-cases (wal.valid t.iterator && not (stops k) && ltb (length before) max_entries)) [
        | inr over ↦ rw (over, poll_loop) refl
        | inl more ↦
            let examined = (poll_step wal resolver t).0 in
            elim (Option-cases (poll_step wal resolver t).1) [
              | inl skipped ↦
                  rw (more, skipped, poll_loop)
                    (poll_loop-stopped fuel stops (suc k) max_entries examined before
                      ∙ poll_step-stopped wal resolver t)
              | inr (e, yielded) ↦
                  rw (more, yielded, poll_loop)
                    (poll_loop-stopped fuel stops (suc k) max_entries examined (before ++ e ∷ [])
                      ∙ poll_step-stopped wal resolver t)
            ]
      ]

  -- The thread has worked off the log's first `done` entries: all of them, or at least `passes`.
  pub data Working (shard shards passes : ℕ) (log : List WalEntry) (s : ShardTail I W)
      : Type 0 where
    working :
        (done : ℕ)
        → done ≤ length log
        → Following wal resolver shard shards (drop done log) s.tailer
        → s.tailer.stopped ≡ false
        → held s ≡ wanted_entries resolver shard shards (take done log)
        → (done ≡ length log) ⊎ (passes ≤ done)
        → Working shard shards passes log s

  tail_pass-Working :
      (fuel shard shards batch_size passes : ℕ) (shard_id : Str) (log : List WalEntry)
      (s : ShardTail I W)
      → length log ≤ fuel
      → 0 < batch_size
      → Working shard shards passes log s
      → Working shard shards
          (suc passes)
          log
          (tail_pass wal resolver around fuel shard_id batch_size s)
  unfolding tail_pass poll held
  tail_pass-Working fuel shard shards batch_size passes shard_id log s enough some_size
        (working done within follows running before far) =
      let polled : Polled wal resolver shard shards (λ k. s.tailer.stopped) 0 batch_size
          s.tailer.last_processed_seq [] (drop done log)
          (poll wal resolver fuel (λ k. s.tailer.stopped) batch_size s.tailer) =
        poll-Polled wal resolver shard shards fuel (λ k. s.tailer.stopped) batch_size s.tailer
          (drop done log) follows (omega (arith, enough, length-drop done log)) in
      let entries : List WalEntry =
        (poll wal resolver fuel (λ k. s.tailer.stopped) batch_size s.tailer).1 in
      let next : ShardTail I W = record s {
        tailer = (poll wal resolver fuel (λ k. s.tailer.stopped) batch_size s.tailer).0;
      } in
      let after = handle_entries-held shard_id entries next in
      working (done + polled.examined) (omega (arith, within, polled.in_log, length-drop done log))
        (rw after.1 (
          subst (λ rest. Following wal resolver shard shards rest next.tailer)
            (drop-drop polled.examined done log) polled.follows))
        (ap (λ t. t.stopped) after.1
          ∙ poll_loop-stopped fuel (λ k. s.tailer.stopped) 0 batch_size s.tailer []
          ∙ running)
        (after.0
          ∙ ap (λ t. t ++ entries) before
          ∙ ap (λ t. wanted_entries resolver shard shards (take done log) ++ t) polled.result
          ∙ sym (
              wanted_entries-append resolver shard shards (take done log)
                (take polled.examined (drop done log)))
          ∙ ap (wanted_entries resolver shard shards) (take-add done polled.examined log))
        (elim polled.ended [
          | inl all ↦ inl (omega (arith, all, within, length-drop done log))
          | inr (inl asked) ↦ absurd (ground (arith, asked, running))
          | inr (inr full) ↦
              let some_examined : batch_size ≤ polled.examined = omega (
                arith,
                ap length (sym polled.result) ∙ full,
                length-wanted_entries resolver shard shards (take polled.examined (drop done log)),
                length-take polled.examined (drop done log),
              ) in
              elim far [
                | inl all ↦ absurd (
                    omega
                      (arith, some_examined, some_size, polled.in_log, length-drop done log, all))
                | inr far_enough ↦ inr (omega (arith, some_examined, some_size, far_enough))
              ]
        ])

  pub shard_tail_loop-Working :
      (fuel passes shard shards batch_size begun : ℕ) (shard_id : Str) (log : List WalEntry)
      (s : ShardTail I W)
      → length log ≤ fuel
      → 0 < batch_size
      → Working shard shards begun log s
      → Working shard shards
          (begun + passes)
          log
          (shard_tail_loop wal resolver around fuel passes shard_id batch_size s)
        × ((shard_tail_loop wal resolver around fuel passes shard_id batch_size s).batcher.pending
            ≡ [])
  unfolding shard_tail_loop
  shard_tail_loop-Working fuel zero shard shards batch_size begun shard_id log s enough some_size
        (working done within follows running before far) =
      let flushed = flush_tail-held s in
      (
        working done within (rw flushed.2 follows) (ap (λ t. t.stopped) flushed.2 ∙ running)
            (flushed.0 ∙ before)
            (elim far [ inl all ↦ inl all | inr far_enough ↦ inr (omega (arith, far_enough)) ]),
        flushed.1,
      )
  shard_tail_loop-Working fuel (suc passes) shard shards batch_size begun shard_id log s enough
        some_size start =
      let later =
        shard_tail_loop-Working fuel passes shard shards batch_size (suc begun) shard_id log
          (tail_pass wal resolver around fuel shard_id batch_size s) enough some_size
          (tail_pass-Working fuel shard shards batch_size begun shard_id log s enough some_size
            start) in
      (
        subst
            (λ n.
              Working shard shards n log
                (shard_tail_loop wal resolver around fuel (suc passes) shard_id batch_size s))
            (omega arith) later.0,
        later.1,
      )
