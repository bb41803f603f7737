-- ===== src/Replication/Tailing/Polling.antt =====
-- What one `poll` of ShardWALTailer.cpp yields.
use open_arango_dbcore.Prelude.{
  ℕ, zero, suc, ◌+◌, ◌≤◌, ◌≡◌, ◌⊎◌, refl, sym, ap, ◌∙◌, subst, Bool, true, false, none, some, inl,
  inr, List, [], ◌∷◌, ◌++◌, append_assoc, append_nil, length, length-append, take, drop, ltb,
  ltb→lt, if◌then◌else◌, Bool-cases, arith,
}
use open_arango_dbcore.Replication.Tailing.{
  WalEntry, WalIterator, Resolver, ShardWalTailer, Reads, at_end, at_entry, poll, poll_loop,
  poll_step,
}
use open_arango_dbcore.Replication.Tailing.Cache.{Cached, wanted, advance, poll_step-wanted}

-- This shard's entries of a log, in its order.
unfoldable pub wanted_entries : Resolver → ℕ → ℕ → List WalEntry → List WalEntry
wanted_entries resolver shard shards [] = []
wanted_entries resolver shard shards (e ∷ log) =
    if wanted resolver shard shards e
    then e ∷ wanted_entries resolver shard shards log
    else wanted_entries resolver shard shards log

pub wanted_entries-append :
    (resolver : Resolver) (shard shards : ℕ) (a b : List WalEntry)
    → wanted_entries resolver shard shards (a ++ b)
      ≡ wanted_entries resolver shard shards a ++ wanted_entries resolver shard shards b
unfolding wanted_entries
wanted_entries-append resolver shard shards [] b = refl
wanted_entries-append resolver shard shards (e ∷ a) b =
    elim (Bool-cases (wanted resolver shard shards e)) [
      | inl yes_it_is ↦
          rw (yes_it_is, wanted_entries)
            (ap (◌∷◌ e) (wanted_entries-append resolver shard shards a b))
      | inr not_it ↦ rw (not_it, wanted_entries) (wanted_entries-append resolver shard shards a b)
    ]

pub length-wanted_entries :
    (resolver : Resolver) (shard shards : ℕ) (a : List WalEntry)
    → length (wanted_entries resolver shard shards a) ≤ length a
unfolding wanted_entries
length-wanted_entries resolver shard shards [] = omega arith
length-wanted_entries resolver shard shards (e ∷ a) =
    elim (Bool-cases (wanted resolver shard shards e)) [
      | inl yes_it_is ↦
          rw (yes_it_is, wanted_entries)
            (omega (arith, length-wanted_entries resolver shard shards a))
      | inr not_it ↦
          rw (not_it, wanted_entries) (omega (arith, length-wanted_entries resolver shard shards a))
    ]

unfoldable pub advance_all : Resolver → ℕ → ℕ → ℕ → List WalEntry → ℕ
advance_all resolver shard shards last [] = last
advance_all resolver shard shards last (e ∷ log) =
    advance_all resolver shard shards (advance (wanted resolver shard shards e) last e) log

-- The state of a tailer that has read up to `log`, for shard `shard` of `shards`.
pub record Following {I : Type 0} (wal : WalIterator I) (resolver : Resolver) (shard shards : ℕ)
    (log : List WalEntry) (t : ShardWalTailer I) : Type 0 where
  pub reads : Reads wal t.iterator log
  pub cached : Cached resolver t.info_cache
  pub own_shard : t.shard_index ≡ shard
  pub all_shards : t.number_of_shards ≡ shards

-- The first `examined` entries of the log are gone and the rest is still to read; the result is
-- what it was before and this shard's entries among those; and the loop ended at the end of the
-- log, at a request to stop, or with a full result.
pub record Polled {I : Type 0} (wal : WalIterator I) (resolver : Resolver) (shard shards : ℕ)
    (stops : ℕ → Bool) (k max_entries last : ℕ) (before log : List WalEntry)
    (out : ShardWalTailer I × List WalEntry) : Type 0 where
  pub examined : ℕ
  pub in_log : examined ≤ length log
  pub follows : Following wal resolver shard shards (drop examined log) out.0
  pub result : out.1 ≡ before ++ wanted_entries resolver shard shards (take examined log)
  pub remembers :
      out.0.last_processed_seq ≡ advance_all resolver shard shards last (take examined log)
  pub bounded : length out.1 ≤ max_entries
  pub ended : (examined ≡ length log) ⊎ (stops (k + examined) ≡ true) ⊎ (length out.1 ≡ max_entries)

splits :
    (b : Bool) (before : List WalEntry) (e : WalEntry) (after : List WalEntry)
    → (if b then before ++ e ∷ [] else before) ++ after ≡ before ++ (if b then e ∷ after else after)
splits true before e after = append_assoc before (e ∷ []) after
splits false before e after = refl

module _ {I : Type 0} (wal : WalIterator I) (resolver : Resolver) (shard shards : ℕ) where
  -- The loop ends at once.
  ends :
      (stops : ℕ → Bool) (k max_entries : ℕ) (t : ShardWalTailer I) (before log : List WalEntry)
      → Following wal resolver shard shards log t
      → length before ≤ max_entries
      → (0 ≡ length log) ⊎ (stops k ≡ true) ⊎ (length before ≡ max_entries)
      → Polled wal resolver shard shards stops k max_entries t.last_processed_seq before log
          (t, before)
  unfolding wanted_entries advance_all
  ends stops k max_entries t before log following fits why = record {
    examined = 0;
    in_log = omega arith;
    follows = following;
    result = sym (append_nil before);
    remembers = refl;
    bounded = fits;
    ended =
        subst (λ j. (0 ≡ length log) ⊎ (stops j ≡ true) ⊎ (length before ≡ max_entries))
          (omega arith) why;
  }

  -- One pass, then the rest of the loop.
  goes_on :
      (stops : ℕ → Bool) (k max_entries last : ℕ) (before : List WalEntry) (e : WalEntry)
      (log : List WalEntry) (yielded : Bool) (out : ShardWalTailer I × List WalEntry)
      → wanted resolver shard shards e ≡ yielded
      → Polled wal resolver shard shards stops
          (suc k)
          max_entries
          (advance yielded last e)
          (if yielded then before ++ e ∷ [] else before)
          log
          out
      → Polled wal resolver shard shards stops k max_entries last before (e ∷ log) out
  unfolding wanted_entries advance_all
  goes_on stops k max_entries last before e log yielded out is_wanted rest = record {
    examined = suc rest.examined;
    in_log = omega (arith, rest.in_log);
    follows = rest.follows;
    result = rw is_wanted (
        rest.result
        ∙ splits yielded before e (wanted_entries resolver shard shards (take rest.examined log)));
    remembers = rw (is_wanted, advance_all) rest.remembers;
    bounded = rest.bounded;
    ended = elim rest.ended [
      | inl all ↦ inl (omega (arith, all))
      | inr (inl asked) ↦ inr (inl (subst (λ j. stops j ≡ true) (omega arith) asked))
      | inr (inr full) ↦ inr (inr full)
    ];
  }

  follows_on :
      (t : ShardWalTailer I) (e : WalEntry) (log : List WalEntry)
      → Following wal resolver shard shards (e ∷ log) t
      → Following wal resolver shard shards log (poll_step wal resolver t).0
        × (wal.valid t.iterator ≡ true)
        × ((poll_step wal resolver t).1 ≡ (if wanted resolver shard shards e then some e else none))
        × ((poll_step wal resolver t).0.last_processed_seq
            ≡ advance (wanted resolver shard shards e) t.last_processed_seq e)
  follows_on t e log following = elim following.reads [
    | at_entry it e log ready here later ↦
        let (yielded, remembered, moved, same_shard, same_shards, cached) =
          poll_step-wanted wal resolver t e here following.cached in
        let shard_eq = following.own_shard in
        let shards_eq = following.all_shards in
        (
          record {
            reads = subst (λ it. Reads wal it log) (sym moved) later;
            cached = cached;
            own_shard = same_shard ∙ shard_eq;
            all_shards = same_shards ∙ shards_eq;
          },
          ready,
          rw (sym shard_eq, sym shards_eq) yielded,
          rw (sym shard_eq, sym shards_eq) remembered,
        )
  ]

  poll_loop-Polled :
      (fuel : ℕ) (stops : ℕ → Bool) (k max_entries : ℕ) (t : ShardWalTailer I)
      (before log : List WalEntry)
      → Following wal resolver shard shards log t
      → length log ≤ fuel
      → length before ≤ max_entries
      → Polled wal resolver shard shards stops k max_entries t.last_processed_seq before log
          (poll_loop wal resolver fuel stops k max_entries t before)
  unfolding poll_loop
  poll_loop-Polled zero stops k max_entries t before log following enough fits =
      ends stops k max_entries t before log following fits (inl (omega (arith, enough)))
  poll_loop-Polled (suc fuel) stops k max_entries t before [] following enough fits =
      elim following.reads [
        | at_end it over ↦
            rw (over, poll_loop) (ends stops k max_entries t before [] following fits (inl refl))
      ]
  poll_loop-Polled (suc fuel) stops k max_entries t before (e ∷ log) following enough fits =
      let (after, ready, yielded, remembered) = follows_on t e log following in
      elim (Bool-cases (stops k)) [
        | inl asked ↦
            rw (ready, asked, poll_loop)
              (ends stops k max_entries t before (e ∷ log) following fits (inr (inl asked)))
        | inr running ↦ elim (Bool-cases (ltb (length before) max_entries)) [
          | inr full ↦
              rw (ready, running, full, poll_loop)
                (ends stops k max_entries t before (e ∷ log) following fits
                  (inr (inr (ground (arith, full, fits)))))
          | inl room ↦ elim (Bool-cases (wanted resolver shard shards e)) [
            | inl is_wanted ↦
                let examined = (poll_step wal resolver t).0 in
                let out : (poll_step wal resolver t).1 ≡ some e = yielded ∙ rw is_wanted refl in
                let kept : examined.last_processed_seq ≡ advance true t.last_processed_seq e =
                  remembered ∙ rw is_wanted refl in
                rw (ready, running, room, out, poll_loop)
                  (goes_on stops k max_entries t.last_processed_seq before e log true
                    (poll_loop wal resolver fuel stops (suc k) max_entries examined
                      (before ++ e ∷ []))
                    is_wanted
                    (subst
                      (λ l.
                        Polled wal resolver shard shards stops (suc k) max_entries l
                          (before ++ e ∷ []) log
                          (poll_loop wal resolver fuel stops (suc k) max_entries examined
                            (before ++ e ∷ [])))
                      kept
                      (poll_loop-Polled fuel stops (suc k) max_entries examined (before ++ e ∷ [])
                        log after (omega (arith, enough))
                        (omega (
                          arith,
                          ltb→lt (length before) max_entries room,
                          length-append before (e ∷ []),
                        )))))
            | inr skipped ↦
                let examined = (poll_step wal resolver t).0 in
                let out : (poll_step wal resolver t).1 ≡ none = yielded ∙ rw skipped refl in
                let kept : examined.last_processed_seq ≡ advance false t.last_processed_seq e =
                  remembered ∙ rw skipped refl in
                rw (ready, running, room, out, poll_loop)
                  (goes_on stops k max_entries t.last_processed_seq before e log false
                    (poll_loop wal resolver fuel stops (suc k) max_entries examined before) skipped
                    (subst
                      (λ l.
                        Polled wal resolver shard shards stops (suc k) max_entries l before log
                          (poll_loop wal resolver fuel stops (suc k) max_entries examined before))
                      kept
                      (poll_loop-Polled fuel stops (suc k) max_entries examined before log after
                        (omega (arith, enough)) fits)))
          ]
        ]
      ]

  -- When the tailer has read up to a log and there is as much fuel as entries left in it, one
  -- poll examines a prefix of them, yields this shard's entries in it that are of no satellite
  -- collection, in order and at most as many as asked for, and ends only at the end of the log,
  -- at a request to stop or when it has that many; the tailer has then read up to the rest of the
  -- log, and remembers the number that the examined entries leave.
  pub poll-Polled :
      (fuel : ℕ) (stops : ℕ → Bool) (max_entries : ℕ) (t : ShardWalTailer I) (log : List WalEntry)
      → Following wal resolver shard shards log t
      → length log ≤ fuel
      → Polled wal resolver shard shards stops 0 max_entries t.last_processed_seq [] log
          (poll wal resolver fuel stops max_entries t)
  unfolding poll
  poll-Polled fuel stops max_entries t log following enough =
      poll_loop-Polled fuel stops 0 max_entries t [] log following enough (omega arith)
