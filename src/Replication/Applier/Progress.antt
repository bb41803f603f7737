-- ===== src/Replication/Applier/Progress.antt =====
-- ReplicationApplier: a message that was taken is either applied or still in its shard's buffer.
use open_arango_dbcore.Prelude.{
  ℕ, zero, suc, ◌+◌, ◌≤◌, ◌≡◌, ◌⊎◌, subst, refl, ap, none, some, List, [], ◌∷◌, ◌==◌, length, Str,
  str_key, nat_key, str_eq_iff, Map, find, erase, find-erase, length-erase-lt, arith, Bool-cases,
  Option-cases, inl, inr,
}
use open_arango_dbcore.Replication.Applier.{
  ApplyMessage, ReplicationApplier, increment, last_of, touch, DrainStep, leaves, goes_on, is_empty,
  drain_step, drain_loop,
}
use open_arango_dbcore.Replication.Applier.Invariant.{last_of-insert, last_of-touch}
use open_arango_dbcore.Replication.Applier.Drain.{
  Draining, drain_step-Draining, DrainStep-cases, StepDraining,
}

find-nil : (k : ℕ) → find {V = ApplyMessage} k [] ≡ none
unfolding find
find-nil k = refl

-- Number `k` of the shard is applied, or waits in this buffer.
abbrev pub Waits : Str → ℕ → ReplicationApplier → Map ℕ ApplyMessage → Type 0
Waits s k a buf = (k ≤ last_of a.last_applied s) ⊎ ((m : ApplyMessage) × (find k buf ≡ some m))

module _ (write_cb : List (ApplyMessage × ℕ) → ApplyMessage → ℕ) where
  -- One iteration applies the next number and takes it out of the buffer, or changes no number.
  abbrev pub StepOutcome : Str → ReplicationApplier → Map ℕ ApplyMessage → DrainStep → Type 0
  StepOutcome s a buf (leaves b) = last_of b.last_applied s ≡ last_of a.last_applied s
  StepOutcome s a buf (goes_on b rest) =
      (last_of b.last_applied s ≡ last_of a.last_applied s + 1)
      × (rest ≡ erase (last_of a.last_applied s + 1) buf)
      × ((m : ApplyMessage) × (find (last_of a.last_applied s + 1) buf ≡ some m))

  pub drain_step-StepOutcome :
      (s : Str) (start a : ReplicationApplier) (buf : Map ℕ ApplyMessage)
      → Draining s start a buf
      → StepOutcome s a buf (drain_step write_cb s a buf)
  unfolding drain_step
  drain_step-StepOutcome s start a buf v =
      let next : ℕ = increment (last_of (touch a.last_applied s) s) in
      let touched = last_of-touch a.last_applied s s in
      elim (Option-cases (find next buf)) [
        | inl gap ↦ rw (gap, drain_step) touched
        | inr (msg, found) ↦ elim (Bool-cases (write_cb a.writes msg == 0)) [
          | inl done ↦
              let (number, shard, above, small) = v.own_buffer.each next msg found in
              let step : next ≡ last_of a.last_applied s + 1 =
                omega (arith, v.in_order.bounded s, touched) in
              rw (found, drain_step)
                (rw done (
                  (
                    ground (
                      arith,
                      last_of-insert (touch a.last_applied s) s s next,
                      str_eq_iff s s,
                      step,
                    ),
                    ap (λ (n : ℕ). erase n buf) step,
                    (msg, subst (λ (n : ℕ). find n buf ≡ some msg) step found),
                  )))
          | inr failed ↦ rw (found, drain_step) (rw failed touched)
        ]
      ]

  same_last-Waits :
      (s : Str) (k : ℕ) (a b : ReplicationApplier) (buf : Map ℕ ApplyMessage)
      → last_of b.last_applied s ≡ last_of a.last_applied s
      → Waits s k a buf
      → Waits s k b buf
  same_last-Waits s k a b buf same (inl applied) = inl (omega arith)
  same_last-Waits s k a b buf same (inr found) = inr found

  step-Waits :
      (s : Str) (k : ℕ) (a b : ReplicationApplier) (buf rest : Map ℕ ApplyMessage)
      → StepOutcome s a buf (goes_on b rest)
      → Waits s k a buf
      → Waits s k b rest
  step-Waits s k a b buf rest (last, erased, _) (inl applied) = inl (omega arith)
  step-Waits s k a b buf rest (last, erased, _) (inr (m, found)) =
      elim (Bool-cases (last_of a.last_applied s + 1 == k)) [
        | inl own ↦ inl (ground arith)
        | inr other ↦
            inr (m, rw erased (ground (arith, find-erase (last_of a.last_applied s + 1) k buf)))
      ]

  pub drain_loop-Waits :
      (fuel : ℕ) (s : Str) (k : ℕ) (start a : ReplicationApplier) (buf : Map ℕ ApplyMessage)
      (drained : ℕ)
      → Draining s start a buf
      → Waits s k a buf
      → Waits s k
          (drain_loop write_cb fuel s a buf drained).0
          (drain_loop write_cb fuel s a buf drained).1
  unfolding drain_loop is_empty
  drain_loop-Waits zero s k start a buf drained v w = w
  drain_loop-Waits (suc fuel) s k start a [] drained v w = w
  drain_loop-Waits (suc fuel) s k start a (e ∷ buf) drained v w =
      let step = drain_step-Draining write_cb s start a (e ∷ buf) v in
      let outcome = drain_step-StepOutcome s start a (e ∷ buf) v in
      elim (DrainStep-cases (drain_step write_cb s a (e ∷ buf))) [
        | inl (b, h) ↦
            rw (h, drain_loop)
              (same_last-Waits s k a b (e ∷ buf) (subst (StepOutcome s a (e ∷ buf)) h outcome) w)
        | inr (b, rest, h) ↦
            rw (h, drain_loop)
              (drain_loop-Waits fuel s k start b rest (increment drained)
                (subst (StepDraining write_cb s start (e ∷ buf)) h step)
                (step-Waits s k a b (e ∷ buf) rest (subst (StepOutcome s a (e ∷ buf)) h outcome) w))
      ]

  abbrev StepGap : Str → Map ℕ ApplyMessage → DrainStep → Type 0
  StepGap s buf (leaves b) = find (increment (last_of b.last_applied s)) buf ≡ none
  StepGap s buf (goes_on b rest) = Unit

  module _
      (ok : (writes : List (ApplyMessage × ℕ)) (m : ApplyMessage) → write_cb writes m ≡ 0) where
    drain_step-StepGap :
        (s : Str) (a : ReplicationApplier) (buf : Map ℕ ApplyMessage)
        → StepGap s buf (drain_step write_cb s a buf)
    unfolding drain_step
    drain_step-StepGap s a buf =
        elim (Option-cases (find (increment (last_of (touch a.last_applied s) s)) buf)) [
          | inl gap ↦ rw (gap, drain_step) gap
          | inr (msg, found) ↦ rw (found, drain_step) (rw (ok a.writes msg) tt)
        ]

    -- If no write fails, the loop ends at a gap: fuel as large as the buffer is enough.
    pub drain_loop-gap :
        (fuel : ℕ) (s : Str) (start a : ReplicationApplier) (buf : Map ℕ ApplyMessage) (drained : ℕ)
        → length buf ≤ fuel
        → Draining s start a buf
        → find
            (increment (last_of (drain_loop write_cb fuel s a buf drained).0.last_applied s))
            (drain_loop write_cb fuel s a buf drained).1
          ≡ none
    unfolding drain_loop is_empty
    drain_loop-gap zero s start a [] drained enough v = find-nil _
    drain_loop-gap zero s start a (e ∷ buf) drained enough v = absurd (omega arith)
    drain_loop-gap (suc fuel) s start a [] drained enough v = find-nil _
    drain_loop-gap (suc fuel) s start a (e ∷ buf) drained enough v =
        let step = drain_step-Draining write_cb s start a (e ∷ buf) v in
        let outcome = drain_step-StepOutcome s start a (e ∷ buf) v in
        elim (DrainStep-cases (drain_step write_cb s a (e ∷ buf))) [
          | inl (b, h) ↦
              rw (h, drain_loop) (subst (StepGap s (e ∷ buf)) h (drain_step-StepGap s a (e ∷ buf)))
          | inr (b, rest, h) ↦
              let (last, erased, (m, found)) = subst (StepOutcome s a (e ∷ buf)) h outcome in
              rw (h, drain_loop)
                (drain_loop-gap fuel s start b rest (increment drained)
                  (rw erased (
                    omega
                      (arith, length-erase-lt (last_of a.last_applied s + 1) m (e ∷ buf) found)))
                  (subst (StepDraining write_cb s start (e ∷ buf)) h step))
        ]
