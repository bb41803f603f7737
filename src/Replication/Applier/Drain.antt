-- ===== src/Replication/Applier/Drain.antt =====
-- ReplicationApplier::drainBuffered: the loop writes the buffered messages of a shard in order.
use open_arango_dbcore.Prelude.{
  ℕ, zero, suc, ◌+◌, ◌≡◌, ◌⊎◌, subst, refl, ap, ◌∙◌, true, false, some, List, [], ◌∷◌, ◌==◌,
  if◌then◌else◌, length, Str, str_key, nat_key, str_eq, str_eq_iff, Map, find, erase, find-insert,
  find-erase, arith, Bool-cases, Option-cases, inl, inr,
}
use open_arango_dbcore.Replication.Applier.{
  ApplyMessage, ReplicationApplier, increment, last_of, touch, DrainStep, leaves, goes_on, is_empty,
  drain_step, drain_loop, put_back, drain_buffered,
}
use open_arango_dbcore.Replication.Applier.Invariant.{
  InOrder, IsBuffer, IsValid, last_of-insert, last_of-touch, write-InOrder, failed-InOrder,
  same_writes-InOrder, own-IsBuffer,
}

-- What holds inside the loop of `drainBuffered` of a shard that began at `start`.
pub record Draining (s : Str) (start a : ReplicationApplier) (buf : Map ℕ ApplyMessage)
    : Type 0 where
  pub in_order : InOrder a
  pub others :
      (u : Str) → str_eq s u ≡ false → last_of a.last_applied u ≡ last_of start.last_applied u
  pub same_buffer : a.buffer ≡ start.buffer
  pub own_buffer : IsBuffer s buf

erase-IsBuffer :
    (s : Str) (k : ℕ) (buf : Map ℕ ApplyMessage) → IsBuffer s buf → IsBuffer s (erase k buf)
erase-IsBuffer s k buf v = record { each = λ j m h. ground (arith, find-erase k j buf, v.each j m) }

-- Only the map of numbers, the history and the total may differ from the state before.
unchanged-Draining :
    (s : Str) (start a b : ReplicationApplier) (buf : Map ℕ ApplyMessage)
    → Draining s start a buf
    → InOrder b
    → b.buffer ≡ a.buffer
    → ((u : Str) → last_of b.last_applied u ≡ last_of a.last_applied u)
    → Draining s start b buf
unchanged-Draining s start a b buf v order same last = record {
  in_order = order;
  others = λ u h. last u ∙ v.others u h;
  same_buffer = same ∙ v.same_buffer;
  own_buffer = v.own_buffer;
}

-- A drained message is the next one of its shard.
drained-Draining :
    (s : Str) (start a b : ReplicationApplier) (buf : Map ℕ ApplyMessage) (msg : ApplyMessage)
    (next : ℕ)
    → Draining s start a buf
    → next ≡ increment (last_of a.last_applied s)
    → find next buf ≡ some msg
    → b.writes ≡ (msg, 0) ∷ a.writes
    → b.buffer ≡ a.buffer
    → ((u : Str)
        → last_of b.last_applied u ≡ (if str_eq s u then next else last_of a.last_applied u))
    → Draining s start b (erase next buf)
drained-Draining s start a b buf msg next v hn hf hw hb last =
    let (number, shard, above, small) = v.own_buffer.each next msg hf in
    let step : next ≡ last_of a.last_applied s + 1 = omega (arith, v.in_order.bounded s) in
    record {
      in_order =
          write-InOrder a b s msg v.in_order shard (number ∙ step) (omega arith) hw
            (λ u. rw number (last u));
      others = λ u h. rw (last u, h) (v.others u h);
      same_buffer = hb ∙ v.same_buffer;
      own_buffer = erase-IsBuffer s next buf v.own_buffer;
    }

pub zero_rc :
    (writes : List (ApplyMessage × ℕ)) (msg : ApplyMessage) (rc : ℕ)
    → (rc == 0) ≡ true
    → ◌≡◌ {A = List (ApplyMessage × ℕ)} ((msg, rc) ∷ writes) ((msg, 0) ∷ writes)
zero_rc writes msg rc h = let zero_code : rc ≡ 0 = ground arith in rw zero_code

pub put_back-IsValid :
    (s : Str) (start a : ReplicationApplier) (buf : Map ℕ ApplyMessage)
    → Draining s start a buf
    → ((u : Str) (rest : Map ℕ ApplyMessage)
        → str_eq s u ≡ false
        → find u start.buffer ≡ some rest
        → IsBuffer u rest)
    → IsValid (put_back s a buf)
unfolding put_back
put_back-IsValid s start a buf v others = elim (Bool-cases (is_empty buf)) [
  | inl empty ↦ rw empty (record {
    in_order = record { ordered = v.in_order.ordered; bounded = v.in_order.bounded };
    buffers = λ u rest h. elim (Bool-cases (str_eq s u)) [
      | inl here ↦ absurd (ground (arith, find-erase s u a.buffer))
      | inr other ↦ others u rest other (ground (arith, find-erase s u a.buffer, v.same_buffer))
    ];
  })
  | inr more ↦ rw more (record {
    in_order = record { ordered = v.in_order.ordered; bounded = v.in_order.bounded };
    buffers = λ u rest h. elim (Bool-cases (str_eq s u)) [
      | inl here ↦
          own-IsBuffer s u buf rest v.own_buffer ((str_eq_iff s u).0 here)
            (ground (arith, find-insert s u buf a.buffer))
      | inr other ↦
          others u rest other (ground (arith, find-insert s u buf a.buffer, v.same_buffer))
    ];
  })
]

pub DrainStep-cases :
    (r : DrainStep)
    → ((b : ReplicationApplier) × (r ≡ leaves b))
      ⊎ ((b : ReplicationApplier) × (rest : Map ℕ ApplyMessage) × (r ≡ goes_on b rest))
DrainStep-cases (leaves b) = inl (b, refl)
DrainStep-cases (goes_on b rest) = inr (b, rest, refl)

module _ (write_cb : List (ApplyMessage × ℕ) → ApplyMessage → ℕ) where
  abbrev pub StepDraining : Str → ReplicationApplier → Map ℕ ApplyMessage → DrainStep → Type 0
  StepDraining s start buf (leaves b) = Draining s start b buf
  StepDraining s start buf (goes_on b rest) = Draining s start b rest

  pub drain_step-Draining :
      (s : Str) (start a : ReplicationApplier) (buf : Map ℕ ApplyMessage)
      → Draining s start a buf
      → StepDraining s start buf (drain_step write_cb s a buf)
  unfolding drain_step
  drain_step-Draining s start a buf v =
      let touched = λ (u : Str). last_of-touch a.last_applied s u in
      let next : ℕ = increment (last_of (touch a.last_applied s) s) in
      let inserted = λ (u : Str). last_of-insert (touch a.last_applied s) s u next in
      elim (Option-cases (find next buf)) [
        | inl gap ↦
            rw (gap, drain_step)
              (unchanged-Draining s start a (record a { last_applied = touch a.last_applied s }) buf
                v
                (same_writes-InOrder a (record a { last_applied = touch a.last_applied s })
                  v.in_order refl touched)
                refl touched)
        | inr (msg, found) ↦ elim (Bool-cases (write_cb a.writes msg == 0)) [
          | inl done ↦
              rw (found, drain_step)
                (rw done (
                  drained-Draining s start a _ buf msg next v (ap increment (touched s)) found
                    (zero_rc a.writes msg (write_cb a.writes msg) done) refl
                    (λ u. rw (← touched u) (inserted u))))
          | inr failed ↦
              rw (found, drain_step)
                (rw failed (
                  unchanged-Draining s start a _ buf v
                    (failed-InOrder a _ msg (write_cb a.writes msg) v.in_order failed refl touched)
                    refl touched))
        ]
      ]

  pub drain_loop-Draining :
      (fuel : ℕ) (s : Str) (start a : ReplicationApplier) (buf : Map ℕ ApplyMessage) (drained : ℕ)
      → Draining s start a buf
      → Draining s start
          (drain_loop write_cb fuel s a buf drained).0
          (drain_loop write_cb fuel s a buf drained).1
  unfolding drain_loop is_empty
  drain_loop-Draining zero s start a buf drained v = v
  drain_loop-Draining (suc fuel) s start a [] drained v = v
  drain_loop-Draining (suc fuel) s start a (e ∷ buf) drained v =
      let step = drain_step-Draining s start a (e ∷ buf) v in
      elim (DrainStep-cases (drain_step write_cb s a (e ∷ buf))) [
        | inl (b, h) ↦ rw (h, drain_loop) (subst (StepDraining s start (e ∷ buf)) h step)
        | inr (b, rest, h) ↦
            rw (h, drain_loop)
              (drain_loop-Draining fuel s start b rest (increment drained)
                (subst (StepDraining s start (e ∷ buf)) h step))
      ]

  pub drain_buffered-IsValid :
      (s : Str) (a : ReplicationApplier) → IsValid a → IsValid (drain_buffered write_cb s a).0
  unfolding drain_buffered
  drain_buffered-IsValid s a v = elim (Option-cases (find s a.buffer)) [
    | inl none_yet ↦ rw (none_yet, drain_buffered) v
    | inr (buf, found) ↦
        rw (found, drain_buffered)
          (put_back-IsValid s a _ _
            (drain_loop-Draining (length buf) s a a buf 0 (record {
              in_order = v.in_order;
              others = λ u h. refl;
              same_buffer = refl;
              own_buffer = v.buffers s buf found;
            }))
            (λ u rest h k. v.buffers u rest k))
  ]
