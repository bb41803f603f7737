-- ===== src/Replication/Applier/Invariant.antt =====
-- ReplicationApplier: what holds between any two operations.
use open_arango_dbcore.Prelude.{
  ℕ, zero, suc, ◌+◌, ◌<◌, ◌≡◌, ◌&&◌, refl, false, some, List, [], ◌∷◌, ◌==◌, if◌then◌else◌, u64_mod,
  Str, str_key, nat_key, str_eq, str_eq_iff, Map, find, insert, find-insert, arith, Option-cases,
  inl, inr,
}
use open_arango_dbcore.Replication.Applier.{
  ApplyMessage, ReplicationApplier, new_applier, last_of, touch,
}

-- n, …, 2, 1
unfoldable pub count_down : ℕ → List ℕ
count_down zero = []
count_down (suc n) = suc n ∷ count_down n

-- The numbers of the successful writes to a shard, newest first.
unfoldable pub written : Str → List (ApplyMessage × ℕ) → List ℕ
written s [] = []
written s ((msg, rc) ∷ writes) =
    if str_eq msg.shard_id s && rc == 0 then msg.sequence ∷ written s writes else written s writes

pub record InOrder (a : ReplicationApplier) : Type 0 where
  pub ordered : (s : Str) → written s a.writes ≡ count_down (last_of a.last_applied s)
  pub bounded : (s : Str) → last_of a.last_applied s < u64_mod

-- A shard's buffer holds messages of the shard under their own numbers, from 1 on.
pub record IsBuffer (s : Str) (buf : Map ℕ ApplyMessage) : Type 0 where
  pub each :
      (k : ℕ) (m : ApplyMessage)
      → find k buf ≡ some m
      → (m.sequence ≡ k) × (m.shard_id ≡ s) × (0 < k) × (k < u64_mod)

pub record IsValid (a : ReplicationApplier) : Type 0 where
  pub in_order : InOrder a
  pub buffers : (s : Str) (buf : Map ℕ ApplyMessage) → find s a.buffer ≡ some buf → IsBuffer s buf

pub last_of-insert :
    (m : Map Str ℕ) (s u : Str) (n : ℕ)
    → last_of (insert s n m) u ≡ (if str_eq s u then n else last_of m u)
unfolding last_of
last_of-insert m s u n = ground (arith, find-insert s u n m)

pub last_of-touch : (m : Map Str ℕ) (s u : Str) → last_of (touch m s) u ≡ last_of m u
unfolding last_of touch
last_of-touch m s u = elim (Option-cases (find s m)) [
  | inl new ↦ rw (new, touch) (ground (arith, find-insert s u 0 m, str_eq_iff s u))
  | inr (n, old) ↦ rw (old, touch)
]

count_down-add : (n : ℕ) → count_down (n + 1) ≡ (n + 1) ∷ count_down n
unfolding count_down
count_down-add n = ground arith

-- A successful write of the next message keeps the order.
pub write-InOrder :
    (a b : ReplicationApplier) (s : Str) (msg : ApplyMessage)
    → InOrder a
    → msg.shard_id ≡ s
    → msg.sequence ≡ last_of a.last_applied s + 1
    → msg.sequence < u64_mod
    → b.writes ≡ (msg, 0) ∷ a.writes
    → ((u : Str)
        → last_of b.last_applied u
          ≡ (if str_eq s u then msg.sequence else last_of a.last_applied u))
    → InOrder b
unfolding written
write-InOrder a b s msg v same next small hw hl = record {
  ordered = λ u.
      rw (hw, hl u)
        (ground (
          arith,
          v.ordered u,
          v.ordered s,
          str_eq_iff s u,
          str_eq_iff msg.shard_id u,
          count_down-add (last_of a.last_applied s),
        ));
  bounded = λ u. ground (arith, hl u, v.bounded u);
}

-- A write that fails is no part of the order.
pub failed-InOrder :
    (a b : ReplicationApplier) (msg : ApplyMessage) (rc : ℕ)
    → InOrder a
    → (rc == 0) ≡ false
    → b.writes ≡ (msg, rc) ∷ a.writes
    → ((u : Str) → last_of b.last_applied u ≡ last_of a.last_applied u)
    → InOrder b
unfolding written
failed-InOrder a b msg rc v failed hw hl = record {
  ordered = λ u. rw (hw, hl u) (ground (arith, v.ordered u));
  bounded = λ u. ground (arith, hl u, v.bounded u);
}

pub same_writes-InOrder :
    (a b : ReplicationApplier)
    → InOrder a
    → b.writes ≡ a.writes
    → ((u : Str) → last_of b.last_applied u ≡ last_of a.last_applied u)
    → InOrder b
same_writes-InOrder a b v hw last = record {
  ordered = λ u. rw (hw, last u) (v.ordered u);
  bounded = λ u. rw (last u) (v.bounded u);
}

pub empty-IsValid : IsValid new_applier
unfolding find last_of written count_down
empty-IsValid = record {
  in_order = record { ordered = λ s. refl; bounded = λ s. omega arith };
  buffers = λ s buf h. cc;
}

pub own-IsBuffer :
    (s u : Str) (buf rest : Map ℕ ApplyMessage)
    → IsBuffer s buf
    → s ≡ u
    → buf ≡ rest
    → IsBuffer u rest
own-IsBuffer s u buf rest v same equal = rw (← same, ← equal) v
