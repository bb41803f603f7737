-- ===== src/RocksDbEngine/Builder/Ascending.antt =====
-- The split points of KeySpacePartitioner.cpp ascend where the range has no upper bound.
use open_arango_dbcore.Prelude.{
  ℕ, zero, suc, ◌-◌, ◌*◌, ◌/◌, ◌≤◌, ◌<◌, ◌≡◌, refl, false, List, [], ◌∷◌, ◌++◌, ◌==◌, Str, inl, inr,
  Bool-cases, ==_iff, arith,
}
use open_arango_dbcore.RocksDbEngine.Partitioner.{
  is_empty, str_lt, split_key, splits_loop, ranges_loop, partition,
}
use open_arango_dbcore.RocksDbEngine.Builder.Order.{str_lt-append, str_lt-append_le}
use open_arango_dbcore.RocksDbEngine.Builder.Coverage.{Ascends}

append-not_empty : (a : Str) (x : ℕ) → is_empty (a ++ x ∷ []) ≡ false
append-not_empty [] x = refl
append-not_empty (y ∷ a) x = refl

div_le : (a b n : ℕ) → 0 < n → a ≤ b → a / n ≤ b / n
div_le a b n h k = grind arith

-- Each split point is followed by later ones.
splits_loop-Ascends :
    (left i : ℕ) (from lower : Str) (n : ℕ)
    → 0 < n
    → str_lt (lower ++ (i * 255) / n ∷ []) from ≡ false
    → Ascends from (splits_loop left i lower [] n) []
unfolding splits_loop split_key Ascends
splits_loop-Ascends zero i from lower n some_part h = refl
splits_loop-Ascends (suc left) i from lower n some_part h = (
  append-not_empty lower ((i * 255) / n),
  h,
  splits_loop-Ascends left (suc i) (lower ++ (i * 255) / n ∷ []) lower n some_part (
      str_lt-append_le lower ((i * 255) / n) ((suc i * 255) / n)
        (div_le (i * 255) (suc i * 255) n some_part (omega arith))),
)

-- The split points of an open range in n parts.
unfoldable pub open_splits : Str → ℕ → List Str
unfolding splits_loop
open_splits lower n = splits_loop (n - 1) 1 lower [] n

pub open_splits-Ascends : (lower : Str) (n : ℕ) → 0 < n → Ascends lower (open_splits lower n) []
unfolding open_splits
open_splits-Ascends lower n some_part =
    splits_loop-Ascends (n - 1) 1 lower lower n some_part (str_lt-append lower ((1 * 255) / n ∷ []))

pub partition-open_splits :
    (lower : Str) (n : ℕ)
    → 0 < n
    → partition lower [] n ≡ ranges_loop lower (open_splits lower n) []
unfolding open_splits partition ranges_loop
partition-open_splits lower n some_part =
    let present : (n == 0) ≡ false = ground (arith, some_part) in
    elim (Bool-cases (n == 1)) [
      | inl one ↦ let single : n ≡ 1 = (==_iff n 1).0 one in rw single (refl)
      | inr more ↦ rw (present, more) (refl)
    ]
