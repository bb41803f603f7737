-- ===== src/RocksDbEngine/Builder/Scan.antt =====
-- What one task inserts: the pairs of the snapshot from its lower bound to its upper bound.
use open_arango_dbcore.Prelude.{
  ℕ, zero, suc, ◌≤◌, ◌<◌, ◌≡◌, refl, Bool, true, false, ◌&&◌, ◌||◌, not, Option, some, List, [],
  ◌∷◌, length, Str, inl, inr, Bool-cases, if◌then◌else◌, arith,
}
use open_arango_dbcore.RocksDbEngine.Partitioner.{KeyRange, is_empty, str_lt}
use open_arango_dbcore.RocksDbEngine.Builder.{
  Pair, IndexIterator, returned, scan_loop, with_first, run_task,
}

-- The pairs left once those with smaller keys have been passed over.
unfoldable pub from_key : Str → List Pair → List Pair
from_key lower [] = []
from_key lower ((k, v) ∷ rest) = if str_lt k lower then from_key lower rest else (k, v) ∷ rest

-- The key is not yet at the upper bound; an empty one is no bound.
unfoldable pub is_below : Str → Str → Bool
is_below upper k = is_empty upper || str_lt k upper

-- The pairs in front of the first key at the upper bound.
unfoldable pub below : Str → List Pair → List Pair
below upper [] = []
below upper ((k, v) ∷ rest) = if is_below upper k then (k, v) ∷ below upper rest else []

-- An iterator is a cursor over the snapshot: `left` is what is in front of it.
pub record IsCursor (ii : IndexIterator) (snapshot : List Pair) : Type 0 where
  pub left : ii.Iterator → List Pair
  pub seek_law : (it : ii.Iterator) (k : Str) → left (ii.seek it k) ≡ from_key k snapshot
  pub end_law : (it : ii.Iterator) → left it ≡ [] → ii.valid it ≡ false
  pub key_law :
      (it : ii.Iterator) (k v : Str) (rest : List Pair) → left it ≡ (k, v) ∷ rest → ii.key it ≡ k
  pub value_law :
      (it : ii.Iterator) (k v : Str) (rest : List Pair) → left it ≡ (k, v) ∷ rest → ii.value it ≡ v
  pub valid_law :
      (it : ii.Iterator) (k v : Str) (rest : List Pair)
      → left it ≡ (k, v) ∷ rest
      → ii.valid it ≡ true
  pub next_law :
      (it : ii.Iterator) (k v : Str) (rest : List Pair)
      → left it ≡ (k, v) ∷ rest
      → left (ii.next it) ≡ rest

-- The inserter takes every pair of the list.
abbrev pub Accepts : (Str → Str → Option Bool) → List Pair → Type 0
Accepts inserter [] = Unit {0}
Accepts inserter ((k, v) ∷ rest) = (inserter k v ≡ some true) × Accepts inserter rest

length-from_key : (lower : Str) (ps : List Pair) → length (from_key lower ps) ≤ length ps
unfolding from_key
length-from_key lower [] = omega arith
length-from_key lower ((k, v) ∷ rest) = ground (arith, length-from_key lower rest)

Accepts-from_key :
    (inserter : Str → Str → Option Bool) (lower : Str) (ps : List Pair)
    → Accepts inserter ps
    → Accepts inserter (from_key lower ps)
unfolding from_key
Accepts-from_key inserter lower [] h = h
Accepts-from_key inserter lower ((k, v) ∷ rest) h = elim (Bool-cases (str_lt k lower)) [
  | inl low ↦ rw (low) (Accepts-from_key inserter lower rest h.1)
  | inr high ↦ rw (high) h
]

stop_test :
    (upper k : Str) → (not (is_empty upper) && not (str_lt k upper)) ≡ not (is_below upper k)
unfolding is_below
stop_test upper k = ground arith

module _ (ii : IndexIterator) (snapshot : List Pair) (cursor : IsCursor ii snapshot)
    (inserter : Str → Str → Option Bool) where
  open cursor use {left}

  scan_loop-below :
      (fuel : ℕ) (upper : Str) (it : ii.Iterator) (ps : List Pair)
      → left it ≡ ps
      → length ps < fuel
      → Accepts inserter ps
      → scan_loop ii inserter fuel upper it ≡ (returned true, below upper ps)
  unfolding scan_loop below with_first is_below
  scan_loop-below zero upper it ps at enough accepted = absurd (omega arith)
  scan_loop-below (suc fuel) upper it [] at enough accepted = rw (cursor.end_law it at) (refl)
  scan_loop-below (suc fuel) upper it ((k, v) ∷ rest) at enough accepted =
      let ih =
        scan_loop-below fuel upper (ii.next it) rest (cursor.next_law it k v rest at) (omega arith)
          accepted.1 in
      elim (Bool-cases (is_below upper k)) [
        | inl more ↦
            rw
              (
                cursor.valid_law it k v rest at,
                cursor.key_law it k v rest at,
                cursor.value_law it k v rest at,
                stop_test upper k,
                more,
                accepted.0,
                ih,
                with_first,
                scan_loop,
              )
              (rw (cursor.key_law it k v rest at, cursor.value_law it k v rest at) (refl))
        | inr stop ↦
            rw
              (
                cursor.valid_law it k v rest at,
                cursor.key_law it k v rest at,
                stop_test upper k,
                stop,
                scan_loop,
              )
              (refl)
      ]

  -- A task whose factory gives an iterator ends well, with the pairs of its range.
  pub run_task_inserts :
      (factory : Str → Str → Option (Option ii.Iterator)) (fuel : ℕ) (range : KeyRange)
      (it : ii.Iterator)
      → factory range.lower_bound range.upper_bound ≡ some (some it)
      → length snapshot < fuel
      → Accepts inserter snapshot
      → run_task ii inserter factory fuel range
        ≡ (returned true, below range.upper_bound (from_key range.lower_bound snapshot))
  unfolding run_task
  run_task_inserts factory fuel range it made enough accepted =
      rw (made, run_task)
        (scan_loop-below fuel range.upper_bound (ii.seek it range.lower_bound)
          (from_key range.lower_bound snapshot) (cursor.seek_law it range.lower_bound)
          (omega (arith, length-from_key range.lower_bound snapshot))
          (Accepts-from_key inserter range.lower_bound snapshot accepted))
