-- ===== src/TopK.antt =====
-- Enterprise/IResearch/IResearchOptimizeTopK.{h,cpp} and IResearchDataStoreEE.hpp: the top-k search.
-- The code only compares scores and uses the constant 0.0f, so a score is its place on the scale of
-- floats, as a number, and `zero_score` is the place of 0.0f. A std::*_heap over a vector shows its
-- smallest element and its size: it is kept as a list in ascending order. The front of an empty heap
-- is undefined in C++: `none`.
pub mod Heap
pub mod Posting
pub mod Exact
pub mod Plan
pub mod Enable
pub mod Bm25
pub mod Pattern
pub mod Match
pub mod Rule
mod Examples
use open_arango_dbcore.Prelude.{
  ℕ, zero, suc, ◌+◌, Bool, true, false, ◌&&◌, ◌||◌, not, Option, none, some, List, [], ◌∷◌, length,
  ltb, leb, ◌==◌, if◌then◌else◌, ◌⊎◌, inl, inr,
}

pub record ScoreThresholdManager : Type 0 where
  pub k : ℕ
  pub heap : List ℕ

abbrev pub new_manager : ℕ → ScoreThresholdManager
new_manager k = record { k = k; heap = [] }

-- std::push_heap with std::greater
unfoldable pub push_heap : ℕ → List ℕ → List ℕ
push_heap score [] = score ∷ []
push_heap score (s ∷ rest) = if ltb s score then s ∷ push_heap score rest else score ∷ s ∷ rest

unfoldable pub add_score : ScoreThresholdManager → ℕ → Option (ScoreThresholdManager × Bool)
unfolding push_heap
add_score m score =
    if ltb (length m.heap) m.k
    then some (record m { heap = push_heap score m.heap }, true)
    else elim m.heap [
      | [] ↦ none
      | front ∷ rest ↦
          if ltb front score
          then some (record m { heap = push_heap score rest }, true)
          else some (m, false)
    ]

-- class ScoredDocIterator: what an implementation has.
pub record ScoredDocIterator : Type 1 where
  pub Iterator : Type 0
  pub next : Iterator → Bool × Iterator
  pub value : Iterator → ℕ
  pub seek : Iterator → ℕ → ℕ × Iterator
  pub score : Iterator → ℕ
  pub max_score : Iterator → ℕ

unfoldable pub size : ScoreThresholdManager → ℕ
size m = length m.heap

unfoldable pub capacity : ScoreThresholdManager → ℕ
capacity m = m.k

unfoldable pub reset : ScoreThresholdManager → ScoreThresholdManager
reset m = record m { heap = [] }

module _ (zero_score : ℕ) where
  unfoldable pub threshold : ScoreThresholdManager → Option ℕ
  threshold m =
      if ltb (length m.heap) m.k
      then some zero_score
      else elim m.heap [ [] ↦ none | front ∷ rest ↦ some front ]

-- class WandIterator over an iterator of the given kind.
pub record WandIterator (inner : ScoredDocIterator) : Type 0 where
  pub it : inner.Iterator
  pub manager : ScoreThresholdManager
  pub skipped : ℕ

module _ (zero_score : ℕ) (inner : ScoredDocIterator) where
  -- while (_inner->next()); `none` is undefined, or not within the fuel.
  unfoldable pub next : ℕ → WandIterator inner → Option (Bool × WandIterator inner)
  unfolding threshold
  next zero w = none
  next (suc fuel) w =
      let (more, it') = inner.next w.it in
      let skip = next fuel (record w { it = it'; skipped = w.skipped + 1 }) in
      if not more
      then some (false, record w { it = it' })
      else elim (threshold zero_score w.manager) [
        | none ↦ none
        | some t ↦ if leb t (inner.max_score it') then some (true, record w { it = it' }) else skip
      ]

  unfoldable pub seek : ℕ → WandIterator inner → ℕ → Option (ℕ × WandIterator inner)
  unfolding next threshold
  seek fuel w target =
      let (doc_id, it') = inner.seek w.it target in
      let w' : WandIterator inner = record w { it = it' } in
      if doc_id == 0 then some (doc_id, w') else elim (threshold zero_score w.manager) [
        | none ↦ none
        | some t ↦
            if not (ltb (inner.max_score it') t) then some (doc_id, w') else elim (next fuel w') [
              | none ↦ none
              | some (false, w2) ↦ some (0, w2)
              | some (true, w2) ↦ some (inner.value w2.it, w2)
            ]
      ]

  unfoldable pub score : WandIterator inner → Option (ℕ × WandIterator inner)
  unfolding add_score
  score w = elim (add_score w.manager (inner.score w.it)) [
    | none ↦ none
    | some (m, _) ↦ some (inner.score w.it, record w { manager = m })
  ]

  -- The caller's loop, `while (it.next()) it.score();`, with the documents that it sees.
  unfoldable pub run : ℕ → ℕ → WandIterator inner → Option (List ℕ × WandIterator inner)
  unfolding next score
  run zero fuel w = none
  run (suc rounds) fuel w = elim (next fuel w) [
    | none ↦ none
    | some (false, w1) ↦ some ([], w1)
    | some (true, w1) ↦ elim (score w1) [
      | none ↦ none
      | some (_, w2) ↦ elim (run rounds fuel w2) [
        | none ↦ none
        | some (ids, w3) ↦ some (inner.value w1.it ∷ ids, w3)
      ]
    ]
  ]

pub record WandExecutionContext : Type 0 where
  pub enabled : Bool
  pub heap_size : ℕ
  pub threshold_manager : Option ScoreThresholdManager

unfoldable pub create_wand_context : Bool → ℕ → WandExecutionContext
create_wand_context enabled heap_size = record {
  enabled = enabled;
  heap_size = heap_size;
  threshold_manager = if enabled && ltb 0 heap_size then some (new_manager heap_size) else none;
}

-- The base iterator unchanged, or wrapped.
unfoldable pub wrap_iterator :
    (inner : ScoredDocIterator)
    → WandExecutionContext
    → inner.Iterator
    → inner.Iterator ⊎ WandIterator inner
wrap_iterator inner ctx base =
    if not ctx.enabled || ctx.heap_size == 0 then inl base else elim ctx.threshold_manager [
      | none ↦ inl base
      | some m ↦ inr (record { it = base; manager = m; skipped = 0 })
    ]
