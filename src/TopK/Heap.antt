-- ===== src/TopK/Heap.antt =====
-- The heap of ScoreThresholdManager holds the k largest scores added.
use open_arango_dbcore.Prelude.{
  ℕ, zero, suc, ◌-◌, ◌≤◌, ◌<◌, ◌≡◌, refl, sym, ap, ◌∙◌, Bool, true, false, Option, none, some, List,
  [], ◌∷◌, length, drop, drop_all, length-drop, ltb, if◌then◌else◌, min, inl, inr, Bool-cases,
  lt→ltb, arith,
}
use open_arango_dbcore.TopK.{ScoreThresholdManager, push_heap, add_score}

-- Ascending order.
unfoldable pub sort : List ℕ → List ℕ
unfolding push_heap
sort [] = []
sort (s ∷ rest) = push_heap s (sort rest)

-- The k largest, in ascending order.
unfoldable pub top : ℕ → List ℕ → List ℕ
unfolding sort
top k scores = drop (length scores - k) (sort scores)

unfoldable pub add_all : ScoreThresholdManager → List ℕ → Option ScoreThresholdManager
unfolding add_score
add_all m [] = some m
add_all m (s ∷ rest) = elim (add_score m s) [ none ↦ none | some (m', _) ↦ add_all m' rest ]

IsAscending : List ℕ → Type 0
IsAscending [] = Unit {0}
IsAscending (s ∷ []) = Unit {0}
IsAscending (s ∷ t ∷ rest) = (s ≤ t) × IsAscending (t ∷ rest)

length-push_heap : (s : ℕ) (ts : List ℕ) → length (push_heap s ts) ≡ suc (length ts)
unfolding push_heap
length-push_heap s [] = refl
length-push_heap s (t ∷ ts) = ground (arith, length-push_heap s ts)

length-sort : (ts : List ℕ) → length (sort ts) ≡ length ts
unfolding sort
length-sort [] = refl
length-sort (t ∷ ts) = omega (arith, length-push_heap t (sort ts), length-sort ts)

push_heap-IsAscending : (s : ℕ) (ts : List ℕ) → IsAscending ts → IsAscending (push_heap s ts)
unfolding IsAscending push_heap
push_heap-IsAscending s [] h = tt
push_heap-IsAscending s (t ∷ []) h = ground arith
push_heap-IsAscending s (t ∷ u ∷ ts) h = ground (arith, push_heap-IsAscending s (u ∷ ts))

sort-IsAscending : (ts : List ℕ) → IsAscending (sort ts)
unfolding sort IsAscending
sort-IsAscending [] = tt
sort-IsAscending (t ∷ ts) = push_heap-IsAscending t (sort ts) (sort-IsAscending ts)

-- What a heap that is full does with a score.
unfoldable pub replaced : ℕ → List ℕ → List ℕ
unfolding push_heap
replaced s [] = []
replaced s (front ∷ rest) = if ltb front s then push_heap s rest else front ∷ rest

-- A score that is not above the smallest replaces nothing behind it either.
replaced_low :
    (m s t : ℕ) (ts : List ℕ) → s ≤ t → IsAscending (t ∷ ts) → replaced s (drop m ts) ≡ drop m ts
unfolding IsAscending replaced
replaced_low zero s t [] h asc = refl
replaced_low (suc m) s t [] h asc = refl
replaced_low zero s t (u ∷ ts) h asc = ground arith
replaced_low (suc m) s t (u ∷ ts) h asc = replaced_low m s u ts (omega arith) asc.1

IsAscending-tail : (t : ℕ) (ts : List ℕ) → IsAscending (t ∷ ts) → IsAscending ts
unfolding IsAscending
IsAscending-tail t [] h = tt
IsAscending-tail t (u ∷ ts) h = h.1

-- Dropping one more behind an insertion is replacing.
drop-push_heap :
    (m s : ℕ) (ts : List ℕ)
    → IsAscending ts
    → drop (suc m) (push_heap s ts) ≡ replaced s (drop m ts)
unfolding push_heap replaced
drop-push_heap zero s [] h = refl
drop-push_heap (suc m) s [] h = refl
drop-push_heap zero s (t ∷ ts) h = ground arith
drop-push_heap (suc m) s (t ∷ ts) h = elim (Bool-cases (ltb t s)) [
  | inl above ↦ rw above (drop-push_heap m s ts (IsAscending-tail t ts h))
  | inr low ↦ rw low (sym (replaced_low m s t ts (ground arith) h))
]

-- Whether a full heap takes the score.
unfoldable pub competes : ℕ → List ℕ → Bool
competes s [] = false
competes s (front ∷ rest) = ltb front s

-- A full heap takes a score by replacing.
full_heap :
    (k s : ℕ) (heap : List ℕ)
    → 0 < k
    → length heap ≡ k
    → add_score (record { k = k; heap = heap }) s
      ≡ some (record { k = k; heap = replaced s heap }, competes s heap)
unfolding add_score replaced competes
full_heap k s [] some_room full = absurd (omega arith)
full_heap k s (front ∷ rest) some_room full =
    let no_room : ltb (suc (length rest)) k ≡ false = ground arith in
    elim (Bool-cases (ltb front s)) [
      | inl above ↦ rw (no_room, above, add_score) (refl)
      | inr low ↦ rw (no_room, low, add_score) (refl)
    ]

pub add_score_full :
    (m : ScoreThresholdManager) (s : ℕ)
    → 0 < m.k
    → length m.heap ≡ m.k
    → add_score m s ≡ some (record m { heap = replaced s m.heap }, competes s m.heap)
add_score_full m s some_room full = full_heap m.k s m.heap some_room full

pub add_score_room :
    (m : ScoreThresholdManager) (s : ℕ)
    → length m.heap < m.k
    → add_score m s ≡ some (record m { heap = push_heap s m.heap }, true)
unfolding add_score
add_score_room m s room = rw (lt→ltb (length m.heap) m.k room, add_score) (refl)

pub length-top : (k : ℕ) (scores : List ℕ) → length (top k scores) ≡ min (length scores) k
unfolding top
length-top k scores =
    omega (arith, length-drop {A = ℕ} (length scores - k) (sort scores), length-sort scores)

-- One more score, in either case.
pub top_room :
    (k s : ℕ) (scores : List ℕ)
    → length scores < k
    → top k (s ∷ scores) ≡ push_heap s (top k scores)
unfolding top sort
top_room k s scores room =
    let none_over : length scores - k ≡ 0 = omega arith in
    let none_over' : suc (length scores) - k ≡ 0 = omega arith in rw (none_over, none_over') (refl)

pub top_full :
    (k s : ℕ) (scores : List ℕ) → k ≤ length scores → top k (s ∷ scores) ≡ replaced s (top k scores)
unfolding top sort
top_full k s scores full =
    let over : suc (length scores) - k ≡ suc (length scores - k) = omega arith in
    rw over (drop-push_heap (length scores - k) s (sort scores) (sort-IsAscending scores))

-- A manager that holds the k largest of what it has seen.
abbrev pub holding : ℕ → List ℕ → ScoreThresholdManager
holding k seen = record { k = k; heap = top k seen }

pub add_score_top :
    (k s : ℕ) (seen : List ℕ)
    → 0 < k
    → (taken : Bool) × (add_score (holding k seen) s ≡ some (holding k (s ∷ seen), taken))
add_score_top k s seen some_room = elim (Bool-cases (ltb (length seen) k)) [
  | inl room ↦ (
    true,
    add_score_room (holding k seen) s (ground (arith, length-top k seen))
        ∙ ap
            (λ h.
              some (let r : ScoreThresholdManager × Bool = (record { k = k; heap = h }, true) in r))
            (sym (top_room k s seen (ground arith))),
  )
  | inr full ↦ (
    competes s (top k seen),
    add_score_full (holding k seen) s some_room (ground (arith, length-top k seen))
        ∙ ap
            (λ h. some (
              let r : ScoreThresholdManager × Bool =
                (record { k = k; heap = h }, competes s (top k seen)) in
              r))
            (sym (top_full k s seen (ground arith))),
  )
]

pub top-nil : (k : ℕ) → top k [] ≡ []
unfolding top sort
top-nil k = drop_all (0 - k) [] (omega arith)
