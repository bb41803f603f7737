-- ===== src/TopK/Posting.antt =====
-- Posting lists, and what a skipped document leaves of the heap.
use open_arango_dbcore.Prelude.{
  ℕ, ◌+◌, ◌≤◌, ◌<◌, ◌≡◌, refl, sym, ap, ◌∙◌, true, false, Option, none, some, List, [], ◌∷◌, length,
  ltb, inl, inr, Bool-cases, arith,
}
use open_arango_dbcore.TopK.{ScoredDocIterator, threshold, push_heap}
use open_arango_dbcore.TopK.Heap.{top, holding, length-top, top_full, replaced, sort}

pub record Document : Type 0 where
  pub doc_id : ℕ
  pub doc_score : ℕ
  pub doc_max_score : ℕ

-- An iterator over a posting list: `left` is what is behind its position.
pub record IsPosting (inner : ScoredDocIterator) : Type 0 where
  pub left : inner.Iterator → List Document
  pub end_law : (it : inner.Iterator) → left it ≡ [] → (inner.next it).0 ≡ false
  pub next_law :
      (it : inner.Iterator) (d : Document) (rest : List Document)
      → left it ≡ d ∷ rest
      → ((inner.next it).0 ≡ true) × (left (inner.next it).1 ≡ rest)
  pub score_law :
      (it : inner.Iterator) (d : Document) (rest : List Document)
      → left it ≡ d ∷ rest
      → inner.score (inner.next it).1 ≡ d.doc_score
  pub max_score_law :
      (it : inner.Iterator) (d : Document) (rest : List Document)
      → left it ≡ d ∷ rest
      → inner.max_score (inner.next it).1 ≡ d.doc_max_score

-- The scores, last first, in front of earlier ones.
unfoldable pub seen_after : List Document → List ℕ → List ℕ
seen_after [] seen = seen
seen_after (d ∷ rest) seen = seen_after rest (d.doc_score ∷ seen)

module _ (zero_score : ℕ) where
  -- Each document's bound is a bound of its score, and is not negative.
  abbrev pub Bounded : List Document → Type 0
  Bounded [] = Unit {0}
  Bounded (d ∷ rest) =
      (d.doc_score ≤ d.doc_max_score) × (zero_score ≤ d.doc_max_score) × Bounded rest

pub seen_after_same :
    (k : ℕ) (ds : List Document) (xs ys : List ℕ)
    → k ≤ length xs
    → k ≤ length ys
    → top k xs ≡ top k ys
    → top k (seen_after ds xs) ≡ top k (seen_after ds ys)
unfolding seen_after
seen_after_same k [] xs ys hx hy same = same
seen_after_same k (d ∷ ds) xs ys hx hy same =
    seen_after_same k ds (d.doc_score ∷ xs) (d.doc_score ∷ ys) (omega arith) (omega arith) (
      top_full k d.doc_score xs hx
      ∙ ap (replaced d.doc_score) same
      ∙ sym (top_full k d.doc_score ys hy))

-- The front of a heap, as the threshold reads it.
abbrev front_of : List ℕ → Option ℕ
front_of heap = elim heap [ [] ↦ none | front ∷ rest ↦ some front ]

front_of-replaced :
    (s t : ℕ) (heap : List ℕ) → front_of heap ≡ some t → s < t → replaced s heap ≡ heap
unfolding replaced
front_of-replaced s t [] at low = refl
front_of-replaced s t (front ∷ rest) at low = ground arith

-- A threshold that a score is below belongs to a full heap, which the score does not change.
pub threshold_skips :
    (zero_score k s bound t : ℕ) (seen : List ℕ)
    → s ≤ bound
    → zero_score ≤ bound
    → threshold zero_score (holding k seen) ≡ some t
    → bound < t
    → (k ≤ length seen) × (top k (s ∷ seen) ≡ top k seen)
unfolding threshold
threshold_skips zero_score k s bound t seen h floor at low =
    elim (Bool-cases (ltb (length (top k seen)) k)) [
      | inl room ↦
          let zero_at : some zero_score ≡ some t = rw (room, threshold) at at in
          absurd (ground (arith, zero_at))
      | inr full ↦
          let front_at : front_of (top k seen) ≡ some t = rw (full, threshold) at at in
          let many : k ≤ length seen = ground (arith, length-top k seen) in
          (many, top_full k s seen many ∙ front_of-replaced s t (top k seen) front_at (omega arith))
    ]

front_some : (heap : List ℕ) → 0 < length heap → (t : ℕ) × (front_of heap ≡ some t)
front_some [] h = absurd (omega arith)
front_some (front ∷ rest) h = (front, refl)

-- With room for at least one score, there is a threshold.
pub threshold-some :
    (zero_score k : ℕ) (seen : List ℕ)
    → 0 < k
    → (t : ℕ) × (threshold zero_score (holding k seen) ≡ some t)
unfolding threshold
threshold-some zero_score k seen some_room = elim (Bool-cases (ltb (length (top k seen)) k)) [
  | inl room ↦ (zero_score, rw (room, threshold) (refl))
  | inr full ↦
      let (t, at) = front_some (top k seen) (ground arith) in (t, rw (full, threshold) (at))
]

push_heap_comm :
    (a b : ℕ) (ts : List ℕ) → push_heap a (push_heap b ts) ≡ push_heap b (push_heap a ts)
unfolding push_heap
push_heap_comm a b [] = ground arith
push_heap_comm a b (t ∷ ts) = ground (arith, push_heap_comm a b ts)

sort-seen_after_step :
    (ds : List Document) (s : ℕ) (seen : List ℕ)
    → sort (seen_after ds (s ∷ seen)) ≡ push_heap s (sort (seen_after ds seen))
unfolding seen_after sort
sort-seen_after_step [] s seen = refl
sort-seen_after_step (d ∷ ds) s seen =
    sort-seen_after_step ds d.doc_score (s ∷ seen)
    ∙ ap (push_heap d.doc_score) (sort-seen_after_step ds s seen)
    ∙ push_heap_comm d.doc_score s (sort (seen_after ds seen))
    ∙ ap (push_heap s) (sym (sort-seen_after_step ds d.doc_score seen))

-- The scores of the documents.
abbrev pub scores : List Document → List ℕ
scores [] = []
scores (d ∷ ds) = d.doc_score ∷ scores ds

sort-seen_after : (ds : List Document) → sort (seen_after ds []) ≡ sort (scores ds)
unfolding seen_after sort
sort-seen_after [] = refl
sort-seen_after (d ∷ ds) =
    sort-seen_after_step ds d.doc_score [] ∙ ap (push_heap d.doc_score) (sort-seen_after ds)

length-seen_after :
    (ds : List Document) (seen : List ℕ)
    → length (seen_after ds seen) ≡ length (scores ds) + length seen
unfolding seen_after
length-seen_after [] seen = omega arith
length-seen_after (d ∷ ds) seen = omega (arith, length-seen_after ds (d.doc_score ∷ seen))

pub top-seen_after : (k : ℕ) (ds : List Document) → top k (seen_after ds []) ≡ top k (scores ds)
unfolding top
top-seen_after k ds =
    let same : length (seen_after ds []) ≡ length (scores ds) =
      omega (arith, length-seen_after ds []) in
    rw (same, sort-seen_after ds) (refl)
