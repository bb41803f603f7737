-- ===== src/TopK/Examples.antt =====
-- Tests of the heap, the iterator and the rule, and the theorems on small inputs.
use open_arango_dbcore.Prelude.{
  ℕ, ◌+◌, ◌≡◌, ◌↔◌, refl, ap, Bool, true, false, none, some, List, [], ◌∷◌, length, get_elem?,
  arith, leb, if◌then◌else◌, inl,
}
use open_arango_dbcore.TopK.{
  new_manager, ScoredDocIterator, WandIterator, run, create_wand_context, wrap_iterator,
}
use open_arango_dbcore.TopK.Heap.{top, add_all}
use open_arango_dbcore.TopK.Posting.{Document, IsPosting, scores}
use open_arango_dbcore.TopK.Exact.{run_exact}
use open_arango_dbcore.TopK.Plan.{view, sort, limit, Plan, matched, optimize_top_k_patterns}
use open_arango_dbcore.TopK.Pattern.{IsPattern}
use open_arango_dbcore.TopK.Rule.{
  last_limit, pattern_count, annotated, optimize_top_k_patterns-annotated,
}

-- What is at the iterator's position, and what is behind it.
abbrev Cursor : Type 0
Cursor = Document × List Document

abbrev advance : Cursor → Bool × Cursor
advance (d, []) = (false, (d, []))
advance (d, e ∷ rest) = (true, (e, rest))

abbrev seek_from : ℕ → List Document → Document → ℕ × Cursor
seek_from target [] d = (0, (d, []))
seek_from target (e ∷ rest) d =
    if leb target e.doc_id then (e.doc_id, (e, rest)) else seek_from target rest d

abbrev posting_iterator : ScoredDocIterator
posting_iterator = record {
  Iterator = Cursor;
  next = advance;
  value = λ it. it.0.doc_id;
  seek = λ it target. seek_from target it.1 it.0;
  score = λ it. it.0.doc_score;
  max_score = λ it. it.0.doc_max_score;
}

end_advances : (it : Cursor) → it.1 ≡ [] → (advance it).0 ≡ false
end_advances (d, []) h = refl
end_advances (d, e ∷ rest) h = cc

next_advances :
    (it : Cursor) (d : Document) (rest : List Document)
    → it.1 ≡ d ∷ rest
    → advance it ≡ (true, (d, rest))
next_advances (e, []) d rest h = cc
next_advances (e, f ∷ tail) d rest h = cc

abbrev posting : IsPosting posting_iterator
posting = record {
  left = λ it. it.1;
  end_law = end_advances;
  next_law = λ it d rest h. (
    ap (λ (r : Bool × Cursor). r.0) (next_advances it d rest h),
    ap (λ (r : Bool × Cursor). r.1.1) (next_advances it d rest h),
  );
  score_law =
      λ it d rest h. ap (λ (r : Bool × Cursor). r.1.0.doc_score) (next_advances it d rest h);
  max_score_law =
      λ it d rest h. ap (λ (r : Bool × Cursor). r.1.0.doc_max_score) (next_advances it d rest h);
}

abbrev doc : ℕ → ℕ → ℕ → Document
doc doc_id doc_score doc_max_score = record {
  doc_id = doc_id;
  doc_score = doc_score;
  doc_max_score = doc_max_score;
}

abbrev documents : List Document
documents = doc 1 20 25 ∷ doc 2 30 30 ∷ doc 3 15 19 ∷ doc 4 22 40 ∷ doc 5 21 21 ∷ []

abbrev at_start : Cursor
at_start = (doc 0 0 0, documents)

-- With k = 2, document 3 is skipped by its bound, and document 5 too.
searched :
    run 10 posting_iterator 9 9 (record { it = at_start; manager = new_manager 2; skipped = 0 })
    ≡ some (
      1 ∷ 2 ∷ 4 ∷ [],
      record {
        it = (doc 5 21 21, []);
        manager = record { k = 2; heap = 22 ∷ 30 ∷ [] };
        skipped = 2;
      },
    )
unfolding run
searched = refl

kept :
    add_all (new_manager 3) (5 ∷ 1 ∷ 4 ∷ 2 ∷ 3 ∷ [])
    ≡ some (record { k = 3; heap = 3 ∷ 4 ∷ 5 ∷ [] })
unfolding add_all
kept = refl

run_exact_example :
    (ids : List ℕ) × (w : WandIterator posting_iterator) × (run 10 posting_iterator 9 9
        (record { it = at_start; manager = new_manager 2; skipped = 0 })
      ≡ some (ids, w))
    × (w.manager.heap ≡ top 2 (scores documents))
    × (length ids + w.skipped ≡ 5)
run_exact_example =
    run_exact 10 posting_iterator posting 2 at_start 9 9 (omega arith) (omega arith) (omega arith)
      (omega arith)

-- LIMIT 0, 7 over SORT by BM25 descending over a view.
abbrev plan : Plan
plan =
    record { payload = view false 0; first_dep = none }
    ∷ record {
      payload = sort (
          record {
            attribute_path = b'x' ∷ b'.' ∷ b'B' ∷ b'M' ∷ b'2' ∷ b'5' ∷ [];
            ascending = false;
          }
          ∷ []);
      first_dep = some 0;
    }
    ∷ record { payload = limit 7 0; first_dep = some 1 }
    ∷ []

optimized : (optimize_top_k_patterns (0 ∷ 1 ∷ 2 ∷ []) plan).1 ≡ 1
unfolding optimize_top_k_patterns
optimized = refl

optimize_top_k_patterns-annotated_example :
    (get_elem? (optimize_top_k_patterns (0 ∷ 1 ∷ 2 ∷ []) plan).0 0
      ≡ annotated (last_limit plan 0 (0 ∷ 1 ∷ 2 ∷ []) none) (get_elem? plan 0))
    × ((optimize_top_k_patterns (0 ∷ 1 ∷ 2 ∷ []) plan).1 ≡ pattern_count plan (0 ∷ 1 ∷ 2 ∷ []))
    × ((n v l : ℕ) → (matched plan n ≡ some (v, l)) ↔ IsPattern plan n v l)
optimize_top_k_patterns-annotated_example =
    optimize_top_k_patterns-annotated (0 ∷ 1 ∷ 2 ∷ []) plan 0

wrapped : wrap_iterator posting_iterator (create_wand_context true 0) at_start ≡ inl at_start
unfolding wrap_iterator create_wand_context
wrapped = refl
