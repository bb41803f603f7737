-- ===== src/TopK/Exact.antt =====
-- Skipping loses nothing: WandIterator over a posting list ends with the k largest scores of all
-- its documents.
use open_arango_dbcore.Prelude.{
  ℕ, zero, suc, ◌+◌, ◌<◌, ◌≡◌, ◌⊎◌, refl, sym, ap, ◌∙◌, Bool, true, false, Option, some, List, [],
  ◌∷◌, length, leb, inl, inr, Bool-cases, arith,
}
use open_arango_dbcore.TopK.{
  ScoreThresholdManager, ScoredDocIterator, WandIterator, threshold, next, score, run, add_score,
  new_manager,
}
use open_arango_dbcore.TopK.Heap.{top, holding, add_score_top, top-nil}
use open_arango_dbcore.TopK.Posting.{
  Document, IsPosting, Bounded, seen_after, seen_after_same, threshold_skips, threshold-some,
  scores, top-seen_after,
}

module _ (zero_score : ℕ) (inner : ScoredDocIterator) (posting : IsPosting inner) (k : ℕ)
    (some_room : 0 < k) where
  open posting use {left}

  -- The documents end.
  record Ended (w : WandIterator inner) (seen : List ℕ) (ds : List Document)
      (r : Option (Bool × WandIterator inner)) : Type 0 where
    last : WandIterator inner
    result : r ≡ some (false, last)
    manager : last.manager ≡ w.manager
    skipped : last.skipped ≡ w.skipped + length ds
    same : top k (seen_after ds seen) ≡ top k seen

  -- A document is found.
  record Found (w : WandIterator inner) (seen : List ℕ) (ds : List Document)
      (r : Option (Bool × WandIterator inner)) : Type 0 where
    found : WandIterator inner
    doc : Document
    rest : List Document
    passed : ℕ
    result : r ≡ some (true, found)
    manager : found.manager ≡ w.manager
    skipped : found.skipped ≡ w.skipped + passed
    split : length ds ≡ passed + suc (length rest)
    behind : left found.it ≡ rest
    scored : inner.score found.it ≡ doc.doc_score
    bounded : Bounded zero_score rest
    same : top k (seen_after ds seen) ≡ top k (seen_after rest (doc.doc_score ∷ seen))

  -- One document further on, nothing has changed but the number of skipped ones.
  skip_outcome :
      (w : WandIterator inner) (d : Document) (ds : List Document) (it' : inner.Iterator) (fuel : ℕ)
      (seen : List ℕ)
      → next zero_score inner (suc fuel) w
        ≡ next zero_score inner fuel (record w { it = it'; skipped = w.skipped + 1 })
      → top k (seen_after ds (d.doc_score ∷ seen)) ≡ top k (seen_after ds seen)
      → Ended
          (record w { it = it'; skipped = w.skipped + 1 })
          seen
          ds
          (next zero_score inner fuel (record w { it = it'; skipped = w.skipped + 1 }))
        ⊎ Found
            (record w { it = it'; skipped = w.skipped + 1 })
            seen
            ds
            (next zero_score inner fuel (record w { it = it'; skipped = w.skipped + 1 }))
      → Ended w seen (d ∷ ds) (next zero_score inner (suc fuel) w)
        ⊎ Found w seen (d ∷ ds) (next zero_score inner (suc fuel) w)
  unfolding seen_after
  skip_outcome w d ds it' fuel seen skip kept (inl e) = inl (record {
    last = e.last;
    result = skip ∙ e.result;
    manager = e.manager;
    skipped = omega (arith, e.skipped);
    same = kept ∙ e.same;
  })
  skip_outcome w d ds it' fuel seen skip kept (inr f) = inr (record {
    found = f.found;
    doc = f.doc;
    rest = f.rest;
    passed = suc f.passed;
    result = skip ∙ f.result;
    manager = f.manager;
    skipped = omega (arith, f.skipped);
    split = omega (arith, f.split);
    behind = f.behind;
    scored = f.scored;
    bounded = f.bounded;
    same = kept ∙ f.same;
  })

  next_outcome :
      (ds : List Document) (fuel : ℕ) (w : WandIterator inner) (seen : List ℕ)
      → left w.it ≡ ds
      → length ds < fuel
      → Bounded zero_score ds
      → w.manager ≡ holding k seen
      → Ended w seen ds (next zero_score inner fuel w)
        ⊎ Found w seen ds (next zero_score inner fuel w)
  unfolding next seen_after
  next_outcome ds zero w seen at enough bounded m = absurd (omega arith)
  next_outcome [] (suc fuel) w seen at enough bounded m = inl (record {
    last = record w { it = (inner.next w.it).1 };
    result = rw (posting.end_law w.it at, next) (refl);
    manager = refl;
    skipped = omega arith;
    same = refl;
  })
  next_outcome (d ∷ ds) (suc fuel) w seen at enough bounded m =
      let (t, limit) = threshold-some zero_score k seen some_room in
      let it' : inner.Iterator = (inner.next w.it).1 in
      let (more, behind) = posting.next_law w.it d ds at in
      let limit' : threshold zero_score w.manager ≡ some t = ap (threshold zero_score) m ∙ limit in
      let bound : inner.max_score it' ≡ d.doc_max_score = posting.max_score_law w.it d ds at in
      elim (Bool-cases (leb t d.doc_max_score)) [
        | inl high ↦ inr (record {
          found = record w { it = it' };
          doc = d;
          rest = ds;
          passed = 0;
          result = rw (more, limit', bound, high, next) (refl);
          manager = refl;
          skipped = omega arith;
          split = omega arith;
          behind = behind;
          scored = posting.score_law w.it d ds at;
          bounded = bounded.2;
          same = refl;
        })
        | inr low ↦
            let skip : next zero_score inner (suc fuel) w
                ≡ next zero_score inner fuel (record w { it = it'; skipped = w.skipped + 1 }) =
              rw (more, limit', bound, low, next) (refl) in
            let (many, kept) =
              threshold_skips zero_score k d.doc_score d.doc_max_score t seen bounded.0 bounded.1
                limit (ground arith) in
            skip_outcome w d ds it' fuel seen skip
              (seen_after_same k ds (d.doc_score ∷ seen) seen (omega arith) many kept)
              (next_outcome ds fuel (record w { it = it'; skipped = w.skipped + 1 }) seen behind
                (omega arith) bounded.2 m)
      ]

  run_outcome :
      (rounds fuel : ℕ) (ds : List Document) (w : WandIterator inner) (seen : List ℕ)
      → left w.it ≡ ds
      → length ds < rounds
      → length ds < fuel
      → Bounded zero_score ds
      → w.manager ≡ holding k seen
      → (ids : List ℕ) × (w' : WandIterator inner) × (run zero_score inner rounds fuel w
          ≡ some (ids, w'))
        × (w'.manager ≡ holding k (seen_after ds seen))
        × (length ids + w'.skipped ≡ length ds + w.skipped)
  unfolding run score
  run_outcome zero fuel ds w seen at rounds_left enough bounded m = absurd (omega arith)
  run_outcome (suc rounds) fuel ds w seen at rounds_left enough bounded m =
      elim (next_outcome ds fuel w seen at enough bounded m) [
        | inl e ↦ (
          [],
          e.last,
          rw (e.result, run) (refl),
          e.manager
              ∙ m
              ∙ ap (λ h. let r : ScoreThresholdManager = record { k = k; heap = h } in r)
                  (sym e.same),
          omega (arith, e.skipped),
        )
        | inr f ↦
            let (taken, added) = add_score_top k f.doc.doc_score seen some_room in
            let scored : add_score f.found.manager (inner.score f.found.it)
                ≡ some (holding k (f.doc.doc_score ∷ seen), taken) =
              ap (λ m'. add_score m' (inner.score f.found.it)) (f.manager ∙ m)
              ∙ ap (add_score (holding k seen)) f.scored
              ∙ added in
            let w2 : WandIterator inner = record f.found {
              manager = holding k (f.doc.doc_score ∷ seen);
            } in
            let (ids, w3, ran, held, counted) =
              run_outcome rounds fuel f.rest w2 (f.doc.doc_score ∷ seen) f.behind
                (omega (arith, f.split)) (omega (arith, f.split)) f.bounded refl in
            (
              inner.value f.found.it ∷ ids,
              w3,
              rw (f.result, scored, ran, run, score) (refl),
              held
                  ∙ ap (λ h. let r : ScoreThresholdManager = record { k = k; heap = h } in r)
                      (sym f.same),
              omega (arith, counted, f.split, f.skipped),
            )
      ]

-- The top-k search is exact: over an iterator of any posting list whose bounds are bounds of the
-- scores and not negative, with k > 0, the loop of next and score ends and leaves the manager with
-- exactly the k largest of the scores of all documents, the skipped ones included; and every document
-- was either returned or counted as skipped.
pub run_exact :
    (zero_score : ℕ) (inner : ScoredDocIterator) (posting : IsPosting inner) (k : ℕ)
    (it : inner.Iterator) (rounds fuel : ℕ)
    → 0 < k
    → Bounded zero_score (posting.left it)
    → length (posting.left it) < rounds
    → length (posting.left it) < fuel
    → (ids : List ℕ) × (w : WandIterator inner) × (run zero_score inner rounds fuel
          (record { it = it; manager = new_manager k; skipped = 0 })
        ≡ some (ids, w))
      × (w.manager.heap ≡ top k (scores (posting.left it)))
      × (length ids + w.skipped ≡ length (posting.left it))
run_exact zero_score inner posting k it rounds fuel some_room bounded rounds_left enough =
    let (ids, w, ran, held, counted) =
      run_outcome zero_score inner posting k some_room rounds fuel (posting.left it)
        (record { it = it; manager = new_manager k; skipped = 0 }) [] refl rounds_left enough
        bounded
        (ap (λ h. let r : ScoreThresholdManager = record { k = k; heap = h } in r)
          (sym (top-nil k))) in
    (
      ids,
      w,
      ran,
      ap (λ (m : ScoreThresholdManager). m.heap) held ∙ top-seen_after k (posting.left it),
      omega (arith, counted),
    )
