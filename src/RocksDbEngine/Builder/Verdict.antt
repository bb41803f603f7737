-- ===== src/RocksDbEngine/Builder/Verdict.antt =====
-- When fillIndexParallel reports success, and what state each of its reports leaves.
use open_arango_dbcore.Prelude.{
  ℕ, suc, if◌then◌else◌, ◌≡◌, refl, sym, ap, ◌∙◌, subst, Bool, true, false, ◌&&◌, Option, some,
  List, [], ◌∷◌, Str, ltb, inl, inr, Bool-cases, Option-cases, arith,
}
use open_arango_dbcore.RocksDbEngine.Partitioner.{KeyRange, partition}
use open_arango_dbcore.RocksDbEngine.Builder.{
  Pair, IndexIterator, RocksDbBuilderIndexEe, idle, building, failed, Ending, returned, thrown,
  out_of_fuel, run_task, submit_loop, wait_loop, all_inserted, no_ranges, is_idle, Filled, finish,
  fill_index_parallel,
}

-- Every task returned true.
unfoldable pub AllTrue : List (Ending × List Pair) → Type 0
AllTrue [] = Unit {0}
AllTrue ((ending, inserted) ∷ rest) = (ending ≡ returned true) × AllTrue rest

wait_loop-false : (rs : List (Ending × List Pair)) → wait_loop false rs ≡ some true → ⊥
unfolding wait_loop
wait_loop-false [] h = cc
wait_loop-false ((out_of_fuel, ps) ∷ rest) h = cc
wait_loop-false ((thrown, ps) ∷ rest) h = wait_loop-false rest h
wait_loop-false ((returned true, ps) ∷ rest) h = wait_loop-false rest h
wait_loop-false ((returned false, ps) ∷ rest) h = wait_loop-false rest h

wait_loop-AllTrue : (rs : List (Ending × List Pair)) → wait_loop true rs ≡ some true → AllTrue rs
unfolding wait_loop AllTrue
wait_loop-AllTrue [] h = tt
wait_loop-AllTrue ((out_of_fuel, ps) ∷ rest) h = cc
wait_loop-AllTrue ((thrown, ps) ∷ rest) h = absurd (wait_loop-false rest h)
wait_loop-AllTrue ((returned true, ps) ∷ rest) h = (refl, wait_loop-AllTrue rest h)
wait_loop-AllTrue ((returned false, ps) ∷ rest) h = absurd (wait_loop-false rest h)

-- The pool takes the task of each range, the first being the i-th.
abbrev pub AllTaken : (ℕ → Bool) → ℕ → List KeyRange → Type 0
AllTaken pool_open i [] = Unit {0}
AllTaken pool_open i (range ∷ rest) = (pool_open i ≡ true) × AllTaken pool_open (suc i) rest

-- What the tasks of the ranges do, each on its own.
abbrev pub tasks_of :
    (ii : IndexIterator)
    → (Str → Str → Option Bool)
    → (Str → Str → Option (Option ii.Iterator))
    → ℕ
    → List KeyRange
    → List (Ending × List Pair)
tasks_of ii inserter factory fuel [] = []
tasks_of ii inserter factory fuel (range ∷ rest) =
    run_task ii inserter factory fuel range ∷ tasks_of ii inserter factory fuel rest

-- One round of the submissions that took all.
abbrev submitted :
    Bool → Bool → Ending × List Pair → List (Ending × List Pair) → Bool × List (Ending × List Pair)
submitted opened all_taken task results =
    if opened then (all_taken, task ∷ results) else (false, [])

first_taken :
    (opened all_taken : Bool) (task : Ending × List Pair) (results : List (Ending × List Pair))
    → (submitted opened all_taken task results).0 ≡ true
    → (opened ≡ true)
      × (all_taken ≡ true)
      × ((submitted opened all_taken task results).1 ≡ task ∷ results)
first_taken true all_taken task results taken = (refl, taken, refl)
first_taken false all_taken task results taken = cc

module _ (ii : IndexIterator) (inserter : Str → Str → Option Bool)
    (factory : Str → Str → Option (Option ii.Iterator)) (fuel : ℕ) (pool_open : ℕ → Bool) where
  submit_loop-taken :
      (i : ℕ) (ranges : List KeyRange)
      → (submit_loop ii inserter factory fuel pool_open i ranges).0 ≡ true
      → AllTaken pool_open i ranges
        × ((submit_loop ii inserter factory fuel pool_open i ranges).1
            ≡ tasks_of ii inserter factory fuel ranges)
  unfolding submit_loop
  submit_loop-taken i [] taken = (tt, refl)
  submit_loop-taken i (range ∷ rest) taken =
      let (all_taken, results) = submit_loop ii inserter factory fuel pool_open (suc i) rest in
      let task = run_task ii inserter factory fuel range in
      let (opened, others_taken, kept) = first_taken (pool_open i) all_taken task results taken in
      let (others, same) = submit_loop-taken (suc i) rest others_taken in
      ((opened, others), kept ∙ ap (λ ts. task ∷ ts) same)

-- What a report of a builder that was idle means.
pub record IsVerdict (b : RocksDbBuilderIndexEe) (taken : Type 0)
    (tasks : List (Ending × List Pair)) (f : Filled) : Type 0 where
  pub success :
      f.result ≡ some true
      → taken
        × AllTrue tasks
        × (f.inserted ≡ all_inserted tasks)
        × (f.builder ≡ record b { state = building })
  pub failure : f.result ≡ some false → f.builder ≡ record b { state = failed }

finish-IsVerdict :
    (b : RocksDbBuilderIndexEe) (taken : Type 0) (tasks : List (Ending × List Pair))
    (all_taken : Bool) (results : List (Ending × List Pair))
    → (all_taken ≡ true → taken × (results ≡ tasks))
    → IsVerdict b taken tasks (finish (record b { state = building }) (all_taken, results))
unfolding finish
finish-IsVerdict b taken tasks false results took = record {
  success = λ h. cc;
  failure = λ h. refl;
}
finish-IsVerdict b taken tasks true results took =
    let (all_took, same) = took refl in
    elim (Option-cases (wait_loop true results)) [
      | inl endless ↦ rw (endless, finish) (record { success = λ h. cc; failure = λ h. cc })
      | inr (true, waited) ↦
          rw (waited, finish)
            (record {
              success = λ h. (
                all_took,
                subst AllTrue same (wait_loop-AllTrue results waited),
                ap all_inserted same,
                refl,
              );
              failure = λ h. cc;
            })
      | inr (false, waited) ↦
          rw (waited, finish) (record { success = λ h. cc; failure = λ h. refl })
    ]

no_ranges-nil : (ranges : List KeyRange) → no_ranges ranges ≡ true → ranges ≡ []
no_ranges-nil [] h = refl
no_ranges-nil (r ∷ rest) h = cc

both_true : (a b : Bool) → (a && b) ≡ true → a ≡ true
both_true a b h = ground arith

nothing_to_do :
    (b : RocksDbBuilderIndexEe) (taken : Type 0) (tasks : List (Ending × List Pair))
    → taken
    → tasks ≡ []
    → IsVerdict b taken tasks
        (record { builder = record b { state = building }; result = some true; inserted = [] })
unfolding AllTrue all_inserted
nothing_to_do b taken tasks all_took empty = record {
  success = λ h. (all_took, subst AllTrue (sym empty) tt, ap all_inserted (sym empty), refl);
  failure = λ h. cc;
}

-- From an idle builder, whatever the callbacks and the pool do: a fill that reports true had the pool
-- take the task of every range of the partition, each of these tasks returned true, what was inserted
-- is what they inserted, range by range, and the builder is left building; a fill that reports false
-- leaves it failed.
pub fill_index_parallel-IsVerdict :
    (ii : IndexIterator) (inserter : Str → Str → Option Bool)
    (factory : Str → Str → Option (Option ii.Iterator)) (fuel : ℕ) (pool_open : ℕ → Bool)
    (lower upper : Str) (b : RocksDbBuilderIndexEe)
    → b.state ≡ idle
    → IsVerdict b
        (AllTaken pool_open 0 (partition lower upper b.config.num_threads))
        (tasks_of ii inserter factory fuel (partition lower upper b.config.num_threads))
        (fill_index_parallel ii inserter factory fuel pool_open lower upper b)
unfolding fill_index_parallel
fill_index_parallel-IsVerdict ii inserter factory fuel pool_open lower upper b start =
    let fresh : is_idle b.state ≡ true = ap is_idle start in
    let parts : List KeyRange = partition lower upper b.config.num_threads in
    elim (Bool-cases (no_ranges parts && ltb 0 b.config.num_threads)) [
      | inl no_part ↦
          let empty : parts ≡ [] = no_ranges-nil parts (both_true _ _ no_part) in
          rw (fresh, no_part, fill_index_parallel)
            (nothing_to_do b (AllTaken pool_open 0 parts) (tasks_of ii inserter factory fuel parts)
              (subst (λ (rs : List KeyRange). AllTaken pool_open 0 rs) (sym empty) tt)
              (ap (λ (rs : List KeyRange). tasks_of ii inserter factory fuel rs) empty))
      | inr some_part ↦
          rw (fresh, some_part, fill_index_parallel)
            (finish-IsVerdict b (AllTaken pool_open 0 parts)
              (tasks_of ii inserter factory fuel parts)
              (submit_loop ii inserter factory fuel pool_open 0 parts).0
              (submit_loop ii inserter factory fuel pool_open 0 parts).1
              (submit_loop-taken ii inserter factory fuel pool_open 0 parts))
    ]
