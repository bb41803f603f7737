-- ===== src/RocksDbEngine/Builder/Fill.antt =====
-- What fillIndexParallel inserts, and when it reports success.
use open_arango_dbcore.Prelude.{
  ℕ, suc, ◌<◌, ◌≡◌, refl, ap, ◌∙◌, Bool, true, false, Option, some, List, [], ◌∷◌, ◌++◌, length,
  Str,
}
use open_arango_dbcore.RocksDbEngine.Partitioner.{KeyRange, ranges_loop, partition}
use open_arango_dbcore.RocksDbEngine.Builder.{
  Pair, IndexIterator, RocksDbBuilderIndexEe, idle, building, Ending, returned, submit_loop,
  wait_loop, all_inserted, no_ranges, is_idle, Filled, finish, fill_index_parallel,
}
use open_arango_dbcore.RocksDbEngine.Builder.Scan.{
  from_key, below, IsCursor, Accepts, run_task_inserts,
}
use open_arango_dbcore.RocksDbEngine.Builder.Coverage.{
  Ascends, read_all, read_all-ranges_loop, IsSorted, in_range, below-from_key-in_range,
}
use open_arango_dbcore.RocksDbEngine.Builder.Ascending.{
  open_splits, open_splits-Ascends, partition-open_splits,
}

-- The tasks of a list of ranges, each having inserted its part.
unfoldable pub done_tasks : List Pair → List KeyRange → List (Ending × List Pair)
done_tasks snapshot [] = []
done_tasks snapshot (r ∷ rest) =
    (returned true, below r.upper_bound (from_key r.lower_bound snapshot))
    ∷ done_tasks snapshot rest

done_tasks_succeed :
    (snapshot : List Pair) (ranges : List KeyRange)
    → (wait_loop true (done_tasks snapshot ranges) ≡ some true)
      × (all_inserted (done_tasks snapshot ranges) ≡ read_all snapshot ranges)
unfolding wait_loop all_inserted done_tasks read_all
done_tasks_succeed snapshot [] = (refl, refl)
done_tasks_succeed snapshot (r ∷ rest) =
    let (waited, inserted) = done_tasks_succeed snapshot rest in
    (
      waited,
      ap (λ (ps : List Pair). below r.upper_bound (from_key r.lower_bound snapshot) ++ ps) inserted,
    )

some_ranges :
    (lower : Str) (splits : List Str) (upper : Str)
    → no_ranges (ranges_loop lower splits upper) ≡ false
unfolding ranges_loop
some_ranges lower [] upper = refl
some_ranges lower (split ∷ splits) upper = refl

-- What a fill that succeeds leaves.
abbrev fill_done : RocksDbBuilderIndexEe → List Pair → Filled
fill_done b ps = record {
  builder = record b { state = building };
  result = some true;
  inserted = ps;
}

fill_steps :
    (ii : IndexIterator) (inserter : Str → Str → Option Bool)
    (factory : Str → Str → Option (Option ii.Iterator)) (fuel : ℕ) (pool_open : ℕ → Bool)
    (lower upper : Str) (b : RocksDbBuilderIndexEe) (ranges : List KeyRange)
    (results : List (Ending × List Pair))
    → is_idle b.state ≡ true
    → partition lower upper b.config.num_threads ≡ ranges
    → no_ranges ranges ≡ false
    → submit_loop ii inserter factory fuel pool_open 0 ranges ≡ (true, results)
    → wait_loop true results ≡ some true
    → fill_index_parallel ii inserter factory fuel pool_open lower upper b
      ≡ fill_done b (all_inserted results)
unfolding fill_index_parallel finish
fill_steps ii inserter factory fuel pool_open lower upper b ranges results start parts some_range
      taken waited =
    let all_taken : submit_loop ii inserter factory fuel pool_open 0
          (partition lower upper b.config.num_threads)
        ≡ (true, results) =
      ap (λ (rs : List KeyRange). submit_loop ii inserter factory fuel pool_open 0 rs) parts
      ∙ taken in
    rw (start, parts, some_range, taken, waited, fill_index_parallel, finish)
      (ap (λ (r : Bool × List (Ending × List Pair)). fill_done b (all_inserted r.1)) all_taken)

module _ (ii : IndexIterator) (snapshot : List Pair) (cursor : IsCursor ii snapshot)
    (inserter : Str → Str → Option Bool) (accepted : Accepts inserter snapshot)
    (factory : Str → Str → Option (Option ii.Iterator))
    (made : (lower upper : Str) → (it : ii.Iterator) × (factory lower upper ≡ some (some it)))
    (fuel : ℕ) (enough : length snapshot < fuel) (pool_open : ℕ → Bool)
    (running : (i : ℕ) → pool_open i ≡ true) where
  submit_loop-done_tasks :
      (i : ℕ) (ranges : List KeyRange)
      → submit_loop ii inserter factory fuel pool_open i ranges ≡ (true, done_tasks snapshot ranges)
  unfolding submit_loop done_tasks
  submit_loop-done_tasks i [] = refl
  submit_loop-done_tasks i (r ∷ rest) =
      let (it, given) = made r.lower_bound r.upper_bound in
      rw
        (
          running i,
          submit_loop-done_tasks (suc i) rest,
          run_task_inserts ii snapshot cursor inserter factory fuel r it given enough accepted,
        )
        (refl)

  -- Over split points that ascend, the fill succeeds and inserts what one scan of the range would.
  pub fill_index_parallel_ascending :
      (lower upper : Str) (splits : List Str) (b : RocksDbBuilderIndexEe)
      → b.state ≡ idle
      → partition lower upper b.config.num_threads ≡ ranges_loop lower splits upper
      → Ascends lower splits upper
      → fill_index_parallel ii inserter factory fuel pool_open lower upper b ≡ record {
        builder = record b { state = building };
        result = some true;
        inserted = below upper (from_key lower snapshot);
      }
  fill_index_parallel_ascending lower upper splits b start parts ascends =
      let (waited, inserted) = done_tasks_succeed snapshot (ranges_loop lower splits upper) in
      fill_steps ii inserter factory fuel pool_open lower upper b (ranges_loop lower splits upper)
        (done_tasks snapshot (ranges_loop lower splits upper)) (ap is_idle start) parts
        (some_ranges lower splits upper) (submit_loop-done_tasks 0 (ranges_loop lower splits upper))
        waited
      ∙ ap (λ (ps : List Pair). fill_done b ps)
          (inserted ∙ read_all-ranges_loop snapshot lower splits upper ascends)

  -- A parallel fill inserts what one scan would: over an iterator that is a cursor on a snapshot, with
  -- an inserter that accepts every pair of it, a factory that always gives an iterator, more fuel
  -- than the snapshot has pairs and a pool that takes every task, a fill of an idle builder with at
  -- least one thread, over the range from a lower bound without an upper one of a snapshot in the
  -- order of its keys, returns true, leaves the builder building, and the tasks of the partitions
  -- together have inserted exactly the pairs of the snapshot in the range, each once, in order.
  pub fill_index_parallel_open :
      (lower : Str) (b : RocksDbBuilderIndexEe)
      → b.state ≡ idle
      → 0 < b.config.num_threads
      → IsSorted snapshot
      → fill_index_parallel ii inserter factory fuel pool_open lower [] b ≡ record {
        builder = record b { state = building };
        result = some true;
        inserted = in_range lower [] snapshot;
      }
  fill_index_parallel_open lower b start threads sorted =
      fill_index_parallel_ascending lower [] (open_splits lower b.config.num_threads) b start
        (partition-open_splits lower b.config.num_threads threads)
        (open_splits-Ascends lower b.config.num_threads threads)
      ∙ ap (λ (ps : List Pair). fill_done b ps) (below-from_key-in_range lower [] snapshot sorted)
