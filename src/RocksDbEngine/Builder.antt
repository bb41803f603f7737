-- ===== src/RocksDbEngine/Builder.antt =====
-- Enterprise/RocksDBEngine/RocksDBBuilderIndexEE.{h,cpp}: the parallel build of an index, over the
-- partitions, the thread pool and the changelog. The iterator and the callbacks are the caller's: an
-- iterator is an interface, a callback that throws gives `none`. A task's insertions touch no other
-- task, so what the tasks insert is kept task by task, in the order of the partitions.
pub mod Order
pub mod Scan
pub mod Coverage
pub mod Ascending
pub mod Fill
pub mod Verdict
pub mod Lifecycle
mod Examples
use open_arango_dbcore.Prelude.{
  ℕ, zero, suc, ◌+◌, ◌-◌, ◌*◌, ◌%◌, Bool, true, false, ◌&&◌, not, Option, none, some, List, [], ◌∷◌,
  ◌++◌, ltb, if◌then◌else◌, Str, u64_mod,
}
use open_arango_dbcore.RocksDbEngine.Partitioner.{KeyRange, is_empty, str_lt, partition}
use open_arango_dbcore.RocksDbEngine.Changelog.{
  ChangelogEntry, ChangelogBuffer, new_buffer, append, for_each, clear,
}

pub record IndexBuilderConfig : Type 0 where
  pub num_threads : ℕ
  pub memory_budget_mb : ℕ
  pub background_mode : Bool

pub data BuildState : Type 0 where
  idle building applying_changelog swapping complete failed : BuildState

pub record RocksDbBuilderIndexEe : Type 0 where
  pub config : IndexBuilderConfig
  pub changelog : ChangelogBuffer
  pub state : BuildState

unfoldable pub new_builder : IndexBuilderConfig → RocksDbBuilderIndexEe
new_builder config = record {
  config = config;
  changelog = new_buffer ((config.memory_budget_mb * 1048576) % u64_mod);
  state = idle;
}

abbrev pub Pair : Type 0
Pair = Str × Str

-- class IndexIterator: what an implementation has.
pub record IndexIterator : Type 1 where
  pub Iterator : Type 0
  pub seek : Iterator → Str → Iterator
  pub valid : Iterator → Bool
  pub next : Iterator → Iterator
  pub key : Iterator → Str
  pub value : Iterator → Str

-- How a task ends: by a Boolean, by an exception, or not within the fuel.
pub data Ending : Type 0 where
  returned : Bool → Ending
  thrown out_of_fuel : Ending

unfoldable pub with_first : Pair → Ending × List Pair → Ending × List Pair
with_first p (ending, inserted) = (ending, p ∷ inserted)

module _ (ii : IndexIterator) (inserter : Str → Str → Option Bool) where
  open ii use {Iterator, seek, valid, next, key, value}

  -- while (iterator->valid())
  unfoldable pub scan_loop : ℕ → Str → Iterator → Ending × List Pair
  scan_loop zero upper it = (out_of_fuel, [])
  scan_loop (suc fuel) upper it =
      let rest = with_first (key it, value it) (scan_loop fuel upper (next it)) in
      if not (valid it)
      then (returned true, [])
      else if not (is_empty upper) && not (str_lt (key it) upper)
      then (returned true, [])
      else elim (inserter (key it) (value it)) [
        | none ↦ (thrown, [])
        | some false ↦ (returned false, [])
        | some true ↦ rest
      ]

-- The task of a range. The factory throws, gives no iterator or gives one.
module _ (ii : IndexIterator) (inserter : Str → Str → Option Bool)
    (factory : Str → Str → Option (Option ii.Iterator)) (fuel : ℕ) where
  open ii use {seek}

  unfoldable pub run_task : KeyRange → Ending × List Pair
  unfolding scan_loop with_first
  run_task range = elim (factory range.lower_bound range.upper_bound) [
    | none ↦ (thrown, [])
    | some none ↦ (returned false, [])
    | some (some it) ↦ scan_loop ii inserter fuel range.upper_bound (seek it range.lower_bound)
  ]

  -- for (auto const& range : partitions): whether the pool took all, and what the tasks did that it
  -- took; `pool_open i` is whether it takes the i-th.
  unfoldable pub submit_loop : (ℕ → Bool) → ℕ → List KeyRange → Bool × List (Ending × List Pair)
  unfolding run_task
  submit_loop pool_open i [] = (true, [])
  submit_loop pool_open i (range ∷ rest) =
      let (all_taken, results) = submit_loop pool_open (suc i) rest in
      if pool_open i then (all_taken, run_task range ∷ results) else (false, [])

-- for (auto& future : futures): `none` is a task that never ends.
unfoldable pub wait_loop : Bool → List (Ending × List Pair) → Option Bool
wait_loop all_succeeded [] = some all_succeeded
wait_loop all_succeeded ((out_of_fuel, _) ∷ rest) = none
wait_loop all_succeeded ((thrown, _) ∷ rest) = wait_loop false rest
wait_loop all_succeeded ((returned true, _) ∷ rest) = wait_loop all_succeeded rest
wait_loop all_succeeded ((returned false, _) ∷ rest) = wait_loop false rest

unfoldable pub all_inserted : List (Ending × List Pair) → List Pair
all_inserted [] = []
all_inserted ((_, inserted) ∷ rest) = inserted ++ all_inserted rest

abbrev pub is_idle : BuildState → Bool
is_idle idle = true
is_idle building = false
is_idle applying_changelog = false
is_idle swapping = false
is_idle complete = false
is_idle failed = false

abbrev pub is_building : BuildState → Bool
is_building idle = false
is_building building = true
is_building applying_changelog = false
is_building swapping = false
is_building complete = false
is_building failed = false

abbrev pub is_applying : BuildState → Bool
is_applying idle = false
is_applying building = false
is_applying applying_changelog = true
is_applying swapping = false
is_applying complete = false
is_applying failed = false

abbrev pub no_ranges : List KeyRange → Bool
no_ranges [] = true
no_ranges (r ∷ rest) = false

-- What a fill leaves; a result `none` is a call that never returns.
pub record Filled : Type 0 where
  pub builder : RocksDbBuilderIndexEe
  pub result : Option Bool
  pub inserted : List Pair

unfoldable pub finish : RocksDbBuilderIndexEe → Bool × List (Ending × List Pair) → Filled
unfolding wait_loop all_inserted
finish b (all_taken, results) =
    let given_up : Filled = record {
      builder = record b { state = failed };
      result = some false;
      inserted = all_inserted results;
    } in
    if not all_taken then given_up else elim (wait_loop true results) [
      | none ↦ record { builder = b; result = none; inserted = all_inserted results }
      | some true ↦ record { builder = b; result = some true; inserted = all_inserted results }
      | some false ↦ given_up
    ]

unfoldable pub fill_index_parallel :
    (ii : IndexIterator)
    → (Str → Str → Option Bool)
    → (Str → Str → Option (Option ii.Iterator))
    → ℕ
    → (ℕ → Bool)
    → Str
    → Str
    → RocksDbBuilderIndexEe
    → Filled
unfolding submit_loop finish partition
fill_index_parallel ii inserter factory fuel pool_open lower upper b =
    let b' = record b { state = building } in
    let partitions = partition lower upper b.config.num_threads in
    if not (is_idle b.state)
    then record { builder = b; result = some false; inserted = [] }
    else if no_ranges partitions && ltb 0 b.config.num_threads
    then record { builder = b'; result = some true; inserted = [] }
    else finish b' (submit_loop ii inserter factory fuel pool_open 0 partitions)

-- A string's capacity is the standard library's (as for the changelog).
unfoldable pub buffer_write :
    (Str → ℕ) → RocksDbBuilderIndexEe → ChangelogEntry → RocksDbBuilderIndexEe × Bool
unfolding append
buffer_write capacity b entry =
    let (changelog', accepted) = append capacity b.changelog entry in
    if not b.config.background_mode
    then (b, false)
    else if not (is_building b.state)
    then (b, false)
    else (record b { changelog = changelog' }, accepted)

-- The callback's body, over whether all have succeeded and the index's own state.
unfoldable pub apply_entry :
    {S : Type 0} → (S → ChangelogEntry → Bool × S) → Bool × S → ChangelogEntry → Bool × S
apply_entry applier (true, s) entry = applier s entry
apply_entry applier (false, s) entry = (false, s)

unfoldable pub apply_changelog :
    {S : Type 0}
    → (S → ChangelogEntry → Bool × S)
    → RocksDbBuilderIndexEe
    → S
    → RocksDbBuilderIndexEe × Bool × S
unfolding for_each apply_entry clear
apply_changelog applier b s =
    let (success, s') = for_each (apply_entry applier) b.changelog.entries (true, s) in
    if not (is_building b.state)
    then (b, false, s)
    else if not success
    then (record b { state = failed }, false, s')
    else (record b { state = applying_changelog; changelog = clear b.changelog }, true, s')

-- The callback throws or changes what is published.
unfoldable pub atomic_swap :
    {S : Type 0} → (S → Option S) → RocksDbBuilderIndexEe → S → RocksDbBuilderIndexEe × Bool × S
atomic_swap swap_callback b s =
    if not (is_applying b.state) then (b, false, s) else elim (swap_callback s) [
      | none ↦ (record b { state = failed }, false, s)
      | some s' ↦ (record b { state = complete }, true, s')
    ]
