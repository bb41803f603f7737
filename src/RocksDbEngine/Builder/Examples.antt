-- ===== src/RocksDbEngine/Builder/Examples.antt =====
-- Tests of the builder, and the theorems on a small snapshot.
use open_arango_dbcore.Prelude.{
  ℕ, zero, suc, ◌≡◌, refl, ap, Bool, true, false, Option, none, some, List, [], ◌∷◌, ◌++◌, Str,
  arith,
}
use open_arango_dbcore.RocksDbEngine.Changelog.{
  ChangelogEntry, ChangelogOpType, insert_op, append, for_each, estimate_entry_size, clear,
}
use open_arango_dbcore.RocksDbEngine.Changelog.Budget.{InBudget}
use open_arango_dbcore.RocksDbEngine.Partitioner.{partition}
use open_arango_dbcore.RocksDbEngine.Builder.{
  IndexBuilderConfig, RocksDbBuilderIndexEe, new_builder, building, applying_changelog, failed,
  complete, Pair, IndexIterator, fill_index_parallel, buffer_write, apply_changelog, atomic_swap,
}
use open_arango_dbcore.RocksDbEngine.Builder.Scan.{from_key, IsCursor}
use open_arango_dbcore.RocksDbEngine.Builder.Coverage.{IsSorted, in_range}
use open_arango_dbcore.RocksDbEngine.Builder.Fill.{fill_index_parallel_open}
use open_arango_dbcore.RocksDbEngine.Builder.Verdict.{
  AllTaken, tasks_of, IsVerdict, fill_index_parallel-IsVerdict,
}
use open_arango_dbcore.RocksDbEngine.Builder.Lifecycle.{write_all, apply_changelog-write_all}
use open_arango_dbcore.RocksDbEngine.Builder.Lifecycle.Race.{
  Shared, Reach, here, next, check, append_checked, begin_apply, replay, clear_changelog, started,
  begun, replayed, cleared, accepted_write_lost, Reach-Placed,
}

-- Four documents, in the order of their keys; the last is beyond the split points.
abbrev documents : List Pair
documents =
    (b'a' ∷ [], 1 ∷ []) ∷ (b'b' ∷ [], 2 ∷ []) ∷ (b'b' ∷ 100 ∷ [], 3 ∷ []) ∷ (b'c' ∷ [], 4 ∷ []) ∷ []

abbrev head_key : List Pair → Str
head_key [] = []
head_key ((k, v) ∷ rest) = k

abbrev head_value : List Pair → Str
head_value [] = []
head_value ((k, v) ∷ rest) = v

abbrev behind : List Pair → List Pair
behind [] = []
behind (p ∷ rest) = rest

abbrev has_more : List Pair → Bool
has_more [] = false
has_more (p ∷ rest) = true

-- An iterator is what is left of the snapshot.
abbrev list_iterator : IndexIterator
list_iterator = record {
  Iterator = List Pair;
  seek = λ _ k. from_key k documents;
  valid = has_more;
  next = behind;
  key = head_key;
  value = head_value;
}

abbrev list_cursor : IsCursor list_iterator documents
list_cursor = record {
  left = λ it. it;
  seek_law = λ _ k. refl;
  end_law = λ it at. ap has_more at;
  key_law = λ it k v rest at. ap head_key at;
  value_law = λ it k v rest at. ap head_value at;
  valid_law = λ it k v rest at. ap has_more at;
  next_law = λ it k v rest at. ap behind at;
}

abbrev accept_all : Str → Str → Option Bool
accept_all k v = some true

abbrev whole : Str → Str → Option (Option (List Pair))
whole lower upper = some (some documents)

abbrev background : IndexBuilderConfig
background = record { num_threads = 3; memory_budget_mb = 1; background_mode = true }

abbrev always : ℕ → Bool
always i = true

filled :
    fill_index_parallel list_iterator accept_all whole 9 always
      (b'b' ∷ [])
      []
      (new_builder background)
    ≡ record {
      builder = record (new_builder background) { state = building };
      result = some true;
      inserted = (b'b' ∷ [], 2 ∷ []) ∷ (b'b' ∷ 100 ∷ [], 3 ∷ []) ∷ (b'c' ∷ [], 4 ∷ []) ∷ [];
    }
unfolding fill_index_parallel new_builder open_arango_dbcore.RocksDbEngine.Partitioner.ranges_loop
    open_arango_dbcore.RocksDbEngine.Partitioner.splits_loop from_key
    open_arango_dbcore.RocksDbEngine.Partitioner.str_lt
    open_arango_dbcore.RocksDbEngine.Partitioner.split_key
filled = refl

abbrev if_first : Str → Option Bool
if_first [] = none
if_first (zero ∷ rest) = none
if_first (suc zero ∷ rest) = some true
if_first (suc (suc n) ∷ rest) = none

-- The second insertion throws.
failing :
    (fill_index_parallel list_iterator
      (λ k v. if_first v)
      whole
      9
      always
      []
      []
      (new_builder background)).builder
    ≡ record (new_builder background) { state = failed }
unfolding fill_index_parallel new_builder open_arango_dbcore.RocksDbEngine.Partitioner.ranges_loop
    open_arango_dbcore.RocksDbEngine.Partitioner.splits_loop from_key
    open_arango_dbcore.RocksDbEngine.Partitioner.str_lt
    open_arango_dbcore.RocksDbEngine.Partitioner.split_key
failing = refl

-- With no threads, nothing is indexed and the fill succeeds all the same.
no_threads :
    fill_index_parallel list_iterator accept_all whole 9 always [] []
      (new_builder (record background { num_threads = 0 }))
    ≡ record {
      builder = record (new_builder (record background { num_threads = 0 })) { state = building };
      result = some true;
      inserted = [];
    }
unfolding fill_index_parallel new_builder
no_threads = refl

abbrev building_now : RocksDbBuilderIndexEe
building_now = record (new_builder background) { state = building }

abbrev entry_of : ℕ → ChangelogEntry
entry_of n = record {
  op_type = insert_op;
  document_key = n ∷ [];
  document_rev = [];
  document_data = [];
}

-- A capacity for each string.
abbrev fifteen : Str → ℕ
fifteen s = 15

documents-IsSorted : IsSorted documents
unfolding IsSorted open_arango_dbcore.RocksDbEngine.Partitioner.str_lt
documents-IsSorted = (refl, (refl, (refl, tt)))

fill_index_parallel_open_example :
    fill_index_parallel list_iterator accept_all whole 9 always
      (b'b' ∷ [])
      []
      (new_builder background)
    ≡ record {
      builder = record (new_builder background) { state = building };
      result = some true;
      inserted = in_range (b'b' ∷ []) [] documents;
    }
unfolding new_builder
fill_index_parallel_open_example =
    fill_index_parallel_open list_iterator documents list_cursor accept_all
      (refl, (refl, (refl, (refl, tt)))) whole (λ lower upper. (documents, refl)) 9 (omega arith)
      always (λ i. refl) (b'b' ∷ []) (new_builder background) refl (omega arith) documents-IsSorted

fill_index_parallel-IsVerdict_example :
    IsVerdict
      (new_builder background)
      (AllTaken always 0 (partition [] (b'c' ∷ []) 3))
      (tasks_of list_iterator accept_all whole 9 (partition [] (b'c' ∷ []) 3))
      (fill_index_parallel list_iterator accept_all whole 9 always []
        (b'c' ∷ [])
        (new_builder background))
unfolding new_builder
fill_index_parallel-IsVerdict_example =
    fill_index_parallel-IsVerdict list_iterator accept_all whole 9 always [] (b'c' ∷ [])
      (new_builder background) refl

-- An applier that collects what it is given.
abbrev collect : List ChangelogEntry → ChangelogEntry → List ChangelogEntry
collect s entry = s ++ entry ∷ []

abbrev collector : List ChangelogEntry → ChangelogEntry → Bool × List ChangelogEntry
collector s entry = (true, collect s entry)

building_now-InBudget : InBudget fifteen building_now.changelog
unfolding open_arango_dbcore.RocksDbEngine.Changelog.Budget.total_size new_builder
building_now-InBudget = record { counted = refl; within = omega arith }

two_written :
    (write_all fifteen (entry_of 1 ∷ entry_of 2 ∷ []) building_now).1 ≡ entry_of 1 ∷ entry_of 2 ∷ []
unfolding write_all buffer_write new_builder
    open_arango_dbcore.RocksDbEngine.Changelog.estimate_entry_size
two_written = refl

apply_changelog-write_all_example :
    (let (written, accepted) = write_all fifteen (entry_of 1 ∷ entry_of 2 ∷ []) building_now in
      let (applied, success, index) = apply_changelog collector written [] in
      let (swapped, published, result) = atomic_swap some applied index in
      (success ≡ true)
      × (index ≡ for_each collect accepted [])
      × (applied.changelog.entries ≡ [])
      × (published ≡ true)
      × (swapped.state ≡ complete)
      × (result ≡ for_each collect accepted []))
unfolding new_builder
apply_changelog-write_all_example =
    apply_changelog-write_all fifteen (entry_of 1 ∷ entry_of 2 ∷ []) building_now collector collect
      some []
      (for_each collect (write_all fifteen (entry_of 1 ∷ entry_of 2 ∷ []) building_now).1 []) refl
      refl refl building_now-InBudget (λ s entry. refl) refl

accepted_write_lost_example :
    (r : Shared) × Reach fifteen (started building_now) r
    × (r.stage ≡ cleared)
    × (r.accepted ≡ entry_of 1 ∷ [])
    × (r.applied ≡ [])
    × (r.builder.changelog.entries ≡ [])
unfolding new_builder append open_arango_dbcore.RocksDbEngine.Changelog.estimate_entry_size
accepted_write_lost_example =
    accepted_write_lost fifteen building_now (entry_of 1) refl refl refl refl

-- One write, then the three steps of the applier.
abbrev after_write : Shared
after_write = record (started building_now) {
  builder = record building_now {
    changelog = (append fifteen building_now.changelog (entry_of 1)).0;
  };
  accepted = entry_of 1 ∷ [];
}

quiet_run :
    (r : Shared) × Reach fifteen (started building_now) r
    × (r.stage ≡ cleared)
    × (r.accepted ≡ entry_of 1 ∷ [])
unfolding append estimate_entry_size new_builder clear
quiet_run =
    let s0 : Shared = started building_now in
    let s1 : Shared = record s0 { checked = entry_of 1 ∷ [] } in
    let s2 : Shared = after_write in
    let s3 : Shared = record s2 {
      stage = begun;
      builder = record s2.builder { state = applying_changelog };
    } in
    let s4 : Shared = record s3 {
      stage = replayed;
      applied = entry_of 1 ∷ [];
      at_replay = entry_of 1 ∷ [];
    } in
    let s5 : Shared = record s4 {
      stage = cleared;
      builder = record s4.builder { changelog = clear s4.builder.changelog };
    } in
    (
      s5,
      next
          (next
            (next
              (next (next here (check s0 (entry_of 1) refl refl))
                (append_checked s1 [] [] (entry_of 1) s2.builder.changelog true refl refl))
              (begin_apply s2 refl refl))
            (replay s3 refl))
          (clear_changelog s4 refl),
      refl,
      refl,
    )

Reach-Placed_example :
    (cut : List ChangelogEntry) × (quiet_run.0.applied ≡ quiet_run.0.at_replay)
    × (quiet_run.0.accepted
        ≡ quiet_run.0.at_replay ++ (cut ++ quiet_run.0.builder.changelog.entries))
unfolding new_builder quiet_run
Reach-Placed_example = Reach-Placed fifteen building_now refl quiet_run.1
