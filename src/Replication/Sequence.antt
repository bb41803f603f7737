-- ===== src/Replication/Sequence.antt =====
-- Enterprise/Replication/SequenceNumberGenerator.{h,cpp}, SequenceNumberTracker.{h,cpp},
-- IdempotencyChecker.{h,cpp} and DirectMQMessage.h: the numbers of messages on the two sides.
-- Each method holds its lock for its whole body, so it is one step; `nextSequence` is two (below).
pub mod Numbering
pub mod Interleaving
pub mod Replay
mod Examples
use open_arango_dbcore.Prelude.{
  ℕ, ◌+◌, ◌%◌, Bool, true, false, Option, none, some, List, [], ◌∷◌, ◌++◌, ltb, leb, if◌then◌else◌,
  length, set, get_or, max, u64_mod, Str, str_key, Map, find, insert,
}

pub data Operation : Type 0 where
  insert_op update_op delete_op : Operation

pub record DirectMqMessage : Type 0 where
  pub shard_id : Str
  pub sequence : ℕ
  pub operation : Operation
  pub payload : List ℕ

-- The map holds pointers to atomic counters; `cells` is where they point, and a pointer is an index.
pub record SequenceNumberGenerator : Type 0 where
  pub counters : Map Str ℕ
  pub cells : List ℕ

abbrev pub new_generator : SequenceNumberGenerator
new_generator = record { counters = []; cells = [] }

-- The fast path and the slow path give the same pointer; `emplace` keeps a counter that is there.
unfoldable pub get_or_create : SequenceNumberGenerator → Str → SequenceNumberGenerator × ℕ
get_or_create g shard = elim (find shard g.counters) [
  | some pointer ↦ (g, pointer)
  | none ↦ (
    record g { counters = insert shard (length g.cells) g.counters; cells = g.cells ++ 0 ∷ [] },
    length g.cells,
  )
]

-- counter->fetch_add(1), which returns the value before the addition
unfoldable pub fetch_add : SequenceNumberGenerator → ℕ → SequenceNumberGenerator × ℕ
fetch_add g pointer =
    let old : ℕ = get_or g.cells pointer 0 in
    (record g { cells = set g.cells pointer ((old + 1) % u64_mod) }, old)

unfoldable pub next_sequence : SequenceNumberGenerator → Str → SequenceNumberGenerator × ℕ
next_sequence g shard =
    let (found, pointer) = get_or_create g shard in
    let (added, old) = fetch_add found pointer in (added, (old + 1) % u64_mod)

unfoldable pub current_sequence : SequenceNumberGenerator → Str → ℕ
current_sequence g shard = elim (find shard g.counters) [
  | none ↦ 0
  | some pointer ↦ get_or g.cells pointer 0
]

unfoldable pub reset : SequenceNumberGenerator → SequenceNumberGenerator
reset g = record g { counters = [] }

-- The target's side: the last applied sequence of each shard.
pub record SequenceNumberTracker : Type 0 where
  pub last_applied : Map Str ℕ

abbrev pub new_tracker : SequenceNumberTracker
new_tracker = record { last_applied = [] }

unfoldable pub is_already_applied : SequenceNumberTracker → Str → ℕ → Bool
is_already_applied t shard seq = elim (find shard t.last_applied) [
  | none ↦ false
  | some last ↦ leb seq last
]

unfoldable pub mark_applied : SequenceNumberTracker → Str → ℕ → SequenceNumberTracker
mark_applied t shard seq = elim (find shard t.last_applied) [
  | none ↦ record { last_applied = insert shard seq t.last_applied }
  | some last ↦ record { last_applied = insert shard (max last seq) t.last_applied }
]

unfoldable pub last_applied_sequence : SequenceNumberTracker → Str → ℕ
last_applied_sequence t shard = elim (find shard t.last_applied) [ none ↦ 0 | some last ↦ last ]

unfoldable pub get_state : SequenceNumberTracker → Map Str ℕ
get_state t = t.last_applied

unfoldable pub restore_state : SequenceNumberTracker → Map Str ℕ → SequenceNumberTracker
restore_state t state = record { last_applied = state }

unfoldable pub reset_tracker : SequenceNumberTracker → SequenceNumberTracker
reset_tracker t = record { last_applied = [] }

pub data CheckResult : Type 0 where
  accepted rejected out_of_order : CheckResult

unfoldable pub check : SequenceNumberTracker → DirectMqMessage → CheckResult
check t msg =
    if is_already_applied t msg.shard_id msg.sequence
    then rejected
    else let expected_next : ℕ = (last_applied_sequence t msg.shard_id + 1) % u64_mod in
      if ltb expected_next msg.sequence then out_of_order else accepted

unfoldable pub accept : SequenceNumberTracker → DirectMqMessage → SequenceNumberTracker
accept t msg = mark_applied t msg.shard_id msg.sequence
