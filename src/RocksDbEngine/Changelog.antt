-- ===== src/RocksDbEngine/Changelog.antt =====
-- Enterprise/RocksDBEngine/ChangelogBuffer.{h,cpp}: the writes that arrive while an index is built.
-- Each method holds the lock for its whole body. What a string's capacity is depends on the
-- standard library's allocation, so it is a parameter.
pub mod Budget
mod Examples
use open_arango_dbcore.Prelude.{
  ℕ, ◌+◌, ◌%◌, Bool, true, false, List, [], ◌∷◌, ◌++◌, ltb, length, Str, u64_mod,
}

pub data ChangelogOpType : Type 0 where
  insert_op update_op delete_op : ChangelogOpType

pub record ChangelogEntry : Type 0 where
  pub op_type : ChangelogOpType
  pub document_key : Str
  pub document_rev : Str
  pub document_data : Str

pub record ChangelogBuffer : Type 0 where
  pub entries : List ChangelogEntry
  pub memory_budget_bytes : ℕ
  pub current_memory_usage : ℕ

abbrev pub new_buffer : ℕ → ChangelogBuffer
new_buffer memory_budget_bytes = record {
  entries = [];
  memory_budget_bytes = memory_budget_bytes;
  current_memory_usage = 0;
}

-- 1 + 3 * 32 + 8
abbrev pub entry_base_overhead : ℕ
entry_base_overhead = 105

unfoldable pub estimate_entry_size : (Str → ℕ) → ChangelogEntry → ℕ
estimate_entry_size capacity entry =
    (entry_base_overhead
      + capacity entry.document_key
      + capacity entry.document_rev
      + capacity entry.document_data)
    % u64_mod

unfoldable pub append : (Str → ℕ) → ChangelogBuffer → ChangelogEntry → ChangelogBuffer × Bool
append capacity b entry =
    let entry_size : ℕ = estimate_entry_size capacity entry in
    elim (ltb b.memory_budget_bytes ((b.current_memory_usage + entry_size) % u64_mod)) [
      | true ↦ (b, false)
      | false ↦ (
        record b {
          current_memory_usage = (b.current_memory_usage + entry_size) % u64_mod;
          entries = b.entries ++ entry ∷ [];
        },
        true,
      )
    ]

-- The callback is a step on a state of the caller.
unfoldable pub for_each : {S : Type 0} → (S → ChangelogEntry → S) → List ChangelogEntry → S → S
for_each cb [] s = s
for_each cb (entry ∷ rest) s = for_each cb rest (cb s entry)

unfoldable pub size : ChangelogBuffer → ℕ
size b = length b.entries % u64_mod

unfoldable pub memory_usage : ChangelogBuffer → ℕ
memory_usage b = b.current_memory_usage

unfoldable pub clear : ChangelogBuffer → ChangelogBuffer
clear b = record b { entries = []; current_memory_usage = 0 }
