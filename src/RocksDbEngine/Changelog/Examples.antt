-- ===== src/RocksDbEngine/Changelog/Examples.antt =====
-- A run of the code modelled in Changelog.antt.
use open_arango_dbcore.Prelude.{ℕ, ◌+◌, ◌≡◌, refl, [], ◌∷◌, length, Str, arith}
use open_arango_dbcore.RocksDbEngine.Changelog.{
  ChangelogEntry, ChangelogBuffer, insert_op, new_buffer,
}
use open_arango_dbcore.RocksDbEngine.Changelog.Budget.{InBudget, total_size, append_all}

abbrev entry : ChangelogEntry
entry = record {
  op_type = insert_op;
  document_key = 1 ∷ [];
  document_rev = [];
  document_data = 2 ∷ 3 ∷ [];
}

abbrev buffer : ChangelogBuffer
buffer = new_buffer 250

-- A capacity of at least fifteen bytes, as small strings have.
abbrev capacity : Str → ℕ
capacity s = length s + 15

buffer-InBudget : InBudget capacity buffer
unfolding total_size
buffer-InBudget = record { counted = refl; within = omega arith }

one_fits : (append_all capacity (entry ∷ entry ∷ []) buffer).1 ≡ entry ∷ []
unfolding append_all open_arango_dbcore.RocksDbEngine.Changelog.append
    open_arango_dbcore.RocksDbEngine.Changelog.estimate_entry_size
one_fits = refl
