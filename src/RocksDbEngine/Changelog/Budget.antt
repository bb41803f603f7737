-- ===== src/RocksDbEngine/Changelog/Budget.antt =====
-- ChangelogBuffer.cpp keeps its budget, and keeps what it accepts.
use open_arango_dbcore.Prelude.{
  ℕ, ◌+◌, ◌%◌, ◌≤◌, ◌≡◌, refl, sym, ap, ◌∙◌, Bool, true, false, inl, inr, List, [], ◌∷◌, ◌++◌,
  append_assoc, append_nil, ltb, if◌then◌else◌, Str, u64_mod, Bool-cases, arith,
}
use open_arango_dbcore.RocksDbEngine.Changelog.{
  ChangelogEntry, ChangelogBuffer, estimate_entry_size, append,
}

-- The entries of a run of `append`s that were accepted.
unfoldable pub append_all :
    (Str → ℕ) → List ChangelogEntry → ChangelogBuffer → ChangelogBuffer × List ChangelogEntry
append_all capacity [] b = (b, [])
append_all capacity (entry ∷ rest) b =
    let (after, accepted) = append capacity b entry in
    let (last, more) = append_all capacity rest after in
    (last, if accepted then entry ∷ more else more)

unfoldable pub total_size : (Str → ℕ) → List ChangelogEntry → ℕ
total_size capacity [] = 0
total_size capacity (entry ∷ rest) = estimate_entry_size capacity entry + total_size capacity rest

total_size-append :
    (capacity : Str → ℕ) (xs ys : List ChangelogEntry)
    → total_size capacity (xs ++ ys) ≡ total_size capacity xs + total_size capacity ys
unfolding total_size
total_size-append capacity [] ys = omega arith
total_size-append capacity (x ∷ xs) ys = omega (arith, total_size-append capacity xs ys)

-- The usage is what the kept entries amount to, in a 64-bit word, and within the budget.
pub record InBudget (capacity : Str → ℕ) (b : ChangelogBuffer) : Type 0 where
  pub counted : b.current_memory_usage ≡ total_size capacity b.entries % u64_mod
  pub within : b.current_memory_usage ≤ b.memory_budget_bytes

append-InBudget :
    (capacity : Str → ℕ) (b : ChangelogBuffer) (entry : ChangelogEntry)
    → InBudget capacity b
    → InBudget capacity (append capacity b entry).0
      × ((append capacity b entry).0.entries
          ≡ b.entries ++ (if (append capacity b entry).1 then entry ∷ [] else []))
      × ((append capacity b entry).0.memory_budget_bytes ≡ b.memory_budget_bytes)
unfolding append total_size
append-InBudget capacity b entry h =
    elim (Bool-cases (
      ltb b.memory_budget_bytes
        ((b.current_memory_usage + estimate_entry_size capacity entry) % u64_mod))) [
          | inl full ↦ rw (full, append) (h, sym (append_nil b.entries), refl)
          | inr room ↦
              rw (room, append)
                (
                  record {
                    counted =
                        omega (arith, h.counted, total_size-append capacity b.entries (entry ∷ []));
                    within = ground (arith, room);
                  },
                  refl,
                  refl,
                )
        ]

joins :
    (accepted : Bool) (kept : List ChangelogEntry) (entry : ChangelogEntry)
    (more : List ChangelogEntry)
    → (kept ++ (if accepted then entry ∷ [] else [])) ++ more
      ≡ kept ++ (if accepted then entry ∷ more else more)
joins true kept entry more = append_assoc kept (entry ∷ []) more
joins false kept entry more = ap (λ t. t ++ more) (append_nil kept)

-- From a buffer within its budget, any run of appends ends within the budget, with the usage of
-- what it keeps; and it keeps what was there and then the accepted entries, in order.
pub append_all-InBudget :
    (capacity : Str → ℕ) (added : List ChangelogEntry) (b : ChangelogBuffer)
    → InBudget capacity b
    → InBudget capacity (append_all capacity added b).0
      × ((append_all capacity added b).0.entries ≡ b.entries ++ (append_all capacity added b).1)
unfolding append_all
append_all-InBudget capacity [] b h = (h, sym (append_nil b.entries))
append_all-InBudget capacity (entry ∷ rest) b h =
    let (kept, grown, same) = append-InBudget capacity b entry h in
    let (after, accepted) = append capacity b entry in
    let later = append_all-InBudget capacity rest after kept in
    (
      later.0,
      later.1
          ∙ ap (λ t. t ++ (append_all capacity rest after).1) grown
          ∙ joins accepted b.entries entry (append_all capacity rest after).1,
    )
