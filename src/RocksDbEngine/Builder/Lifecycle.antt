-- ===== src/RocksDbEngine/Builder/Lifecycle.antt =====
-- The life of a build: the writes that arrive while it runs reach the index, and a build that has
-- ended stays as it is.
pub mod Race
use open_arango_dbcore.Prelude.{
  ℕ, ◌≡◌, refl, sym, ap, ◌∙◌, Bool, true, false, ◌&&◌, not, Option, none, some, List, [], ◌∷◌, ◌++◌,
  Str, inl, inr, ◌⊎◌, Bool-cases, if◌then◌else◌, arith,
}
use open_arango_dbcore.RocksDbEngine.Changelog.{
  ChangelogEntry, ChangelogBuffer, new_buffer, append, for_each, clear,
}
use open_arango_dbcore.RocksDbEngine.Changelog.Budget.{InBudget, append_all, append_all-InBudget}
use open_arango_dbcore.RocksDbEngine.Builder.{
  RocksDbBuilderIndexEe, BuildState, building, applying_changelog, complete, failed, is_building,
  is_applying, buffer_write, apply_entry, apply_changelog, atomic_swap,
}

-- A run of writes and those that were accepted.
unfoldable pub write_all :
    (Str → ℕ)
    → List ChangelogEntry
    → RocksDbBuilderIndexEe
    → RocksDbBuilderIndexEe × List ChangelogEntry
write_all capacity [] b = (b, [])
write_all capacity (entry ∷ rest) b =
    let (after, accepted) = buffer_write capacity b entry in
    let (last, more) = write_all capacity rest after in
    (last, if accepted then entry ∷ more else more)

buffer_write-append :
    (capacity : Str → ℕ) (b : RocksDbBuilderIndexEe) (entry : ChangelogEntry)
    → is_building b.state ≡ true
    → b.config.background_mode ≡ true
    → buffer_write capacity b entry ≡ (
      record b { changelog = (append capacity b.changelog entry).0 },
      (append capacity b.changelog entry).1,
    )
unfolding buffer_write
buffer_write-append capacity b entry runs background = rw (background, runs, buffer_write) (refl)

-- While a background build runs, writes go to the changelog.
write_all-append_all :
    (capacity : Str → ℕ) (added : List ChangelogEntry) (b : RocksDbBuilderIndexEe)
    → is_building b.state ≡ true
    → b.config.background_mode ≡ true
    → write_all capacity added b ≡ (
      record b { changelog = (append_all capacity added b.changelog).0 },
      (append_all capacity added b.changelog).1,
    )
unfolding write_all append_all
write_all-append_all capacity [] b runs background = refl
write_all-append_all capacity (entry ∷ rest) b runs background =
    let changelog' : ChangelogBuffer = (append capacity b.changelog entry).0 in
    rw
      (
        buffer_write-append capacity b entry runs background,
        write_all-append_all capacity rest (record b { changelog = changelog' }) runs background,
      )
      (refl)

-- An applier that takes every entry sees them all, in order.
for_each-apply_entry :
    {S : Type 0} (applier : S → ChangelogEntry → Bool × S) (step : S → ChangelogEntry → S)
    → ((s : S) (entry : ChangelogEntry) → applier s entry ≡ (true, step s entry))
    → (entries : List ChangelogEntry) (s : S)
    → for_each (apply_entry applier) entries (true, s) ≡ (true, for_each step entries s)
unfolding for_each apply_entry
for_each-apply_entry applier step takes [] s = refl
for_each-apply_entry applier step takes (entry ∷ rest) s =
    rw (takes s entry) (for_each-apply_entry applier step takes rest (step s entry))

apply_changelog_takes :
    {S : Type 0} (applier : S → ChangelogEntry → Bool × S) (step : S → ChangelogEntry → S)
    → ((s : S) (entry : ChangelogEntry) → applier s entry ≡ (true, step s entry))
    → (b : RocksDbBuilderIndexEe) (s : S) → is_building b.state ≡ true
    → apply_changelog applier b s ≡ (
      record b { state = applying_changelog; changelog = clear b.changelog },
      true,
      for_each step b.changelog.entries s,
    )
unfolding apply_changelog
apply_changelog_takes applier step takes b s runs =
    rw (runs, for_each-apply_entry applier step takes b.changelog.entries s, apply_changelog) (refl)

atomic_swap_publishes :
    {S : Type 0} (swap_callback : S → Option S) (b : RocksDbBuilderIndexEe) (s s' : S)
    → is_applying b.state ≡ true
    → swap_callback s ≡ some s'
    → atomic_swap swap_callback b s ≡ (record b { state = complete }, true, s')
unfolding atomic_swap
atomic_swap_publishes swap_callback b s s' applies swaps = rw (applies, swaps, atomic_swap) (refl)

-- Writes that arrive while a background build runs reach the index: from a building builder in
-- background mode whose changelog is empty and within its budget, after any run of writes, an
-- applier that takes every entry is given the accepted ones, in order, and no other; the changelog
-- is then empty, and a swap whose callback returns completes the build.
pub apply_changelog-write_all :
    {S : Type 0} (capacity : Str → ℕ) (added : List ChangelogEntry) (b : RocksDbBuilderIndexEe)
    (applier : S → ChangelogEntry → Bool × S) (step : S → ChangelogEntry → S)
    (swap_callback : S → Option S) (s s' : S)
    → is_building b.state ≡ true
    → b.config.background_mode ≡ true
    → b.changelog.entries ≡ []
    → InBudget capacity b.changelog
    → ((s : S) (entry : ChangelogEntry) → applier s entry ≡ (true, step s entry))
    → swap_callback (for_each step (write_all capacity added b).1 s) ≡ some s'
    → (let (written, accepted) = write_all capacity added b in
        let (applied, success, index) = apply_changelog applier written s in
        let (swapped, published, result) = atomic_swap swap_callback applied index in
        (success ≡ true)
        × (index ≡ for_each step accepted s)
        × (applied.changelog.entries ≡ [])
        × (published ≡ true)
        × (swapped.state ≡ complete)
        × (result ≡ s'))
unfolding clear
apply_changelog-write_all {S} capacity added b applier step swap_callback s s' runs background empty
      budget takes swaps =
    let (written, accepted) = write_all capacity added b in
    let (changelog', kept) = append_all capacity added b.changelog in
    let all_written = write_all-append_all capacity added b runs background in
    let runs' : is_building written.state ≡ true =
      ap (λ (w : RocksDbBuilderIndexEe × List ChangelogEntry). is_building w.0.state) all_written
      ∙ runs in
    let grown : written.changelog.entries ≡ accepted =
      ap (λ (w : RocksDbBuilderIndexEe × List ChangelogEntry). w.0.changelog.entries) all_written
      ∙ (append_all-InBudget capacity added b.changelog budget).1
      ∙ ap (λ es. es ++ kept) empty
      ∙ sym (ap (λ (w : RocksDbBuilderIndexEe × List ChangelogEntry). w.1) all_written) in
    let applied : apply_changelog applier written s ≡ (
      record written { state = applying_changelog; changelog = clear written.changelog },
      true,
      for_each step accepted s,
    ) =
      apply_changelog_takes applier step takes written s runs'
      ∙ ap
          (λ (es : List ChangelogEntry).
            let r : RocksDbBuilderIndexEe × Bool × S = (
              record written { state = applying_changelog; changelog = clear written.changelog },
              true,
              for_each step es s,
            ) in
            r)
          grown in
    let published =
      atomic_swap_publishes swap_callback
        (record written { state = applying_changelog; changelog = clear written.changelog })
        (for_each step accepted s) s' refl swaps in
    rw (applied, published) (refl, refl, refl, refl, refl, refl)
