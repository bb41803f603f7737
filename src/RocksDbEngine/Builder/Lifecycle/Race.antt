-- ===== src/RocksDbEngine/Builder/Lifecycle/Race.antt =====
-- bufferWrite and applyChangelog on their threads. A writer reads the state and appends in two steps,
-- and any number of writers may stand between the two; the applier moves the state, replays under the
-- changelog's lock and clears under it again, in three. The steps are those of an applier that takes
-- every entry.
use open_arango_dbcore.Prelude.{
  ℕ, ◌≡◌, refl, sym, ap, subst, ◌∙◌, Bool, true, List, [], ◌∷◌, ◌++◌, Str, if◌then◌else◌,
  append_nil, append_assoc, arith,
}
use open_arango_dbcore.RocksDbEngine.Changelog.{ChangelogEntry, ChangelogBuffer, append, clear}
use open_arango_dbcore.RocksDbEngine.Builder.{
  RocksDbBuilderIndexEe, applying_changelog, is_building,
}

-- How far applyChangelog is.
pub data Stage : Type 0 where
  not_started begun replayed cleared : Stage

-- The builder, the entries of the writers that have read the state and not appended, what the applier
-- was given, the writes that returned true, and those that had done so at the replay.
pub record Shared : Type 0 where
  pub builder : RocksDbBuilderIndexEe
  pub stage : Stage
  pub checked : List ChangelogEntry
  pub applied : List ChangelogEntry
  pub accepted : List ChangelogEntry
  pub at_replay : List ChangelogEntry

module _ (capacity : Str → ℕ) where
  pub data Step : Shared → Shared → Type 0 where
    check :
        (r : Shared) (entry : ChangelogEntry)
        → r.builder.config.background_mode ≡ true
        → is_building r.builder.state ≡ true
        → Step r (record r { checked = entry ∷ r.checked })
    append_checked :
        (r : Shared) (front back : List ChangelogEntry) (entry : ChangelogEntry)
        (changelog : ChangelogBuffer) (taken : Bool)
        → r.checked ≡ front ++ entry ∷ back
        → append capacity r.builder.changelog entry ≡ (changelog, taken)
        → Step r (record r {
          checked = front ++ back;
          builder = record r.builder { changelog = changelog };
          accepted = r.accepted ++ (if taken then entry ∷ [] else []);
        })
    begin_apply :
        (r : Shared)
        → is_building r.builder.state ≡ true
        → r.stage ≡ not_started
        → Step r
            (record r { stage = begun; builder = record r.builder { state = applying_changelog } })
    replay :
        (r : Shared)
        → r.stage ≡ begun
        → Step r (record r {
          stage = replayed;
          applied = r.applied ++ r.builder.changelog.entries;
          at_replay = r.accepted;
        })
    clear_changelog :
        (r : Shared)
        → r.stage ≡ replayed
        → Step r (record r {
          stage = cleared;
          builder = record r.builder { changelog = clear r.builder.changelog };
        })

  pub data Reach (s : Shared) : Shared → Type 0 where
    here : Reach s s
    next : {t u : Shared} → Reach s t → Step t u → Reach s u

abbrev pub started : RocksDbBuilderIndexEe → Shared
started b = record {
  builder = b;
  stage = not_started;
  checked = [];
  applied = [];
  accepted = [];
  at_replay = [];
}

-- A write that returned true can be lost: from any background build with an empty changelog, and for
-- any entry that the changelog has room for, the two threads can run so that bufferWrite returns
-- true for the entry, applyChangelog runs to its end, and the entry was neither given to the applier
-- nor is it in the changelog.
pub accepted_write_lost :
    (capacity : Str → ℕ) (b : RocksDbBuilderIndexEe) (entry : ChangelogEntry)
    → b.config.background_mode ≡ true
    → is_building b.state ≡ true
    → b.changelog.entries ≡ []
    → (append capacity b.changelog entry).1 ≡ true
    → (r : Shared) × Reach capacity (started b) r
      × (r.stage ≡ cleared)
      × (r.accepted ≡ entry ∷ [])
      × (r.applied ≡ [])
      × (r.builder.changelog.entries ≡ [])
unfolding clear
accepted_write_lost capacity b entry background runs empty room =
    let s0 : Shared = started b in
    let s1 : Shared = record s0 { checked = entry ∷ [] } in
    let s2 : Shared = record s1 {
      stage = begun;
      builder = record b { state = applying_changelog };
    } in
    let s3 : Shared = record s2 {
      stage = replayed;
      applied = [] ++ b.changelog.entries;
      at_replay = [];
    } in
    let (changelog', taken) = append capacity b.changelog entry in
    let s4 : Shared = record s3 {
      checked = [];
      builder = record s3.builder { changelog = changelog' };
      accepted = [] ++ (if taken then entry ∷ [] else []);
    } in
    let s5 : Shared = record s4 {
      stage = cleared;
      builder = record s4.builder { changelog = clear changelog' };
    } in
    let run : Reach capacity s0 s5 =
      next
        (next
          (next (next (next here (check s0 entry background runs)) (begin_apply s1 runs refl))
            (replay s2 refl))
          (append_checked s3 [] [] entry changelog' taken refl refl))
        (clear_changelog s4 refl) in
    (s5, run, refl, rw room (refl), empty, refl)

append_entries :
    (capacity : Str → ℕ) (c c' : ChangelogBuffer) (entry : ChangelogEntry) (taken : Bool)
    → append capacity c entry ≡ (c', taken)
    → c'.entries ≡ c.entries ++ (if taken then entry ∷ [] else [])
unfolding append
append_entries capacity c c' entry taken h = ground (arith, append_nil c.entries)

-- Where the accepted writes are: until the clear all of them are in the changelog, in order. The
-- applier is given nothing before the replay and then those accepted until it; the clear takes `cut`
-- of the later ones away.
abbrev pub Placed : Stage → (applied at_replay accepted entries : List ChangelogEntry) → Type 0
Placed not_started applied at_replay accepted entries = (applied ≡ []) × (accepted ≡ entries)
Placed begun applied at_replay accepted entries = (applied ≡ []) × (accepted ≡ entries)
Placed replayed applied at_replay accepted entries =
    (late : List ChangelogEntry) × (applied ≡ at_replay)
    × (accepted ≡ entries)
    × (accepted ≡ at_replay ++ late)
Placed cleared applied at_replay accepted entries =
    (cut : List ChangelogEntry) × (applied ≡ at_replay) × (accepted ≡ at_replay ++ (cut ++ entries))

Placed-append :
    (stage : Stage) (applied at_replay accepted entries more : List ChangelogEntry)
    → Placed stage applied at_replay accepted entries
    → Placed stage applied at_replay (accepted ++ more) (entries ++ more)
Placed-append not_started applied at_replay accepted entries more (none_yet, same) =
    (none_yet, ap (λ es. es ++ more) same)
Placed-append begun applied at_replay accepted entries more (none_yet, same) =
    (none_yet, ap (λ es. es ++ more) same)
Placed-append replayed applied at_replay accepted entries more (late, given, same, parts) = (
  late ++ more,
  given,
  ap (λ es. es ++ more) same,
  ap (λ es. es ++ more) parts ∙ append_assoc at_replay late more,
)
Placed-append cleared applied at_replay accepted entries more (cut, given, parts) = (
  cut,
  given,
  ap (λ es. es ++ more) parts
      ∙ append_assoc at_replay (cut ++ entries) more
      ∙ ap (λ es. at_replay ++ es) (append_assoc cut entries more),
)

abbrev Sound : Shared → Type 0
Sound r = Placed r.stage r.applied r.at_replay r.accepted r.builder.changelog.entries

Step-Sound : {capacity : Str → ℕ} {r t : Shared} → Step capacity r t → Sound r → Sound t
unfolding clear
Step-Sound (check r entry background runs) placed = placed
Step-Sound {capacity} (append_checked r front back entry changelog taken waiting done) placed =
    let more : List ChangelogEntry = if taken then entry ∷ [] else [] in
    subst (λ es. Placed r.stage r.applied r.at_replay (r.accepted ++ more) es)
      (sym (append_entries capacity r.builder.changelog changelog entry taken done))
      (Placed-append r.stage r.applied r.at_replay r.accepted r.builder.changelog.entries more
        placed)
Step-Sound (begin_apply r runs at) placed =
    subst (λ st. Placed st r.applied r.at_replay r.accepted r.builder.changelog.entries) at placed
Step-Sound (replay r at) placed =
    let (none_yet, same) : Placed begun r.applied r.at_replay r.accepted
        r.builder.changelog.entries =
      subst (λ st. Placed st r.applied r.at_replay r.accepted r.builder.changelog.entries) at
        placed in
    (
      [],
      ap (λ es. es ++ r.builder.changelog.entries) none_yet ∙ sym same,
      same,
      sym (append_nil r.accepted),
    )
Step-Sound (clear_changelog r at) placed =
    let (late, given, same, parts) : Placed replayed r.applied r.at_replay r.accepted
        r.builder.changelog.entries =
      subst (λ st. Placed st r.applied r.at_replay r.accepted r.builder.changelog.entries) at
        placed in
    (late, given, parts ∙ ap (λ es. r.at_replay ++ es) (sym (append_nil late)))

-- Which accepted writes can be lost: however any number of writers and an applier that takes every
-- entry run from a build with an empty changelog, the writes that returned true are in the changelog,
-- in order, until it is cleared; the applier is given nothing before its replay and from then on
-- exactly those that were accepted when it replayed; and after the clear the accepted writes are
-- these, then the later ones that the clear cut off, then those in the changelog.
pub Reach-Placed :
    (capacity : Str → ℕ) (b : RocksDbBuilderIndexEe) {r : Shared}
    → b.changelog.entries ≡ []
    → Reach capacity (started b) r
    → Placed r.stage r.applied r.at_replay r.accepted r.builder.changelog.entries
Reach-Placed capacity b empty here = (refl, sym empty)
Reach-Placed capacity b empty (next run step) = Step-Sound step (Reach-Placed capacity b empty run)
