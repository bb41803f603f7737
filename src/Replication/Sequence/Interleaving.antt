-- ===== src/Replication/Sequence/Interleaving.antt =====
-- SequenceNumberGenerator under threads: `nextSequence` is two atomic actions, to get the counter's
-- pointer under the lock and to add to the counter without it. A run is any sequence of such actions.
use open_arango_dbcore.Prelude.{
  ℕ, ◌+◌, ◌%◌, ◌≤◌, ◌<◌, ◌≡◌, refl, List, [], ◌∷◌, some, arith, length, length-append, get_or,
  u64_mod, Str, str_key, str_eq_iff, find, find-insert, if◌then◌else◌, ◌==◌, length-set, nat_key,
}
use open_arango_dbcore.Replication.Sequence.{SequenceNumberGenerator, get_or_create, fetch_add}
use open_arango_dbcore.Replication.Sequence.Numbering.{
  get_or-set_self, get_or-set_ne, get_or-append_zero,
}

-- One thread gets the pointer of a shard's counter, or adds one through a pointer that it got.
pub data Action : Type 0 where
  asks : Str → Action
  adds : ℕ → Action

unfoldable pub act : SequenceNumberGenerator → Action → SequenceNumberGenerator
act g (asks shard) = (get_or_create g shard).0
act g (adds pointer) = (fetch_add g pointer).0

unfoldable pub acts : SequenceNumberGenerator → List Action → SequenceNumberGenerator
acts g [] = g
acts g (a ∷ actions) = acts (act g a) actions

unfoldable pub additions : ℕ → List Action → ℕ
additions p [] = 0
additions p (asks shard ∷ actions) = additions p actions
additions p (adds q ∷ actions) = (if q == p then 1 else 0) + additions p actions

get_or_create-cell :
    (g : SequenceNumberGenerator) (s : Str) (p : ℕ)
    → get_or (get_or_create g s).0.cells p 0 ≡ get_or g.cells p 0
unfolding get_or_create
get_or_create-cell g s p = ground (arith, get_or-append_zero g.cells p)

get_or_create-grows :
    (g : SequenceNumberGenerator) (s : Str) → length g.cells ≤ length (get_or_create g s).0.cells
unfolding get_or_create
get_or_create-grows g s = ground (arith, length-append g.cells (0 ∷ []))

fetch_add-cell :
    (g : SequenceNumberGenerator) (q p : ℕ)
    → p < length g.cells
    → get_or g.cells p 0 + 1 < u64_mod
    → (get_or (fetch_add g q).0.cells p 0 ≡ (if q == p then 1 else 0) + get_or g.cells p 0)
      × (length (fetch_add g q).0.cells ≡ length g.cells)
unfolding fetch_add
fetch_add-cell g q p h k = ground (
  arith,
  get_or-set_self g.cells q ((get_or g.cells q 0 + 1) % u64_mod) 0,
  get_or-set_ne g.cells q p ((get_or g.cells q 0 + 1) % u64_mod) 0,
  length-set g.cells q ((get_or g.cells q 0 + 1) % u64_mod),
)

-- A counter counts the additions through its pointer.
acts-cell :
    (g : SequenceNumberGenerator) (actions : List Action) (p : ℕ)
    → p < length g.cells
    → get_or g.cells p 0 + additions p actions + 1 < u64_mod
    → (get_or (acts g actions).cells p 0 ≡ get_or g.cells p 0 + additions p actions)
      × (length g.cells ≤ length (acts g actions).cells)
unfolding acts act additions
acts-cell g [] p h k = omega arith
acts-cell g (asks s ∷ actions) p h k =
    let before = get_or_create-cell g s p in
    let grown = get_or_create-grows g s in
    let after = acts-cell (get_or_create g s).0 actions p (omega arith) (omega arith) in omega arith
acts-cell g (adds q ∷ actions) p h k =
    let (cell, size) = fetch_add-cell g q p h (omega arith) in
    let after = acts-cell (fetch_add g q).0 actions p (omega arith) (omega arith) in omega arith

fetch_add-value : (g : SequenceNumberGenerator) (p : ℕ) → (fetch_add g p).1 ≡ get_or g.cells p 0
unfolding fetch_add
fetch_add-value g p = refl

-- Whatever the threads do in between, a later addition through the same pointer gives a greater
-- number, as long as fewer than 2^64 - 2 additions were made.
pub fetch_add-increasing :
    (g : SequenceNumberGenerator) (p : ℕ) (between : List Action)
    → p < length g.cells
    → get_or g.cells p 0 + additions p between + 2 < u64_mod
    → (fetch_add g p).1 < (fetch_add (acts (fetch_add g p).0 between) p).1
fetch_add-increasing g p between h k =
    let (cell, size) = fetch_add-cell g p p h (omega arith) in
    let one : ◌≡◌ {A = ℕ} (if p == p then 1 else 0) 1 = ground arith in
    let after = acts-cell (fetch_add g p).0 between p (omega arith) (omega arith) in
    omega (arith, fetch_add-value g p, fetch_add-value (acts (fetch_add g p).0 between) p)

get_or_create-keeps :
    (g : SequenceNumberGenerator) (t s : Str) (p : ℕ)
    → find s g.counters ≡ some p
    → find s (get_or_create g t).0.counters ≡ some p
unfolding get_or_create
get_or_create-keeps g t s p h =
    ground (arith, find-insert t s (length g.cells) g.counters, str_eq_iff t s)

-- A shard keeps its pointer, so its threads share one counter.
pub acts-find :
    (g : SequenceNumberGenerator) (actions : List Action) (s : Str) (p : ℕ)
    → find s g.counters ≡ some p
    → find s (acts g actions).counters ≡ some p
unfolding acts act fetch_add
acts-find g [] s p h = h
acts-find g (asks t ∷ actions) s p h =
    acts-find (get_or_create g t).0 actions s p (get_or_create-keeps g t s p h)
acts-find g (adds q ∷ actions) s p h = acts-find (fetch_add g q).0 actions s p h
