-- ===== src/Replication/Sequence/Numbering.antt =====
-- SequenceNumberGenerator: each shard's numbers are 1, 2, 3, … whatever else is called in between.
use open_arango_dbcore.Prelude.{
  ℕ, zero, suc, ◌+◌, ◌%◌, ◌<◌, ◌≡◌, refl, List, [], ◌∷◌, ◌++◌, some, arith, length, length-append,
  set, get_or, u64_mod, ap, Str, str_key, str_eq, str_eq_iff, find, insert, find-insert, count,
  if◌then◌else◌, inl, inr, Option-cases, length-set,
}
use open_arango_dbcore.Replication.Sequence.{
  SequenceNumberGenerator, new_generator, get_or_create, fetch_add, next_sequence, current_sequence,
}

-- Pointers are in bounds, and no two shards share one.
pub record IsValid (g : SequenceNumberGenerator) : Type 0 where
  pub in_bounds : (s : Str) (p : ℕ) → find s g.counters ≡ some p → p < length g.cells
  pub apart : (s t : Str) (p : ℕ) → find s g.counters ≡ some p → find t g.counters ≡ some p → s ≡ t

pub get_or-set_self : (xs : List ℕ) (i v d : ℕ) → i < length xs → get_or (set xs i v) i d ≡ v
get_or-set_self [] i v d h = elim h [ ]
get_or-set_self (x ∷ xs) zero v d h = refl
get_or-set_self (x ∷ xs) (suc i) v d h = get_or-set_self xs i v d (omega arith)

pub get_or-set_ne :
    (xs : List ℕ) (i j v d : ℕ) → ¬ (i ≡ j) → get_or (set xs i v) j d ≡ get_or xs j d
get_or-set_ne [] i j v d h = refl
get_or-set_ne (x ∷ xs) zero zero v d h = absurd (h refl)
get_or-set_ne (x ∷ xs) zero (suc j) v d h = refl
get_or-set_ne (x ∷ xs) (suc i) zero v d h = refl
get_or-set_ne (x ∷ xs) (suc i) (suc j) v d h = get_or-set_ne xs i j v d (λ e. h (ap suc e))

pub get_or-append_zero : (xs : List ℕ) (i : ℕ) → get_or (xs ++ 0 ∷ []) i 0 ≡ get_or xs i 0
get_or-append_zero [] zero = refl
get_or-append_zero [] (suc i) = refl
get_or-append_zero (x ∷ xs) zero = refl
get_or-append_zero (x ∷ xs) (suc i) = get_or-append_zero xs i

added-IsValid :
    (g : SequenceNumberGenerator) (s : Str)
    → IsValid g
    → IsValid
        (record g { counters = insert s (length g.cells) g.counters; cells = g.cells ++ 0 ∷ [] })
added-IsValid g s v = record {
  in_bounds = λ t p h. ground (
    arith,
    find-insert s t (length g.cells) g.counters,
    v.in_bounds t p,
    length-append g.cells (0 ∷ []),
  );
  apart = λ t u p h k. ground (
    arith,
    find-insert s t (length g.cells) g.counters,
    find-insert s u (length g.cells) g.counters,
    str_eq_iff s t,
    str_eq_iff s u,
    v.apart t u p,
    v.in_bounds t p,
    v.in_bounds u p,
  );
}

get_or-length : (xs : List ℕ) (d : ℕ) → get_or xs (length xs) d ≡ d
get_or-length [] d = refl
get_or-length (x ∷ xs) d = get_or-length xs d

-- What asking for a counter does: the pointer is the shard's, in bounds, and no counter changes.
pub get_or_create-IsValid :
    (g : SequenceNumberGenerator) (s : Str) → IsValid g → IsValid (get_or_create g s).0
unfolding get_or_create
get_or_create-IsValid g s v = elim (Option-cases (find s g.counters)) [
  | inl new ↦ rw (new, get_or_create) (added-IsValid g s v)
  | inr (p, old) ↦ rw (old, get_or_create) v
]

pub get_or_create-find :
    (g : SequenceNumberGenerator) (s : Str)
    → find s (get_or_create g s).0.counters ≡ some (get_or_create g s).1
unfolding get_or_create
get_or_create-find g s = ground (arith, find-insert s s (length g.cells) g.counters, str_eq_iff s s)

pub get_or_create-current :
    (g : SequenceNumberGenerator) (s t : Str)
    → current_sequence (get_or_create g s).0 t ≡ current_sequence g t
unfolding get_or_create current_sequence
get_or_create-current g s t = elim (Option-cases (find s g.counters)) [
  | inr (p, old) ↦ rw (old, get_or_create)
  | inl new ↦ elim (Option-cases (find t g.counters)) [
    | inl none_t ↦ ground (
      arith,
      find-insert s t (length g.cells) g.counters,
      get_or-append_zero g.cells (length g.cells),
      get_or-length g.cells 0,
    )
    | inr (q, some_t) ↦ ground (
      arith,
      find-insert s t (length g.cells) g.counters,
      str_eq_iff s t,
      get_or-append_zero g.cells q,
    )
  ]
]

fetch_add-IsValid : (g : SequenceNumberGenerator) (p : ℕ) → IsValid g → IsValid (fetch_add g p).0
unfolding fetch_add
fetch_add-IsValid g p v = record {
  in_bounds = λ t q h.
      omega (arith, v.in_bounds t q h, length-set g.cells p ((get_or g.cells p 0 + 1) % u64_mod));
  apart = v.apart;
}

current_sequence-some :
    (g : SequenceNumberGenerator) (s : Str) (p : ℕ)
    → find s g.counters ≡ some p
    → current_sequence g s ≡ get_or g.cells p 0
unfolding current_sequence
current_sequence-some g s p h = ground arith

fetch_add-old : (g : SequenceNumberGenerator) (p : ℕ) → (fetch_add g p).1 ≡ get_or g.cells p 0
unfolding fetch_add
fetch_add-old g p = refl

pub fetch_add-current :
    (g : SequenceNumberGenerator) (s t : Str) (p : ℕ)
    → IsValid g
    → find s g.counters ≡ some p
    → current_sequence (fetch_add g p).0 t
      ≡ (if str_eq s t then (get_or g.cells p 0 + 1) % u64_mod else current_sequence g t)
unfolding fetch_add current_sequence
fetch_add-current g s t p v h = elim (Option-cases (find t g.counters)) [
  | inl none_t ↦ ground (arith, str_eq_iff s t)
  | inr (q, some_t) ↦ ground (
    arith,
    str_eq_iff s t,
    v.in_bounds s p h,
    v.apart s t p h,
    get_or-set_self g.cells p ((get_or g.cells p 0 + 1) % u64_mod) 0,
    get_or-set_ne g.cells p q ((get_or g.cells p 0 + 1) % u64_mod) 0,
  )
]

pub next_sequence-IsValid :
    (g : SequenceNumberGenerator) (s : Str) → IsValid g → IsValid (next_sequence g s).0
unfolding next_sequence
next_sequence-IsValid g s v = fetch_add-IsValid _ _ (get_or_create-IsValid g s v)

-- The value handed out is one more than the shard's last, and only that shard's counter moves.
pub next_sequence-current :
    (g : SequenceNumberGenerator) (s t : Str)
    → IsValid g
    → ((next_sequence g s).1 ≡ (current_sequence g s + 1) % u64_mod)
      × (current_sequence (next_sequence g s).0 t
          ≡ (if str_eq s t then (next_sequence g s).1 else current_sequence g t))
unfolding next_sequence
next_sequence-current g s t v =
    let found = get_or_create-find g s in
    ground (
      arith,
      get_or_create-current g s s,
      get_or_create-current g s t,
      current_sequence-some (get_or_create g s).0 s (get_or_create g s).1 found,
      fetch_add-old (get_or_create g s).0 (get_or_create g s).1,
      fetch_add-current (get_or_create g s).0 s t (get_or_create g s).1
          (get_or_create-IsValid g s v) found,
    )

-- The shards of a sequence of requests are served in turn.
unfoldable pub after_requests : SequenceNumberGenerator → List Str → SequenceNumberGenerator
after_requests g [] = g
after_requests g (s ∷ requests) = after_requests (next_sequence g s).0 requests

after_requests-current :
    (g : SequenceNumberGenerator) (requests : List Str) (s : Str)
    → IsValid g
    → current_sequence g s + count s requests < u64_mod
    → current_sequence (after_requests g requests) s ≡ current_sequence g s + count s requests
unfolding after_requests count
after_requests-current g [] s v h = omega arith
after_requests-current g (t ∷ requests) s v h = ground (
  arith,
  str_eq_iff t s,
  next_sequence-current g t s v,
  after_requests-current (next_sequence g t).0 requests s (next_sequence-IsValid g t v),
)

after_requests-IsValid :
    (g : SequenceNumberGenerator) (requests : List Str)
    → IsValid g
    → IsValid (after_requests g requests)
unfolding after_requests
after_requests-IsValid g [] v = v
after_requests-IsValid g (s ∷ requests) v =
    after_requests-IsValid (next_sequence g s).0 requests (next_sequence-IsValid g s v)

new_generator-IsValid : IsValid new_generator
unfolding find
new_generator-IsValid = record { in_bounds = λ s p h. cc; apart = λ s t p h k. cc }

-- After any requests, for whatever shards, the next number of a shard is one more than the number of
-- requests for it: its numbers are 1, 2, 3, … with no gap and no repetition, up to 2^64 - 1.
pub next_sequence-numbering :
    (requests : List Str) (s : Str)
    → count s requests + 1 < u64_mod
    → (next_sequence (after_requests new_generator requests) s).1 ≡ count s requests + 1
next_sequence-numbering requests s h =
    let v = after_requests-IsValid new_generator requests new_generator-IsValid in
    let none_yet : current_sequence new_generator s ≡ 0 = unfold current_sequence find in refl in
    omega (
      arith,
      (next_sequence-current (after_requests new_generator requests) s s v).0,
      none_yet,
      after_requests-current new_generator requests s new_generator-IsValid (omega arith),
    )
