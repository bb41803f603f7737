-- ===== src/MinHash/Signature.antt =====
-- The signature that MinHashFunctions.cpp computes depends on the set of the added strings alone.
use open_arango_dbcore.Prelude.{
  ℕ, ◌≤◌, ◌<◌, ◌≡◌, inl, inr, refl, sym, ap, ◌∙◌, List, [], ◌∷◌, map, length, replicate, min, ltb,
  if◌then◌else◌, Str, str_eq, str_eq_iff, str_key, count, Bool-cases, arith,
}
use open_arango_dbcore.MinHash.{
  PermutationSeed, MinHashGenerator, new_generator, add_element, finalize, update_minimums,
  permutation_hash, base_hash, u64_max,
}

unfoldable pub add_elements : List Str → MinHashGenerator → MinHashGenerator
add_elements [] g = g
add_elements (e ∷ rest) g = add_elements rest (add_element g e)

unfoldable pub signature : List PermutationSeed → List Str → List ℕ
signature seeds elements = finalize (add_elements elements (new_generator seeds))

-- The hash of a string under one seed.
unfoldable pub hash_under : PermutationSeed → Str → ℕ
hash_under seed e = permutation_hash (base_hash e 0) seed

unfoldable pub least : PermutationSeed → List Str → ℕ → ℕ
least seed [] best = best
least seed (e ∷ rest) best = least seed rest (min best (hash_under seed e))

least_all : List PermutationSeed → List Str → List ℕ → List ℕ
least_all [] elements best = best
least_all (seed ∷ seeds) elements [] = []
least_all (seed ∷ seeds) elements (b ∷ best) = least seed elements b ∷ least_all seeds elements best

least_all-none : (seeds : List PermutationSeed) (best : List ℕ) → least_all seeds [] best ≡ best
unfolding least_all least
least_all-none [] best = refl
least_all-none (seed ∷ seeds) [] = refl
least_all-none (seed ∷ seeds) (b ∷ best) = ap (◌∷◌ b) (least_all-none seeds best)

least_all-step :
    (seeds : List PermutationSeed) (e : Str) (rest : List Str) (best : List ℕ)
    → least_all seeds rest (update_minimums (base_hash e 0) seeds best)
      ≡ least_all seeds (e ∷ rest) best
unfolding least_all least update_minimums hash_under
least_all-step [] e rest best = refl
least_all-step (seed ∷ seeds) e rest [] = refl
least_all-step (seed ∷ seeds) e rest (b ∷ best) =
    let smaller : (if ltb (permutation_hash (base_hash e 0) seed) b
          then permutation_hash (base_hash e 0) seed
          else b)
        ≡ min b (permutation_hash (base_hash e 0) seed) =
      ground arith in
    rw (smaller, least_all-step seeds e rest best) refl

add_elements-least :
    (elements : List Str) (g : MinHashGenerator)
    → (add_elements elements g).minimums ≡ least_all g.seeds elements g.minimums
unfolding add_elements add_element
add_elements-least [] g = sym (least_all-none g.seeds g.minimums)
add_elements-least (e ∷ rest) g =
    add_elements-least rest (add_element g e) ∙ least_all-step g.seeds e rest g.minimums

-- Each place of the signature is the least hash under its seed.
least_all-map :
    (seeds : List PermutationSeed) (elements : List Str) (b : ℕ)
    → least_all seeds elements (replicate (length seeds) b)
      ≡ map (λ seed. least seed elements b) seeds
unfolding least_all
least_all-map [] elements b = refl
least_all-map (seed ∷ seeds) elements b =
    ap (◌∷◌ (least seed elements b)) (least_all-map seeds elements b)

least-below : (seed : PermutationSeed) (elements : List Str) (b : ℕ) → least seed elements b ≤ b
unfolding least
least-below seed [] b = omega arith
least-below seed (e ∷ rest) b = omega (arith, least-below seed rest (min b (hash_under seed e)))

-- A bound of all hashes and of the start is a bound of the least.
least-greatest :
    (seed : PermutationSeed) (elements : List Str) (b low : ℕ)
    → low ≤ b
    → ((e : Str) → 0 < count e elements → low ≤ hash_under seed e)
    → low ≤ least seed elements b
unfolding least count
least-greatest seed [] b low h all = h
least-greatest seed (e ∷ rest) b low h all =
    let here : low ≤ hash_under seed e = all e (ground (arith, str_eq_iff e e)) in
    least-greatest seed rest (min b (hash_under seed e)) low (omega (arith, h, here))
      (λ other present. all other (ground (arith, present)))

least-le :
    (seed : PermutationSeed) (elements : List Str) (b : ℕ) (e : Str)
    → 0 < count e elements
    → least seed elements b ≤ hash_under seed e
unfolding least count
least-le seed [] b e h = absurd (omega (arith, h))
least-le seed (x ∷ rest) b e h = elim (Bool-cases (str_eq x e)) [
  | inl same ↦
      let at : x ≡ e = (str_eq_iff x e).0 same in
      rw (sym at) (omega (arith, least-below seed rest (min b (hash_under seed x))))
  | inr other ↦ least-le seed rest (min b (hash_under seed x)) e (ground (arith, other, h))
]

map-equal :
    (f g : PermutationSeed → ℕ) (seeds : List PermutationSeed)
    → ((seed : PermutationSeed) → f seed ≡ g seed)
    → map f seeds ≡ map g seeds
map-equal f g [] h = refl
map-equal f g (seed ∷ seeds) h = rw (h seed, map-equal f g seeds h) refl

least_grows :
    (seed : PermutationSeed) (xs ys : List Str) (b : ℕ)
    → ((e : Str) → ltb 0 (count e xs) ≡ ltb 0 (count e ys))
    → least seed xs b ≤ least seed ys b
least_grows seed xs ys b same =
    least-greatest seed ys b (least seed xs b) (least-below seed xs b)
      (λ e present. least-le seed xs b e (ground (arith, same e, present)))

signature-map :
    (seeds : List PermutationSeed) (elements : List Str)
    → signature seeds elements ≡ map (λ seed. least seed elements u64_max) seeds
unfolding signature finalize
signature-map seeds elements =
    add_elements-least elements (new_generator seeds) ∙ least_all-map seeds elements u64_max

-- Two runs that add the same set of strings, in any order and as often as they like, end in the
-- same signature, whatever the seeds.
pub signature_of_set :
    (seeds : List PermutationSeed) (xs ys : List Str)
    → ((e : Str) → ltb 0 (count e xs) ≡ ltb 0 (count e ys))
    → signature seeds xs ≡ signature seeds ys
signature_of_set seeds xs ys same =
    signature-map seeds xs
    ∙ map-equal (λ seed. least seed xs u64_max) (λ seed. least seed ys u64_max) seeds
        (λ seed. omega (
          arith,
          least_grows seed xs ys u64_max same,
          least_grows seed ys xs u64_max (λ e. sym (same e)),
        ))
    ∙ sym (signature-map seeds ys)
