-- ===== src/TopK/Enable.antt =====
-- Enabling the search on a view changes that view alone, and no node's pattern.
use open_arango_dbcore.Prelude.{
  ℕ, zero, suc, ◌<◌, ◌≡◌, ◌≢◌, refl, sym, ap, subst, ◌∙◌, Bool, true, Option, none, some, List, [],
  ◌∷◌, length, get_elem?, get_elem?-set_self, get_elem?-set_ne, ◌==◌, ==_iff, if◌then◌else◌, inl,
  inr, Bool-cases, Option-cases, arith,
}
use open_arango_dbcore.TopK.Plan.{
  Payload, view, sort, limit, filter, return, calculation, other, ExecutionNode, Plan, limit_of,
  sort_of, is_view, limit_at, sort_at, view_at, matched, enable,
}

-- A node as the rule leaves it.
abbrev pub enabled : ℕ → Option ExecutionNode → Option ExecutionNode
enabled l none = none
enabled l (some node) = some (record node { payload = view true l })

-- In bounds, an index has an element.
get_elem?-lt {ℓ} :
    {A : Type ℓ} (xs : List A) (i : ℕ) (x : A) → get_elem? xs i ≡ some x → i < length xs
get_elem?-lt [] i x h = cc
get_elem?-lt (y ∷ ys) zero x h = omega arith
get_elem?-lt (y ∷ ys) (suc i) x h = omega (arith, get_elem?-lt ys i x h)

pub enable_self :
    (plan : Plan) (v l : ℕ) → get_elem? (enable plan v l) v ≡ enabled l (get_elem? plan v)
unfolding enable
enable_self plan v l = elim (Option-cases (get_elem? plan v)) [
  | inl absent ↦ rw (absent, enable) (absent)
  | inr (node, present) ↦
      rw (present, enable)
        (get_elem?-set_self plan v (record node { payload = view true l })
          (get_elem?-lt plan v node present))
]

pub enable_other :
    (plan : Plan) (v l i : ℕ) → v ≢ i → get_elem? (enable plan v l) i ≡ get_elem? plan i
unfolding enable
enable_other plan v l i apart = elim (Option-cases (get_elem? plan v)) [
  | inl absent ↦ rw (absent, enable) (refl)
  | inr (node, present) ↦
      rw (present, enable) (get_elem?-set_ne plan (record node { payload = view true l }) apart)
]

-- A view node stands at the index.
abbrev pub HasView : Plan → ℕ → Type 0
HasView plan v =
    (node : ExecutionNode) × (get_elem? plan v ≡ some node) × (is_view node.payload ≡ true)

view_no_limit :
    (payload : Payload) (dep : Option ℕ) → is_view payload ≡ true → limit_of payload dep ≡ none
unfolding limit_of is_view
view_no_limit (view e h) dep p = refl
view_no_limit (limit l o) dep p = cc
view_no_limit (sort es) dep p = cc
view_no_limit filter dep p = cc
view_no_limit return dep p = cc
view_no_limit calculation dep p = cc
view_no_limit other dep p = cc

view_no_sort :
    (payload : Payload) (dep : Option ℕ) → is_view payload ≡ true → sort_of payload dep ≡ none
unfolding sort_of is_view
view_no_sort (view e h) dep p = refl
view_no_sort (limit l o) dep p = cc
view_no_sort (sort es) dep p = cc
view_no_sort filter dep p = cc
view_no_sort return dep p = cc
view_no_sort calculation dep p = cc
view_no_sort other dep p = cc

-- What each lookup reads of a node.
abbrev limit_in : Option ExecutionNode → Option (ℕ × Option ℕ)
limit_in o = elim o [ none ↦ none | some node ↦ limit_of node.payload node.first_dep ]

abbrev sort_in : Option ExecutionNode → Option (Option ℕ)
sort_in o = elim o [ none ↦ none | some node ↦ sort_of node.payload node.first_dep ]

abbrev view_in : ℕ → Option ExecutionNode → Option ℕ
view_in n o = elim o [ none ↦ none | some node ↦ if is_view node.payload then some n else none ]

-- The pattern, from the three lookups.
abbrev view_step : ℕ → Option ℕ → Option (ℕ × ℕ)
view_step l o = elim o [ none ↦ none | some v ↦ some (v, l) ]

abbrev sort_step : ℕ → (Option ℕ → Option ℕ) → Option (Option ℕ) → Option (ℕ × ℕ)
sort_step l views o = elim o [ none ↦ none | some sort_dep ↦ view_step l (views sort_dep) ]

abbrev pattern_of :
    Option (ℕ × Option ℕ) → (Option ℕ → Option (Option ℕ)) → (Option ℕ → Option ℕ) → Option (ℕ × ℕ)
pattern_of limits sorts views = elim limits [
  | none ↦ none
  | some (l, dep) ↦ sort_step l views (sorts dep)
]

module _ (plan : Plan) (v l : ℕ) (has_view : HasView plan v) where
  limit_at-enable : (n : ℕ) → limit_at (enable plan v l) n ≡ limit_at plan n
  unfolding limit_at limit_of
  limit_at-enable n = elim (Bool-cases (v == n)) [
    | inl here ↦
        subst (λ m. limit_at (enable plan v l) m ≡ limit_at plan m) ((==_iff v n).0 here)
          (ap (limit_in) (enable_self plan v l ∙ ap (enabled l) has_view.1)
            ∙ sym (
                ap (limit_in) has_view.1
                ∙ view_no_limit has_view.0.payload has_view.0.first_dep has_view.2))
    | inr there ↦ ap (limit_in) (enable_other plan v l n (λ e. ground arith))
  ]

  sort_at-enable : (dep : Option ℕ) → sort_at (enable plan v l) dep ≡ sort_at plan dep
  unfolding sort_at sort_of
  sort_at-enable none = refl
  sort_at-enable (some n) = elim (Bool-cases (v == n)) [
    | inl here ↦
        subst (λ m. sort_at (enable plan v l) (some m) ≡ sort_at plan (some m))
          ((==_iff v n).0 here)
          (ap (sort_in) (enable_self plan v l ∙ ap (enabled l) has_view.1)
            ∙ sym (
                ap (sort_in) has_view.1
                ∙ view_no_sort has_view.0.payload has_view.0.first_dep has_view.2))
    | inr there ↦ ap (sort_in) (enable_other plan v l n (λ e. ground arith))
  ]

  view_at-enable : (dep : Option ℕ) → view_at (enable plan v l) dep ≡ view_at plan dep
  unfolding view_at is_view
  view_at-enable none = refl
  view_at-enable (some n) = elim (Bool-cases (v == n)) [
    | inl here ↦
        subst (λ m. view_at (enable plan v l) (some m) ≡ view_at plan (some m))
          ((==_iff v n).0 here)
          (ap (view_in v) (enable_self plan v l ∙ ap (enabled l) has_view.1)
            ∙ sym (
                ap (view_in v) has_view.1
                ∙ ap (λ (t : Bool). if t then some v else none) has_view.2))
    | inr there ↦ ap (view_in n) (enable_other plan v l n (λ e. ground arith))
  ]

  pub matched-enable : (n : ℕ) → matched (enable plan v l) n ≡ matched plan n
  unfolding matched
  matched-enable n =
      λ i. pattern_of (limit_at-enable n i) (λ d. sort_at-enable d i) (λ d. view_at-enable d i)

none_ne_some {ℓ} : {A : Type ℓ} (a : A) → none ≢ some a
none_ne_some a h = cc

view_at-HasView :
    (plan : Plan) (dep : Option ℕ) (v : ℕ) → view_at plan dep ≡ some v → HasView plan v
unfolding view_at
view_at-HasView plan none v h = cc
view_at-HasView plan (some n) v h = elim (Option-cases (get_elem? plan n)) [
  | inl absent ↦ absurd (none_ne_some v (rw (absent, view_at) at h))
  | inr (node, present) ↦ elim (Bool-cases (is_view node.payload)) [
    | inl viewed ↦
        let same : some n ≡ some v = rw (present, viewed, view_at) at h in
        subst (λ m. HasView plan m) (ground (arith, same)) (node, present, viewed)
    | inr not_view ↦ absurd (none_ne_some v (rw (present, not_view, view_at) at h))
  ]
]

view_found : (o : Option ℕ) (k v l : ℕ) → view_step k o ≡ some (v, l) → o ≡ some v
view_found none k v l h = cc
view_found (some w) k v l h = ground arith

pattern_of-view :
    (plan : Plan) (limits : Option (ℕ × Option ℕ)) (sorts : Option ℕ → Option (Option ℕ)) (v l : ℕ)
    → pattern_of limits sorts (view_at plan) ≡ some (v, l)
    → HasView plan v
pattern_of-view plan none sorts v l found = cc
pattern_of-view plan (some (k, dep)) sorts v l found = elim (Option-cases (sorts dep)) [
  | inl no_sort ↦
      absurd (none_ne_some (v, l) (sym (ap (sort_step k (view_at plan)) no_sort) ∙ found))
  | inr (sort_dep, sorted) ↦ view_at-HasView plan sort_dep v (
      view_found (view_at plan sort_dep) k v l
        (sym (ap (sort_step k (view_at plan)) sorted) ∙ found))
]

-- A pattern's view is a view node.
pub matched-HasView : (plan : Plan) (n v l : ℕ) → matched plan n ≡ some (v, l) → HasView plan v
unfolding matched
matched-HasView plan n v l found = pattern_of-view plan (limit_at plan n) (sort_at plan) v l found
