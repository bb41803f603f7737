-- ===== src/TopK/Rule.antt =====
-- What the optimizer rule does to a plan.
use open_arango_dbcore.Prelude.{
  ℕ, ◌+◌, ◌≡◌, ◌↔◌, refl, sym, ap, subst, ◌∙◌, Option, none, some, List, [], ◌∷◌, get_elem?, ◌==◌,
  ==_iff, if◌then◌else◌, inl, inr, Bool-cases, Option-cases, arith,
}
use open_arango_dbcore.TopK.Plan.{
  ExecutionNode, Plan, matched, enable, optimize_step, optimize_loop, optimize_top_k_patterns,
}
use open_arango_dbcore.TopK.Pattern.{IsPattern}
use open_arango_dbcore.TopK.Match.{matched_iff}
use open_arango_dbcore.TopK.Enable.{
  enabled, enable_self, enable_other, matched-enable, HasView, matched-HasView,
}

-- The limit of the last pattern over a view.
unfoldable pub last_limit : Plan → ℕ → List ℕ → Option ℕ → Option ℕ
last_limit plan i [] so_far = so_far
last_limit plan i (n ∷ nodes) so_far =
    last_limit plan i nodes
      (elim (matched plan n) [ none ↦ so_far | some (v, l) ↦ if v == i then some l else so_far ])

unfoldable pub pattern_count : Plan → List ℕ → ℕ
pattern_count plan [] = 0
pattern_count plan (n ∷ nodes) =
    elim (matched plan n) [ none ↦ 0 | some _ ↦ 1 ] + pattern_count plan nodes

abbrev pub annotated : Option ℕ → Option ExecutionNode → Option ExecutionNode
annotated none o = o
annotated (some l) o = enabled l o

enabled-annotated :
    (l : ℕ) (so_far : Option ℕ) (o : Option ExecutionNode)
    → enabled l (annotated so_far o) ≡ enabled l o
enabled-annotated l none o = refl
enabled-annotated l (some k) none = refl
enabled-annotated l (some k) (some node) = refl

enable-annotated :
    (plan start : Plan) (v l i : ℕ) (so_far : Option ℕ)
    → get_elem? plan i ≡ annotated so_far (get_elem? start i)
    → get_elem? (enable plan v l) i
      ≡ annotated (if v == i then some l else so_far) (get_elem? start i)
enable-annotated plan start v l i so_far at = elim (Bool-cases (v == i)) [
  | inl here ↦
      let same : v ≡ i = (==_iff v i).0 here in
      rw here (
        ap (λ j. get_elem? (enable plan v l) j) (sym same)
        ∙ enable_self plan v l
        ∙ ap (λ j. enabled l (get_elem? plan j)) same
        ∙ ap (enabled l) at
        ∙ enabled-annotated l so_far (get_elem? start i))
  | inr there ↦ rw there (enable_other plan v l i (λ e. ground arith) ∙ at)
]

-- One round, by what the pattern gives in the plan as it is and in the plan at the start.
abbrev after_match : Plan → ℕ → Option (ℕ × ℕ) → Plan × ℕ
after_match plan count m = elim m [
  | none ↦ (plan, count)
  | some (v, l) ↦ (enable plan v l, count + 1)
]

abbrev later_limit : ℕ → Option ℕ → Option (ℕ × ℕ) → Option ℕ
later_limit i so_far m = elim m [ none ↦ so_far | some (v, l) ↦ if v == i then some l else so_far ]

abbrev one_if : Option (ℕ × ℕ) → ℕ
one_if m = elim m [ none ↦ 0 | some _ ↦ 1 ]

abbrev Annotates :
    List ℕ → Plan → Plan → ℕ → ℕ → Option ℕ → Option (ℕ × ℕ) → Option (ℕ × ℕ) → Type 0
Annotates nodes start plan count i so_far m m' =
    (get_elem? (optimize_loop nodes (after_match plan count m).0 (after_match plan count m).1).0 i
      ≡ annotated (last_limit start i nodes (later_limit i so_far m')) (get_elem? start i))
    × ((optimize_loop nodes (after_match plan count m).0 (after_match plan count m).1).1
        ≡ count + (one_if m' + pattern_count start nodes))

optimize_loop_annotates :
    (nodes : List ℕ) (start plan : Plan) (count i : ℕ) (so_far : Option ℕ)
    → ((n : ℕ) → matched plan n ≡ matched start n)
    → get_elem? plan i ≡ annotated so_far (get_elem? start i)
    → (get_elem? (optimize_loop nodes plan count).0 i
        ≡ annotated (last_limit start i nodes so_far) (get_elem? start i))
      × ((optimize_loop nodes plan count).1 ≡ count + pattern_count start nodes)
unfolding optimize_loop optimize_step last_limit pattern_count
optimize_loop_annotates [] start plan count i so_far same at = (at, omega arith)
optimize_loop_annotates (n ∷ nodes) start plan count i so_far same at =
    elim (Option-cases (matched start n)) [
      | inl no_match ↦
          let (noted, counted) = optimize_loop_annotates nodes start plan count i so_far same at in
          let round : Annotates nodes start plan count i so_far none none =
            (noted, omega (arith, counted)) in
          subst (λ m. Annotates nodes start plan count i so_far m (matched start n))
            (sym (same n ∙ no_match))
            (subst (λ m. Annotates nodes start plan count i so_far none m) (sym no_match) round)
      | inr ((v, l), found) ↦
          let has_view : HasView plan v = matched-HasView plan n v l (same n ∙ found) in
          let so_far' : Option ℕ = if v == i then some l else so_far in
          let (noted, counted) =
            optimize_loop_annotates nodes start (enable plan v l) (count + 1) i so_far'
              (λ j. matched-enable plan v l has_view j ∙ same j)
              (enable-annotated plan start v l i so_far at) in
          let round : Annotates nodes start plan count i so_far (some (v, l)) (some (v, l)) =
            (noted, omega (arith, counted)) in
          subst (λ m. Annotates nodes start plan count i so_far m (matched start n))
            (sym (same n ∙ found))
            (subst (λ m. Annotates nodes start plan count i so_far (some (v, l)) m) (sym found)
              round)
    ]

-- The rule annotates exactly the views of the pattern: in any plan and over any list of its nodes, a
-- view that some listed node matches has the search enabled afterwards, with the limit of the last
-- such node, every other node is as it was, and the count is that of the matching nodes. A node
-- matches a view with a limit just when it is a limit node with offset 0 and that limit above 0,
-- whose dependency is a sort node whose first element has "bm25" in its path, in any mix of cases,
-- and is descending, and whose own dependency is that view.
pub optimize_top_k_patterns-annotated :
    (nodes : List ℕ) (plan : Plan) (i : ℕ)
    → (get_elem? (optimize_top_k_patterns nodes plan).0 i
        ≡ annotated (last_limit plan i nodes none) (get_elem? plan i))
      × ((optimize_top_k_patterns nodes plan).1 ≡ pattern_count plan nodes)
      × ((n v l : ℕ) → (matched plan n ≡ some (v, l)) ↔ IsPattern plan n v l)
unfolding optimize_top_k_patterns
optimize_top_k_patterns-annotated nodes plan i =
    let (noted, counted) = optimize_loop_annotates nodes plan plan 0 i none (λ n. refl) refl in
    (noted, omega (arith, counted), matched_iff plan)
