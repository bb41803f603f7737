-- ===== src/TopK/Match.antt =====
-- The match of the loop's body is the pattern.
use open_arango_dbcore.Prelude.{
  ℕ, ◌≡◌, ◌↔◌, refl, sym, ap, subst, ◌∙◌, Bool, true, false, Option, none, some, get_elem?,
  if◌then◌else◌,
}
use open_arango_dbcore.TopK.Plan.{
  ExecutionNode, Plan, limit_of, sort_of, is_view, limit_at, sort_at, view_at, matched,
}
use open_arango_dbcore.TopK.Pattern.{
  LimitNode, SortNode, ViewNode, IsPattern, limit_of_sound, limit_of_complete, sort_of_sound,
  sort_of_complete, is_view_sound,
}

-- The three lookups of the loop, by the node that is found.
abbrev limit_in : Option ExecutionNode → Option (ℕ × Option ℕ)
limit_in none = none
limit_in (some node) = limit_of node.payload node.first_dep

abbrev sort_in : Option ExecutionNode → Option (Option ℕ)
sort_in none = none
sort_in (some node) = sort_of node.payload node.first_dep

abbrev view_in : ℕ → Option ExecutionNode → Option ℕ
view_in n none = none
view_in n (some node) = if is_view node.payload then some n else none

limit_in_iff :
    (at : Option ExecutionNode) (l : ℕ) (dep : Option ℕ)
    → (limit_in at ≡ some (l, dep)) ↔ LimitNode at l dep
limit_in_iff none l dep = (λ h. cc, λ (node, same, payload, above, same_dep). cc)
limit_in_iff (some node) l dep = (
  λ h.
      let (payload, above, same_dep) = limit_of_sound node.payload node.first_dep l dep h in
      (node, refl, payload, above, same_dep),
  λ (node', same, payload, above, same_dep).
      ap limit_in same ∙ (λ i. limit_of (payload i) (same_dep i)) ∙ limit_of_complete l dep above,
)

sort_in_iff :
    (at : Option ExecutionNode) (dep : Option ℕ) → (sort_in at ≡ some dep) ↔ SortNode at dep
sort_in_iff none dep =
    (λ h. cc, λ (node, first, rest, same, payload, names, descending, same_dep). cc)
sort_in_iff (some node) dep = (
  λ h.
      let (first, rest, payload, names, descending, same_dep) =
        sort_of_sound node.payload node.first_dep dep h in
      (node, first, rest, refl, payload, names, descending, same_dep),
  λ (node', first, rest, same, payload, names, descending, same_dep).
      ap sort_in same
      ∙ (λ i. sort_of (payload i) (same_dep i))
      ∙ sort_of_complete first rest dep names descending,
)

view_if :
    (test : Bool) (n v : ℕ) → (if test then some n else none) ≡ some v → (test ≡ true) × (n ≡ v)
view_if true n v h = (refl, cc)
view_if false n v h = cc

view_in_sound :
    (n v : ℕ) (at : Option ExecutionNode) → view_in n at ≡ some v → (n ≡ v) × ViewNode at
view_in_sound n v none h = cc
view_in_sound n v (some node) h =
    let (is_one, same) = view_if (is_view node.payload) n v h in
    let (enabled, heap_size, payload) = is_view_sound node.payload is_one in
    (same, (node, enabled, heap_size, refl, payload))

view_in_complete : (n : ℕ) (at : Option ExecutionNode) → ViewNode at → view_in n at ≡ some n
unfolding is_view
view_in_complete n at (node, enabled, heap_size, same, payload) =
    ap (view_in n) same ∙ (λ i. if is_view (payload i) then some n else none)

-- The nested tests of the loop's body.
abbrev with_view : ℕ → Option ℕ → Option (ℕ × ℕ)
with_view l none = none
with_view l (some v) = some (v, l)

abbrev with_sort : Plan → ℕ → Option (Option ℕ) → Option (ℕ × ℕ)
with_sort plan l none = none
with_sort plan l (some dep) = with_view l (view_at plan dep)

abbrev with_limit : Plan → Option (ℕ × Option ℕ) → Option (ℕ × ℕ)
with_limit plan none = none
with_limit plan (some (l, dep)) = with_sort plan l (sort_at plan dep)

limit_at_in : (plan : Plan) (n : ℕ) → limit_at plan n ≡ limit_in (get_elem? plan n)
unfolding limit_at
limit_at_in plan n =
    let same : (at : Option ExecutionNode)
        → (elim at [ none ↦ none | some node ↦ limit_of node.payload node.first_dep ])
          ≡ limit_in at =
      λ at. elim at [ none ↦ refl | some node ↦ refl ] in
    same (get_elem? plan n)

sort_at_in : (plan : Plan) (n : ℕ) → sort_at plan (some n) ≡ sort_in (get_elem? plan n)
unfolding sort_at
sort_at_in plan n =
    let same : (at : Option ExecutionNode)
        → (elim at [ none ↦ none | some node ↦ sort_of node.payload node.first_dep ]) ≡ sort_in at =
      λ at. elim at [ none ↦ refl | some node ↦ refl ] in
    same (get_elem? plan n)

view_at_in : (plan : Plan) (n : ℕ) → view_at plan (some n) ≡ view_in n (get_elem? plan n)
unfolding view_at
view_at_in plan n =
    let same : (at : Option ExecutionNode)
        → (elim at [ none ↦ none | some node ↦ if is_view node.payload then some n else none ])
          ≡ view_in n at =
      λ at. elim at [ none ↦ refl | some node ↦ refl ] in
    same (get_elem? plan n)

views_same :
    (l : ℕ) (o : Option ℕ) → (elim o [ none ↦ none | some v ↦ some (v, l) ]) ≡ with_view l o
views_same l none = refl
views_same l (some v) = refl

sorts_same :
    (plan : Plan) (l : ℕ) (o : Option (Option ℕ))
    → (elim o [
      | none ↦ none
      | some dep ↦ elim (view_at plan dep) [ none ↦ none | some v ↦ some (v, l) ]
    ])
      ≡ with_sort plan l o
sorts_same plan l none = refl
sorts_same plan l (some dep) = views_same l (view_at plan dep)

limits_same :
    (plan : Plan) (o : Option (ℕ × Option ℕ))
    → (elim o [
      | none ↦ none
      | some (l, dep) ↦ elim (sort_at plan dep) [
        | none ↦ none
        | some sort_dep ↦ elim (view_at plan sort_dep) [ none ↦ none | some v ↦ some (v, l) ]
      ]
    ])
      ≡ with_limit plan o
limits_same plan none = refl
limits_same plan (some (l, dep)) = sorts_same plan l (sort_at plan dep)

matched_with : (plan : Plan) (n : ℕ) → matched plan n ≡ with_limit plan (limit_at plan n)
unfolding matched
matched_with plan n = limits_same plan (limit_at plan n)

with_view_sound :
    (l : ℕ) (o : Option ℕ) (v l' : ℕ) → with_view l o ≡ some (v, l') → (o ≡ some v) × (l ≡ l')
with_view_sound l none v l' h = cc
with_view_sound l (some w) v l' h = (cc, cc)

with_sort_sound :
    (plan : Plan) (l : ℕ) (o : Option (Option ℕ)) (v l' : ℕ)
    → with_sort plan l o ≡ some (v, l')
    → (dep : Option ℕ) × (o ≡ some dep) × (view_at plan dep ≡ some v) × (l ≡ l')
with_sort_sound plan l none v l' h = cc
with_sort_sound plan l (some dep) v l' h =
    let (seen, same) = with_view_sound l (view_at plan dep) v l' h in (dep, refl, seen, same)

with_limit_sound :
    (plan : Plan) (o : Option (ℕ × Option ℕ)) (v l : ℕ)
    → with_limit plan o ≡ some (v, l)
    → (dep : Option ℕ) × (sort_dep : Option ℕ) × (o ≡ some (l, dep))
      × (sort_at plan dep ≡ some sort_dep)
      × (view_at plan sort_dep ≡ some v)
with_limit_sound plan none v l h = cc
with_limit_sound plan (some (k, dep)) v l h =
    let (sort_dep, sorted, seen, same) = with_sort_sound plan k (sort_at plan dep) v l h in
    (dep, sort_dep, (λ i. some (same i, dep)), sorted, seen)

view_at_sound :
    (plan : Plan) (dep : Option ℕ) (v : ℕ)
    → view_at plan dep ≡ some v
    → (dep ≡ some v) × ViewNode (get_elem? plan v)
unfolding view_at
view_at_sound plan none v h = cc
view_at_sound plan (some w) v h =
    let (same, is_one) = view_in_sound w v (get_elem? plan w) (sym (view_at_in plan w) ∙ h) in
    (ap some same, subst (λ k. ViewNode (get_elem? plan k)) same is_one)

sort_at_sound :
    (plan : Plan) (dep sort_dep : Option ℕ)
    → sort_at plan dep ≡ some sort_dep
    → (s : ℕ) × (dep ≡ some s) × SortNode (get_elem? plan s) sort_dep
unfolding sort_at
sort_at_sound plan none sort_dep h = cc
sort_at_sound plan (some s) sort_dep h =
    (s, refl, (sort_in_iff (get_elem? plan s) sort_dep).0 (sym (sort_at_in plan s) ∙ h))

-- The code's match is the pattern.
pub matched_iff : (plan : Plan) (n v l : ℕ) → (matched plan n ≡ some (v, l)) ↔ IsPattern plan n v l
matched_iff plan n v l = (
  λ h.
      let (dep, sort_dep, limited, sorted, seen) =
        with_limit_sound plan (limit_at plan n) v l (sym (matched_with plan n) ∙ h) in
      let (is_dep, view_node) = view_at_sound plan sort_dep v seen in
      let (s, at_s, sort_node) = sort_at_sound plan dep sort_dep sorted in
      (
        s,
        (limit_in_iff (get_elem? plan n) l (some s)).0
            (sym (limit_at_in plan n) ∙ limited ∙ (λ i. some (l, at_s i))),
        subst (λ d. SortNode (get_elem? plan s) d) is_dep sort_node,
        view_node,
      ),
  λ (s, limit_node, sort_node, view_node).
      matched_with plan n
      ∙ ap (with_limit plan)
          (limit_at_in plan n ∙ (limit_in_iff (get_elem? plan n) l (some s)).1 limit_node)
      ∙ ap (with_sort plan l)
          (sort_at_in plan s ∙ (sort_in_iff (get_elem? plan s) (some v)).1 sort_node)
      ∙ ap (with_view l) (view_at_in plan v ∙ view_in_complete v (get_elem? plan v) view_node),
)
