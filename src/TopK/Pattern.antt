-- ===== src/TopK/Pattern.antt =====
-- What optimizeTopKPatterns looks for, by the nodes of the plan.
use open_arango_dbcore.Prelude.{
  ℕ, ◌≡◌, ◌≢◌, refl, Bool, true, false, not, Option, none, some, List, [], ◌∷◌, get_elem?, ◌==◌,
  ==_iff, if◌then◌else◌, arith,
}
use open_arango_dbcore.TopK.Plan.{
  SortElement, Payload, view, sort, limit, filter, return, calculation, other, ExecutionNode, Plan,
  is_bm25_sort_element, validate_sort, validate_limit, limit_of, sort_of, is_view,
}
use open_arango_dbcore.TopK.Bm25.{NamesBm25, is_bm25_sort_element_iff}

-- The node is a limit without an offset, of more than nothing, over the dependency.
abbrev pub LimitNode : Option ExecutionNode → ℕ → Option ℕ → Type 0
LimitNode at l dep =
    (node : ExecutionNode) × (at ≡ some node)
    × (node.payload ≡ limit l 0)
    × (l ≢ 0)
    × (node.first_dep ≡ dep)

-- The node is a sort, first by a BM25 score, descending, over the dependency.
abbrev pub SortNode : Option ExecutionNode → Option ℕ → Type 0
SortNode at dep =
    (node : ExecutionNode) × (first : SortElement) × (rest : List SortElement) × (at ≡ some node)
    × (node.payload ≡ sort (first ∷ rest))
    × NamesBm25 first.attribute_path
    × (first.ascending ≡ false)
    × (node.first_dep ≡ dep)

abbrev pub ViewNode : Option ExecutionNode → Type 0
ViewNode at =
    (node : ExecutionNode) × (enabled : Bool) × (heap_size : ℕ) × (at ≡ some node)
    × (node.payload ≡ view enabled heap_size)

-- Such a limit at n, over such a sort, over the view at v.
abbrev pub IsPattern : Plan → ℕ → ℕ → ℕ → Type 0
IsPattern plan n v l =
    (s : ℕ) × LimitNode (get_elem? plan n) l (some s)
    × SortNode (get_elem? plan s) (some v)
    × ViewNode (get_elem? plan v)

-- The tests of the two nodes.
abbrev guarded_limit : Bool → Bool → ℕ → Option ℕ → Option (ℕ × Option ℕ)
guarded_limit no_offset no_limit k dep =
    if not (if not no_offset then false else if no_limit then false else true)
    then none
    else some (k, dep)

limit_guards :
    (no_offset no_limit : Bool) (k : ℕ) (dep : Option ℕ) (l : ℕ) (d : Option ℕ)
    → guarded_limit no_offset no_limit k dep ≡ some (l, d)
    → (no_offset ≡ true) × (no_limit ≡ false) × (k ≡ l) × (dep ≡ d)
limit_guards true true k dep l d h = cc
limit_guards true false k dep l d h = (refl, refl, cc, cc)
limit_guards false no_limit k dep l d h = cc

sort_guards :
    (by_score ascending : Bool) (dep d : Option ℕ)
    → (if not (if not by_score then false else if ascending then false else true)
        then none
        else some dep)
      ≡ some d
    → (by_score ≡ true) × (ascending ≡ false) × (dep ≡ d)
sort_guards true true dep d h = cc
sort_guards true false dep d h = (refl, refl, cc)
sort_guards false ascending dep d h = cc

pub limit_of_sound :
    (payload : Payload) (dep : Option ℕ) (l : ℕ) (d : Option ℕ)
    → limit_of payload dep ≡ some (l, d)
    → (payload ≡ limit l 0) × (l ≢ 0) × (dep ≡ d)
unfolding limit_of validate_limit
limit_of_sound (limit k offset) dep l d h =
    let (no_offset, some_limit, same_limit, same_dep) =
      limit_guards (offset == 0) (k == 0) k dep l d h in
    (
      (λ i. limit (same_limit i) ((==_iff offset 0).0 no_offset i)),
      (λ (empty : l ≡ 0). ground arith),
      same_dep,
    )
limit_of_sound (view e k) dep l d h = cc
limit_of_sound (sort es) dep l d h = cc
limit_of_sound filter dep l d h = cc
limit_of_sound return dep l d h = cc
limit_of_sound calculation dep l d h = cc
limit_of_sound other dep l d h = cc

pub limit_of_complete : (l : ℕ) (dep : Option ℕ) → l ≢ 0 → limit_of (limit l 0) dep ≡ some (l, dep)
unfolding limit_of validate_limit
limit_of_complete l dep some_limit =
    let above : (l == 0) ≡ false = ground arith in rw (above) (refl)

pub sort_of_sound :
    (payload : Payload) (dep d : Option ℕ)
    → sort_of payload dep ≡ some d
    → (first : SortElement) × (rest : List SortElement) × (payload ≡ sort (first ∷ rest))
      × NamesBm25 first.attribute_path
      × (first.ascending ≡ false)
      × (dep ≡ d)
unfolding sort_of validate_sort
sort_of_sound (sort []) dep d h = cc
sort_of_sound (sort (first ∷ rest)) dep d h =
    let (by_score, descending, same_dep) =
      sort_guards (is_bm25_sort_element first) first.ascending dep d h in
    (first, rest, refl, (is_bm25_sort_element_iff first).0 by_score, descending, same_dep)
sort_of_sound (limit l o) dep d h = cc
sort_of_sound (view e k) dep d h = cc
sort_of_sound filter dep d h = cc
sort_of_sound return dep d h = cc
sort_of_sound calculation dep d h = cc
sort_of_sound other dep d h = cc

pub sort_of_complete :
    (first : SortElement) (rest : List SortElement) (dep : Option ℕ)
    → NamesBm25 first.attribute_path
    → first.ascending ≡ false
    → sort_of (sort (first ∷ rest)) dep ≡ some dep
unfolding sort_of validate_sort
sort_of_complete first rest dep names descending =
    rw ((is_bm25_sort_element_iff first).1 names, descending) (refl)

pub is_view_sound :
    (payload : Payload)
    → is_view payload ≡ true
    → (enabled : Bool) × (heap_size : ℕ) × (payload ≡ view enabled heap_size)
unfolding is_view
is_view_sound (view e k) h = (e, k, refl)
is_view_sound (limit l o) h = cc
is_view_sound (sort es) h = cc
is_view_sound filter h = cc
is_view_sound return h = cc
is_view_sound calculation h = cc
is_view_sound other h = cc
