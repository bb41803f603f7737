-- ===== src/TopK/Plan.antt =====
-- The optimizer rule of IResearchOptimizeTopK.cpp, over the standalone build's plan nodes
-- (tests/mocks/AqlMocks.h): a node's first dependency is an index into the plan's nodes.
use open_arango_dbcore.Prelude.{
  ℕ, ◌+◌, Bool, true, false, ◌&&◌, ◌||◌, not, Option, none, some, List, [], ◌∷◌, map, get_elem?,
  set, leb, ◌==◌, if◌then◌else◌, starts_with, Str,
}

pub record SortElement : Type 0 where
  pub attribute_path : Str
  pub ascending : Bool

pub data Payload : Type 0 where
  view : (enable_wand : Bool) (wand_heap_size : ℕ) → Payload
  sort : (elements : List SortElement) → Payload
  limit : (limit offset : ℕ) → Payload
  filter return calculation other : Payload

pub record ExecutionNode : Type 0 where
  pub payload : Payload
  pub first_dep : Option ℕ

unfoldable pub to_lower : ℕ → ℕ
to_lower c = if leb b'A' c && leb c b'Z' then c + 32 else c

-- s.find(p) != npos
unfoldable pub contains : Str → Str → Bool
unfolding starts_with
contains p [] = starts_with p []
contains p (c ∷ s) = starts_with p (c ∷ s) || contains p s

abbrev pub bm25 : Str
bm25 = b'b' ∷ b'm' ∷ b'2' ∷ b'5' ∷ []

unfoldable pub is_bm25_sort_element : SortElement → Bool
unfolding contains to_lower
is_bm25_sort_element element = contains bm25 (map to_lower element.attribute_path)

unfoldable pub validate_sort : List SortElement → Bool
unfolding is_bm25_sort_element
validate_sort [] = false
validate_sort (first ∷ rest) =
    if not (is_bm25_sort_element first) then false else if first.ascending then false else true

unfoldable pub validate_limit : ℕ → ℕ → Bool
validate_limit l offset = if not (offset == 0) then false else if l == 0 then false else true

-- A limit node that is valid: its limit and its dependency.
unfoldable pub limit_of : Payload → Option ℕ → Option (ℕ × Option ℕ)
unfolding validate_limit
limit_of (limit l o) dep = if not (validate_limit l o) then none else some (l, dep)
limit_of (view e h) dep = none
limit_of (sort es) dep = none
limit_of filter dep = none
limit_of return dep = none
limit_of calculation dep = none
limit_of other dep = none

-- A sort node that is valid: its dependency.
unfoldable pub sort_of : Payload → Option ℕ → Option (Option ℕ)
unfolding validate_sort
sort_of (sort es) dep = if not (validate_sort es) then none else some dep
sort_of (limit l o) dep = none
sort_of (view e h) dep = none
sort_of filter dep = none
sort_of return dep = none
sort_of calculation dep = none
sort_of other dep = none

unfoldable pub is_view : Payload → Bool
is_view (view e h) = true
is_view (limit l o) = false
is_view (sort es) = false
is_view filter = false
is_view return = false
is_view calculation = false
is_view other = false

abbrev pub Plan : Type 0
Plan = List ExecutionNode

unfoldable pub limit_at : Plan → ℕ → Option (ℕ × Option ℕ)
unfolding limit_of
limit_at plan n = elim (get_elem? plan n) [
  | none ↦ none
  | some node ↦ limit_of node.payload node.first_dep
]

unfoldable pub sort_at : Plan → Option ℕ → Option (Option ℕ)
unfolding sort_of
sort_at plan none = none
sort_at plan (some n) = elim (get_elem? plan n) [
  | none ↦ none
  | some node ↦ sort_of node.payload node.first_dep
]

unfoldable pub view_at : Plan → Option ℕ → Option ℕ
unfolding is_view
view_at plan none = none
view_at plan (some n) = elim (get_elem? plan n) [
  | none ↦ none
  | some node ↦ if is_view node.payload then some n else none
]

-- The pattern at a node: the view and the limit.
unfoldable pub matched : Plan → ℕ → Option (ℕ × ℕ)
unfolding limit_at sort_at view_at
matched plan n = elim (limit_at plan n) [
  | none ↦ none
  | some (l, dep) ↦ elim (sort_at plan dep) [
    | none ↦ none
    | some sort_dep ↦ elim (view_at plan sort_dep) [ none ↦ none | some v ↦ some (v, l) ]
  ]
]

-- setWandEnabled(true), setWandHeapSize(limit)
unfoldable pub enable : Plan → ℕ → ℕ → Plan
enable plan v l = elim (get_elem? plan v) [
  | none ↦ plan
  | some node ↦ set plan v (record node { payload = view true l })
]

-- The body of the loop over the nodes.
unfoldable pub optimize_step : Plan → ℕ → ℕ → Plan × ℕ
unfolding matched enable
optimize_step plan n optimized = elim (matched plan n) [
  | none ↦ (plan, optimized)
  | some (v, l) ↦ (enable plan v l, optimized + 1)
]

-- for (auto* node : nodes), with the number of patterns so far.
unfoldable pub optimize_loop : List ℕ → Plan → ℕ → Plan × ℕ
unfolding optimize_step
optimize_loop [] plan optimized = (plan, optimized)
optimize_loop (n ∷ nodes) plan optimized =
    let (plan', optimized') = optimize_step plan n optimized in optimize_loop nodes plan' optimized'

unfoldable pub optimize_top_k_patterns : List ℕ → Plan → Plan × ℕ
unfolding optimize_loop
optimize_top_k_patterns nodes plan = optimize_loop nodes plan 0
