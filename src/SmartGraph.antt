-- ===== src/SmartGraph.antt =====
-- Enterprise/VocBase/SmartGraphSchema.{h,cpp} and VirtualClusterSmartEdgeCollection.h: the keys of
-- a SmartGraph, and what a document or an edge must satisfy to be stored. A validation error keeps
-- the strings that the source writes into its message.
pub mod Keys
pub mod Validation
pub mod Colocation
mod Examples
use open_arango_dbcore.Prelude.{
  ℕ, ◌<◌, suc, List, [], ◌∷◌, ◌++◌, Option, none, some, Bool, true, false, ◌&&◌, ◌||◌, not, ltb,
  if◌then◌else◌, Str, str_eq, find_char, take, drop, count, str_key,
}
use open_arango_dbcore.Sharding.{colon}

-- '/'
abbrev pub slash : ℕ
slash = b'/'

pub data SmartGraphError : Type 0 where
  missing_smart_graph_attribute : (name : Str) → SmartGraphError
  missing_separator : (key : Str) → SmartGraphError
  prefix_mismatch : (prefix value : Str) → SmartGraphError
  crosses_partitions : (from to : Str) → SmartGraphError

pub data SmartGraphValidationResult : Type 0 where
  success : SmartGraphValidationResult
  error : SmartGraphError → SmartGraphValidationResult

unfoldable pub extract_smart_value : Str → Str
extract_smart_value key = elim (find_char colon key) [ none ↦ [] | some pos ↦ take pos key ]

unfoldable pub build_smart_key : Str → Str → Str
build_smart_key smart_value local_key = smart_value ++ colon ∷ local_key

unfoldable pub build_smart_edge_key : Str → Str → Str → Str
build_smart_edge_key from_smart to_smart edge_key =
    from_smart ++ colon ∷ (to_smart ++ colon ∷ edge_key)

unfoldable pub parse_collection_name : Str → Str
parse_collection_name handle = elim (find_char slash handle) [
  | none ↦ []
  | some pos ↦ take pos handle
]

-- The key of a document handle "collection/key", or all of a plain key.
unfoldable pub key_part : Str → Str
key_part value = elim (find_char slash value) [ none ↦ value | some pos ↦ drop (suc pos) value ]

unfoldable pub extract_prefix_from_key_or_handle : Str → Str
extract_prefix_from_key_or_handle value = extract_smart_value (key_part value)

abbrev pub is_empty : Str → Bool
is_empty [] = true
is_empty (c ∷ rest) = false

unfoldable pub validate_document : Str → Str → Str → SmartGraphValidationResult
validate_document key smart_attribute_value smart_attribute_name =
    if is_empty smart_attribute_value
    then error (missing_smart_graph_attribute smart_attribute_name)
    else elim (find_char colon key) [
      | none ↦ error (missing_separator key)
      | some colon_pos ↦
          if not (str_eq (take colon_pos key) smart_attribute_value)
          then error (prefix_mismatch (take colon_pos key) smart_attribute_value)
          else success
    ]

-- std::unordered_set<std::string>
abbrev pub StrSet : Type 0
StrSet = List Str

unfoldable pub is_satellite_side : StrSet → Str → Bool
is_satellite_side satellites handle =
    let collection = parse_collection_name handle in
    not (is_empty collection) && ltb 0 (count collection satellites)

unfoldable pub validate_edge : Str → Str → Bool → StrSet → SmartGraphValidationResult
validate_edge from_key to_key is_disjoint satellites =
    if not is_disjoint
    then success
    else if is_satellite_side satellites from_key || is_satellite_side satellites to_key
    then success
    else let from_prefix = extract_prefix_from_key_or_handle from_key in
      let to_prefix = extract_prefix_from_key_or_handle to_key in
      if not (str_eq from_prefix to_prefix)
      then error (crosses_partitions from_prefix to_prefix)
      else success

-- The three collections behind a smart edge collection.
pub record VirtualClusterSmartEdgeCollection : Type 0 where
  pub name : Str
  pub local_name : Str
  pub from_name : Str
  pub to_name : Str

-- "_local", "_from" and "_to"
abbrev pub local_suffix : Str
local_suffix = b'_' ∷ b'l' ∷ b'o' ∷ b'c' ∷ b'a' ∷ b'l' ∷ []

abbrev pub from_suffix : Str
from_suffix = b'_' ∷ b'f' ∷ b'r' ∷ b'o' ∷ b'm' ∷ []

abbrev pub to_suffix : Str
to_suffix = b'_' ∷ b't' ∷ b'o' ∷ []

unfoldable pub smart_edge_collection : Str → VirtualClusterSmartEdgeCollection
smart_edge_collection name = record {
  name = name;
  local_name = name ++ local_suffix;
  from_name = name ++ from_suffix;
  to_name = name ++ to_suffix;
}

unfoldable pub sub_collection_names : VirtualClusterSmartEdgeCollection → List Str
sub_collection_names c = c.local_name ∷ c.from_name ∷ c.to_name ∷ []
