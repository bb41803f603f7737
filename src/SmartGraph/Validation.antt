-- ===== src/SmartGraph/Validation.antt =====
-- What the validation of SmartGraphSchema.cpp accepts.
use open_arango_dbcore.Prelude.{
  suc, subst, str_eq_refl, ◌≡◌, ◌≢◌, ◌↔◌, ◌⊎◌, inl, inr, refl, ap, ◌∙◌, Bool, true, false, [], ◌∷◌,
  ◌++◌, Str, str_eq, str_eq_iff, find_char, Lacks, find_char-append, find_char-some, take, drop,
  take-length, Bool-cases, Option-cases, arith,
}
use open_arango_dbcore.Sharding.{colon}
use open_arango_dbcore.SmartGraph.{
  success, validate_document, validate_edge, is_satellite_side, StrSet,
  extract_prefix_from_key_or_handle, build_smart_key,
}

validate_document-success :
    (key value name : Str)
    → validate_document key value name ≡ success
    → (value ≢ []) × Lacks colon value × ((local : Str) × (key ≡ build_smart_key value local))
unfolding validate_document build_smart_key
validate_document-success key [] name h = cc
validate_document-success key (v ∷ vs) name h = elim (Option-cases (find_char colon key)) [
  | inl missing ↦ absurd (ground arith)
  | inr (pos, found) ↦ elim (Bool-cases (str_eq (take pos key) (v ∷ vs))) [
    | inl same ↦
        let split = find_char-some colon key pos found in
        let whole : take pos key ≡ v ∷ vs = (str_eq_iff (take pos key) (v ∷ vs)).0 same in
        (
          λ e. cc,
          subst (Lacks colon) whole split.1,
          (drop (suc pos) key, split.0 ∙ ap (λ p. p ++ colon ∷ drop (suc pos) key) whole),
        )
    | inr differ ↦ absurd (ground arith)
  ]
]

validate_document-build_smart_key :
    (value local name : Str)
    → value ≢ []
    → Lacks colon value
    → validate_document (build_smart_key value local) value name ≡ success
unfolding validate_document build_smart_key
validate_document-build_smart_key [] local name some_value lacks = absurd (some_value refl)
validate_document-build_smart_key (v ∷ vs) local name some_value lacks =
    rw
      (
        find_char-append colon (v ∷ vs) local lacks,
        take-length (v ∷ vs) (colon ∷ local),
        str_eq_refl (v ∷ vs),
      )
      refl

-- A document is accepted exactly when its attribute value is not empty, has no ':' in it, and the
-- key is that value, ':' and some local key.
pub validate_document_iff :
    (key value name : Str)
    → (validate_document key value name ≡ success)
      ↔ ((value ≢ []) × Lacks colon value × ((local : Str) × (key ≡ build_smart_key value local)))
validate_document_iff key value name = (
  validate_document-success key value name,
  λ (some_value, lacks, (local, e)).
      rw e (validate_document-build_smart_key value local name some_value lacks),
)

-- An edge is accepted exactly when the graph is not disjoint, or one of its sides lies in a
-- satellite collection, or the two sides have the same smart value.
pub validate_edge_iff :
    (from to : Str) (disjoint : Bool) (satellites : StrSet)
    → (validate_edge from to disjoint satellites ≡ success) ↔ (
        (disjoint ≡ false)
        ⊎ (is_satellite_side satellites from ≡ true)
        ⊎ (is_satellite_side satellites to ≡ true)
        ⊎ (extract_prefix_from_key_or_handle from ≡ extract_prefix_from_key_or_handle to))
unfolding validate_edge
validate_edge_iff from to disjoint satellites = ground (
  arith,
  str_eq_iff (extract_prefix_from_key_or_handle from) (extract_prefix_from_key_or_handle to),
)
