-- ===== src/Cluster/FollowerReads/Headers.antt =====
-- The opt-in header of ReadFromFollower.cpp.
use open_arango_dbcore.Prelude.{
  ◌≡◌, ◌↔◌, refl, sym, ◌∙◌, Bool, true, false, [], ◌∷◌, map, some, inl, inr, Str, str_key, Map,
  find, length, get_or, Option-cases, ◌==◌, ◌&&◌, if◌then◌else◌, arith,
}
use open_arango_dbcore.Cluster.FollowerReads.{
  is_dirty_read_allowed, allow_dirty_read, to_lower, true_text,
}

-- The test of one value.
unfoldable pub says_true : Str → Bool
says_true val =
    if length val == 4
    then to_lower (get_or val 0 0) == b't'
      && (to_lower (get_or val 1 0) == b'r'
          && (to_lower (get_or val 2 0) == b'u' && to_lower (get_or val 3 0) == b'e'))
    else false

says_true_iff : (val : Str) → (says_true val ≡ true) ↔ (map to_lower val ≡ true_text)
unfolding says_true
says_true_iff [] = (λ h. cc, λ h. cc)
says_true_iff (a ∷ []) = (λ h. cc, λ h. cc)
says_true_iff (a ∷ b ∷ []) = (λ h. cc, λ h. cc)
says_true_iff (a ∷ b ∷ c ∷ []) = (λ h. cc, λ h. cc)
says_true_iff (a ∷ b ∷ c ∷ d ∷ []) = (λ h. ground (arith, h), λ h. ground (arith, h))
says_true_iff (a ∷ b ∷ c ∷ d ∷ e ∷ rest) = (λ h. absurd (ground (arith, h)), λ h. cc)

allowed :
    (headers : Map Str Str) (val : Str)
    → find allow_dirty_read headers ≡ some val
    → is_dirty_read_allowed headers ≡ says_true val
unfolding is_dirty_read_allowed says_true
allowed headers val found = rw (found, is_dirty_read_allowed) refl

-- Dirty reads are allowed exactly when the request has the header and its value, in lower case,
-- is "true".
pub is_dirty_read_allowed_iff :
    (headers : Map Str Str)
    → (is_dirty_read_allowed headers ≡ true)
      ↔ ((val : Str) × (find allow_dirty_read headers ≡ some val) × (map to_lower val ≡ true_text))
unfolding is_dirty_read_allowed
is_dirty_read_allowed_iff headers = elim (Option-cases (find allow_dirty_read headers)) [
  | inl missing ↦ (
    λ h. absurd (ground (arith, missing, h)),
    λ (val, found, text). absurd (ground (arith, missing, found)),
  )
  | inr (val, found) ↦ (
    λ h. (val, found, (says_true_iff val).0 (sym (allowed headers val found) ∙ h)),
    λ (other, found_other, text).
        let same : other ≡ val = ground (arith, found, found_other) in
        allowed headers val found ∙ (says_true_iff val).1 (rw (sym same) text),
  )
]
