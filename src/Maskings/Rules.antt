-- ===== src/Maskings/Rules.antt =====
-- What AttributeMasking::applyMasking does to each field, seen from that field.
use open_arango_dbcore.Prelude.{
  ◌≡◌, refl, sym, ap, subst, ◌∙◌, Bool, true, false, ◌||◌, not, Option, none, some, List, [], ◌∷◌,
  inl, inr, if◌then◌else◌, Bool-cases, Option-cases, Str, str_eq, str_eq_iff, str_key, Map, find,
  find-insert, find-insert_self, str_eq_refl,
}
use open_arango_dbcore.Maskings.{
  MaskingRule, any_role, CollectionMaskingConfig, Registry, applies_to_role, find_masking,
  apply_rule, apply_rules, apply_configs, apply_masking,
}

-- A value under what may not be there.
abbrev pub changed : (Str → Str) → Option Str → Option Str
changed f none = none
changed f (some v) = some (f v)

abbrev pub among : List Str → Str → Bool
among [] role = false
among (r ∷ rest) role = str_eq r role || among rest role

-- A rule without roles is for every role, one with roles for those.
abbrev pub for_role : List Str → Str → Bool
for_role [] role = true
for_role (r ∷ rest) role = among (r ∷ rest) role

-- A rule's effect on the field at a path: its strategy, if the rule is for the role and the path and
-- the strategy is registered.
unfoldable pub field_by_rule : Registry → Str → Str → MaskingRule → Str → Str
field_by_rule registry user_role path rule value =
    if not (for_role rule.roles user_role)
    then value
    else if not (str_eq rule.path path)
    then value
    else elim (find_masking registry rule.type) [ none ↦ value | some mask ↦ mask value ]

unfoldable pub field_by_rules : Registry → Str → Str → List MaskingRule → Str → Str
unfolding field_by_rule
field_by_rules registry user_role path [] value = value
field_by_rules registry user_role path (rule ∷ rest) value =
    field_by_rules registry user_role path rest (field_by_rule registry user_role path rule value)

-- The rules of the collection, each in its turn.
unfoldable pub field_by_configs :
    Registry → Str → Str → Str → List CollectionMaskingConfig → Str → Str
unfolding field_by_rules
field_by_configs registry collection_name user_role path [] value = value
field_by_configs registry collection_name user_role path (config ∷ rest) value =
    field_by_configs registry collection_name user_role path rest (
      if not (str_eq config.collection_name collection_name)
      then value
      else field_by_rules registry user_role path config.rules value)

changed_same : (f : Str → Str) → ((v : Str) → f v ≡ v) → (o : Option Str) → changed f o ≡ o
changed_same f h none = refl
changed_same f h (some v) = ap some (h v)

changed_ext :
    (f g : Str → Str) → ((v : Str) → f v ≡ g v) → (o : Option Str) → changed f o ≡ changed g o
changed_ext f g h none = refl
changed_ext f g h (some v) = ap some (h v)

changed_id : (o : Option Str) → changed (λ v. v) o ≡ o
changed_id none = refl
changed_id (some v) = refl

any_role-among : (roles : List Str) (role : Str) → any_role roles role ≡ among roles role
unfolding any_role
any_role-among [] role = refl
any_role-among (r ∷ rest) role = elim (Bool-cases (str_eq r role)) [
  | inl here ↦ rw here (refl)
  | inr other ↦ rw other (any_role-among rest role)
]

roles_same :
    (roles : List Str) (role : Str)
    → (elim roles [ [] ↦ true | r ∷ rest ↦ any_role (r ∷ rest) role ]) ≡ for_role roles role
roles_same [] role = refl
roles_same (r ∷ rest) role = any_role-among (r ∷ rest) role

applies_to_role-for_role :
    (rule : MaskingRule) (role : Str) → applies_to_role rule role ≡ for_role rule.roles role
unfolding applies_to_role
applies_to_role-for_role rule role = roles_same rule.roles role

field_by_rule_other :
    (registry : Registry) (user_role path : Str) (rule : MaskingRule) (value : Str)
    → str_eq rule.path path ≡ false
    → field_by_rule registry user_role path rule value ≡ value
unfolding field_by_rule
field_by_rule_other registry user_role path rule value other =
    elim (Bool-cases (for_role rule.roles user_role)) [
      | inl role ↦ rw (role, other, field_by_rule) (refl)
      | inr no_role ↦ rw (no_role, field_by_rule) (refl)
    ]

apply_rule_other :
    (registry : Registry) (user_role path : Str) (result : Map Str Str) (rule : MaskingRule)
    → str_eq rule.path path ≡ false
    → find path (apply_rule registry user_role result rule) ≡ find path result
unfolding apply_rule
apply_rule_other registry user_role path result rule other =
    elim (Bool-cases (applies_to_role rule user_role)) [
      | inr no_role ↦ rw (no_role, apply_rule) (refl)
      | inl role ↦ elim (Option-cases (find rule.path result)) [
        | inl absent ↦ rw (role, absent, apply_rule) (refl)
        | inr (value, present) ↦ elim (Option-cases (find_masking registry rule.type)) [
          | inl unknown ↦ rw (role, present, unknown, apply_rule) (refl)
          | inr (mask, known) ↦
              rw (role, present, known, apply_rule)
                (find-insert rule.path path (mask value) result ∙ rw other (refl))
        ]
      ]
    ]

apply_rule_here :
    (registry : Registry) (user_role : Str) (result : Map Str Str) (rule : MaskingRule)
    → find rule.path (apply_rule registry user_role result rule)
      ≡ changed (field_by_rule registry user_role rule.path rule) (find rule.path result)
unfolding apply_rule field_by_rule
apply_rule_here registry user_role result rule =
    let same : for_role rule.roles user_role ≡ applies_to_role rule user_role =
      sym (applies_to_role-for_role rule user_role) in
    elim (Bool-cases (applies_to_role rule user_role)) [
      | inr no_role ↦
          rw (no_role, same ∙ no_role, apply_rule, field_by_rule)
            (sym (changed_id (find rule.path result)))
      | inl role ↦ elim (Option-cases (find rule.path result)) [
        | inl absent ↦ rw (role, absent, apply_rule) (absent)
        | inr (value, present) ↦ elim (Option-cases (find_masking registry rule.type)) [
          | inl unknown ↦
              rw
                (
                  role,
                  same ∙ role,
                  present,
                  unknown,
                  str_eq_refl rule.path,
                  apply_rule,
                  field_by_rule,
                )
                (present)
          | inr (mask, known) ↦
              rw
                (
                  role,
                  same ∙ role,
                  present,
                  known,
                  str_eq_refl rule.path,
                  apply_rule,
                  field_by_rule,
                )
                (find-insert_self rule.path (mask value) result)
        ]
      ]
    ]

apply_rule_field :
    (registry : Registry) (user_role path : Str) (result : Map Str Str) (rule : MaskingRule)
    → find path (apply_rule registry user_role result rule)
      ≡ changed (field_by_rule registry user_role path rule) (find path result)
apply_rule_field registry user_role path result rule = elim (Bool-cases (str_eq rule.path path)) [
  | inl here ↦
      subst
        (λ p.
          find p (apply_rule registry user_role result rule)
          ≡ changed (field_by_rule registry user_role p rule) (find p result))
        ((str_eq_iff rule.path path).0 here) (apply_rule_here registry user_role result rule)
  | inr other ↦
      apply_rule_other registry user_role path result rule other
      ∙ sym (
          changed_same (field_by_rule registry user_role path rule)
            (λ v. field_by_rule_other registry user_role path rule v other) (find path result))
]

changed-changed :
    (f g : Str → Str) (o : Option Str) → changed g (changed f o) ≡ changed (λ v. g (f v)) o
changed-changed f g none = refl
changed-changed f g (some v) = refl

apply_rules_field :
    (registry : Registry) (user_role path : Str) (result : Map Str Str) (rules : List MaskingRule)
    → find path (apply_rules registry user_role result rules)
      ≡ changed (field_by_rules registry user_role path rules) (find path result)
unfolding apply_rules field_by_rules
apply_rules_field registry user_role path result [] = sym (changed_id (find path result))
apply_rules_field registry user_role path result (rule ∷ rest) =
    apply_rules_field registry user_role path (apply_rule registry user_role result rule) rest
    ∙ ap (changed (field_by_rules registry user_role path rest))
        (apply_rule_field registry user_role path result rule)
    ∙ changed-changed (field_by_rule registry user_role path rule)
        (field_by_rules registry user_role path rest) (find path result)

apply_configs_field :
    (registry : Registry) (collection_name user_role path : Str) (result : Map Str Str)
    (configs : List CollectionMaskingConfig)
    → find path (apply_configs registry collection_name user_role result configs)
      ≡ changed
          (field_by_configs registry collection_name user_role path configs)
          (find path result)
unfolding apply_configs field_by_configs
apply_configs_field registry collection_name user_role path result [] =
    sym (changed_id (find path result))
apply_configs_field registry collection_name user_role path result (config ∷ rest) =
    elim (Bool-cases (str_eq config.collection_name collection_name)) [
      | inl same ↦
          let step : find path (
                apply_configs registry collection_name user_role
                  (apply_rules registry user_role result config.rules) rest)
              ≡ changed
                  (λ v.
                    field_by_configs registry collection_name user_role path rest
                      (field_by_rules registry user_role path config.rules v))
                  (find path result) =
            apply_configs_field registry collection_name user_role path
              (apply_rules registry user_role result config.rules) rest
            ∙ ap (changed (field_by_configs registry collection_name user_role path rest))
                (apply_rules_field registry user_role path result config.rules)
            ∙ changed-changed (field_by_rules registry user_role path config.rules)
                (field_by_configs registry collection_name user_role path rest)
                (find path result) in
          rw same (step ∙ changed_ext _ _ (λ v. rw same (refl)) (find path result))
      | inr other ↦ rw other (
          apply_configs_field registry collection_name user_role path result rest
          ∙ changed_ext _ _ (λ v. rw other (refl)) (find path result))
    ]

-- Masking works field by field: whatever the registry, the rules and the role, after applyMasking a
-- field that was absent is absent, and a field that was present holds its value under the strategies
-- of exactly the rules of the collection that are for this path and this role and whose strategy is
-- registered, one after another in the order of the configuration.
pub apply_masking_field :
    (registry : Registry) (collection_name user_role path : Str) (fields : Map Str Str)
    (configs : List CollectionMaskingConfig)
    → find path (apply_masking registry collection_name user_role fields configs)
      ≡ changed
          (field_by_configs registry collection_name user_role path configs)
          (find path fields)
unfolding apply_masking
apply_masking_field registry collection_name user_role path fields configs =
    apply_configs_field registry collection_name user_role path fields configs
