-- ===== src/Maskings/Examples.antt =====
-- Tests of the strategies and of the rules, and the theorems at an input.
use open_arango_dbcore.Prelude.{
  ℕ, ◌≡◌, ◌↔◌, min, refl, Bool, true, false, Option, none, some, List, [], ◌∷◌, Str, Map, find,
  str_key, arith,
}
use open_arango_dbcore.Maskings.{
  MaskingRule, CollectionMaskingConfig, credit_card_mask, phone_mask, xify_front_mask,
  credit_card_name, install_maskings_ee, apply_masking, digit_count,
}
use open_arango_dbcore.Maskings.Rules.{changed, field_by_configs, apply_masking_field}
use open_arango_dbcore.Maskings.Digits.{
  keep_last_four, keep_last_four_of_phone, masks-keep_last_four,
}

-- "4111-1111-23"
abbrev card : Str
card = b'4' ∷ b'1' ∷ b'1' ∷ b'1' ∷ b'-' ∷ b'1' ∷ b'1' ∷ b'1' ∷ b'1' ∷ b'-' ∷ b'2' ∷ b'3' ∷ []

card_masked :
    credit_card_mask card
    ≡ b'x' ∷ b'x' ∷ b'x' ∷ b'x' ∷ b'-' ∷ b'x' ∷ b'x' ∷ b'1' ∷ b'1' ∷ b'-' ∷ b'2' ∷ b'3' ∷ []
unfolding credit_card_mask
card_masked = refl

-- "+1-555-123-4567": the plus sign and the country code are two characters.
abbrev phone : Str
phone =
    b'+' ∷ b'1' ∷ b'-' ∷ b'5' ∷ b'5' ∷ b'5' ∷ b'-' ∷ b'1' ∷ b'2' ∷ b'3' ∷ b'-' ∷ b'4' ∷ b'5' ∷ b'6'
    ∷ b'7' ∷ []

phone_masked :
    phone_mask phone
    ≡ b'x' ∷ b'x' ∷ b'-' ∷ b'x' ∷ b'x' ∷ b'x' ∷ b'-' ∷ b'x' ∷ b'x' ∷ b'x' ∷ b'-' ∷ b'4' ∷ b'5'
      ∷ b'6' ∷ b'7' ∷ []
unfolding phone_mask
phone_masked = refl

xified :
    xify_front_mask (b'J' ∷ b'o' ∷ b' ' ∷ b'D' ∷ b'o' ∷ b'e' ∷ [])
    ≡ b'x' ∷ b'x' ∷ b' ' ∷ b'x' ∷ b'x' ∷ b'x' ∷ []
unfolding xify_front_mask
xified = refl

abbrev rule : MaskingRule
rule = record { path = b'c' ∷ []; type = credit_card_name; roles = (b'v' ∷ []) ∷ [] }

abbrev configs : List CollectionMaskingConfig
configs = record { collection_name = b'u' ∷ []; rules = rule ∷ [] } ∷ []

abbrev fields : Map Str Str
fields = (b'n' ∷ [], b'J' ∷ []) ∷ (b'c' ∷ [], card) ∷ []

masked_for_viewer :
    apply_masking (install_maskings_ee []) (b'u' ∷ []) (b'v' ∷ []) fields configs
    ≡ (b'n' ∷ [], b'J' ∷ [])
      ∷ (
        b'c' ∷ [],
        b'x' ∷ b'x' ∷ b'x' ∷ b'x' ∷ b'-' ∷ b'x' ∷ b'x' ∷ b'1' ∷ b'1' ∷ b'-' ∷ b'2' ∷ b'3' ∷ [],
      )
      ∷ []
unfolding apply_masking open_arango_dbcore.Prelude.str_eq install_maskings_ee
masked_for_viewer = refl

plain_for_admin :
    apply_masking (install_maskings_ee []) (b'u' ∷ []) (b'a' ∷ []) fields configs ≡ fields
unfolding apply_masking open_arango_dbcore.Prelude.str_eq
plain_for_admin = refl

apply_masking_field_example :
    find (b'c' ∷ []) (apply_masking (install_maskings_ee []) (b'u' ∷ []) (b'v' ∷ []) fields configs)
    ≡ changed
        (field_by_configs (install_maskings_ee []) (b'u' ∷ []) (b'v' ∷ []) (b'c' ∷ []) configs)
        (find (b'c' ∷ []) fields)
apply_masking_field_example =
    apply_masking_field (install_maskings_ee []) (b'u' ∷ []) (b'v' ∷ []) (b'c' ∷ []) fields configs

masks-keep_last_four_example :
    (credit_card_mask card ≡ keep_last_four card)
    × (phone_mask card ≡ keep_last_four_of_phone card)
    × (digit_count (credit_card_mask card) ≡ min (digit_count card) 4)
masks-keep_last_four_example = masks-keep_last_four card
