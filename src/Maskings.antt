-- ===== src/Maskings.antt =====
-- Enterprise/Maskings/AttributeMasking.{h,cpp} and AttributeMaskingEE.cpp: the registry of masking
-- strategies, the rules of a collection and the strategies. A factory is the `mask` method of the
-- objects that it makes. An `int` that counts digits is a number: a value of 2^31 digits is not
-- modelled.
pub mod Rules
pub mod Digits
pub mod Email
mod Examples
use open_arango_dbcore.Prelude.{
  ℕ, zero, suc, ◌+◌, ◌-◌, ◌*◌, ◌/◌, ◌%◌, Bool, true, false, ◌&&◌, ◌||◌, not, Option, none, some,
  List, [], ◌∷◌, ◌++◌, map, ltb, leb, ◌==◌, if◌then◌else◌, Str, str_eq, str_key, Map, find, insert,
  u32_mod, bit_xor,
}

pub record MaskingRule : Type 0 where
  pub path : Str
  pub type : Str
  pub roles : List Str

-- for (auto const& r : roles)
unfoldable pub any_role : List Str → Str → Bool
any_role [] role = false
any_role (r ∷ rest) role = if str_eq r role then true else any_role rest role

unfoldable pub applies_to_role : MaskingRule → Str → Bool
unfolding any_role
applies_to_role rule role = elim rule.roles [ [] ↦ true | r ∷ rest ↦ any_role (r ∷ rest) role ]

pub record CollectionMaskingConfig : Type 0 where
  pub collection_name : Str
  pub rules : List MaskingRule

abbrev pub MaskingFactory : Type 0
MaskingFactory = Str → Str

abbrev pub Registry : Type 0
Registry = Map Str MaskingFactory

unfoldable pub install_masking : Registry → Str → MaskingFactory → Registry
unfolding insert
install_masking registry name factory = insert name factory registry

unfoldable pub find_masking : Registry → Str → Option MaskingFactory
unfolding find
find_masking registry name = find name registry

unfoldable pub clear_maskings : Registry → Registry
clear_maskings registry = []

-- The body of the loop over the rules.
unfoldable pub apply_rule : Registry → Str → Map Str Str → MaskingRule → Map Str Str
unfolding applies_to_role find insert find_masking
apply_rule registry user_role result rule =
    if not (applies_to_role rule user_role) then result else elim (find rule.path result) [
      | none ↦ result
      | some value ↦ elim (find_masking registry rule.type) [
        | none ↦ result
        | some mask ↦ insert rule.path (mask value) result
      ]
    ]

unfoldable pub apply_rules : Registry → Str → Map Str Str → List MaskingRule → Map Str Str
unfolding apply_rule
apply_rules registry user_role result [] = result
apply_rules registry user_role result (rule ∷ rest) =
    apply_rules registry user_role (apply_rule registry user_role result rule) rest

-- for (auto const& config : configs)
unfoldable pub apply_configs :
    Registry → Str → Str → Map Str Str → List CollectionMaskingConfig → Map Str Str
unfolding apply_rules
apply_configs registry collection_name user_role result [] = result
apply_configs registry collection_name user_role result (config ∷ rest) =
    apply_configs registry collection_name user_role
      (if not (str_eq config.collection_name collection_name)
        then result
        else apply_rules registry user_role result config.rules)
      rest

unfoldable pub apply_masking :
    Registry → Str → Str → Map Str Str → List CollectionMaskingConfig → Map Str Str
unfolding apply_configs
apply_masking registry collection_name user_role fields configs =
    apply_configs registry collection_name user_role fields configs

-- XifyFrontMask::mask
unfoldable pub xify_front_mask : Str → Str
xify_front_mask input = map (λ ch. if ch == b' ' then b' ' else b'x') input

unfoldable pub is_digit : ℕ → Bool
is_digit ch = leb b'0' ch && leb ch b'9'

unfoldable pub digit_count : Str → ℕ
unfolding is_digit
digit_count [] = 0
digit_count (ch ∷ rest) = if is_digit ch then digit_count rest + 1 else digit_count rest

-- for (auto& ch : result), with the digits masked so far.
unfoldable pub credit_card_loop : ℕ → ℕ → Str → Str
unfolding is_digit
credit_card_loop digits_to_mask masked [] = []
credit_card_loop digits_to_mask masked (ch ∷ rest) =
    let hit = is_digit ch && ltb masked digits_to_mask in
    (if hit then b'x' else ch)
    ∷ credit_card_loop digits_to_mask (if hit then masked + 1 else masked) rest

unfoldable pub credit_card_mask : Str → Str
unfolding digit_count credit_card_loop
credit_card_mask input =
    let digits = digit_count input in
    credit_card_loop (if ltb 4 digits then digits - 4 else 0) 0 input

unfoldable pub is_separator : ℕ → Bool
is_separator ch = ch == b'-' || (ch == b'(' || (ch == b')' || (ch == b' ' || ch == b'.')))

unfoldable pub phone_loop : ℕ → ℕ → Str → Str
unfolding is_digit is_separator
phone_loop digits_to_mask masked [] = []
phone_loop digits_to_mask masked (ch ∷ rest) =
    let hit = is_digit ch && ltb masked digits_to_mask in
    (if is_digit ch
      then (if ltb masked digits_to_mask then b'x' else ch)
      else if not (is_separator ch)
      then b'x'
      else ch)
    ∷ phone_loop digits_to_mask (if hit then masked + 1 else masked) rest

unfoldable pub phone_mask : Str → Str
unfolding digit_count phone_loop
phone_mask input =
    let digits = digit_count input in phone_loop (if ltb 4 digits then digits - 4 else 0) 0 input

-- EmailMask::mask: the hash, its letters and the address.
unfoldable pub fnv1a_loop : ℕ → Str → ℕ
fnv1a_loop hash [] = hash
fnv1a_loop hash (c ∷ rest) = fnv1a_loop ((bit_xor hash c * 16777619) % u32_mod) rest

unfoldable pub fnv1a : Str → ℕ
unfolding fnv1a_loop
fnv1a input = fnv1a_loop 2166136261 input

unfoldable pub to_alpha : ℕ → ℕ → Str
to_alpha val zero = []
to_alpha val (suc len) = (b'A' + val % 26) ∷ to_alpha (val / 26) len

abbrev pub invalid_domain : Str
invalid_domain = b'.' ∷ b'i' ∷ b'n' ∷ b'v' ∷ b'a' ∷ b'l' ∷ b'i' ∷ b'd' ∷ []

unfoldable pub email_mask : Str → Str
unfolding fnv1a to_alpha
email_mask input =
    let h = fnv1a input in
    to_alpha h 4
    ++ b'.' ∷ (to_alpha (h / 256) 4 ++ b'@' ∷ (to_alpha (h / 65536) 4 ++ invalid_domain))

abbrev pub xify_front_name : Str
xify_front_name = b'x' ∷ b'i' ∷ b'f' ∷ b'y' ∷ b'F' ∷ b'r' ∷ b'o' ∷ b'n' ∷ b't' ∷ []

abbrev pub email_name : Str
email_name = b'e' ∷ b'm' ∷ b'a' ∷ b'i' ∷ b'l' ∷ []

abbrev pub credit_card_name : Str
credit_card_name = b'c' ∷ b'r' ∷ b'e' ∷ b'd' ∷ b'i' ∷ b't' ∷ b'C' ∷ b'a' ∷ b'r' ∷ b'd' ∷ []

abbrev pub phone_name : Str
phone_name = b'p' ∷ b'h' ∷ b'o' ∷ b'n' ∷ b'e' ∷ []

-- InstallMaskingsEE
unfoldable pub install_maskings_ee : Registry → Registry
unfolding install_masking xify_front_mask email_mask credit_card_mask phone_mask
install_maskings_ee registry =
    install_masking
      (install_masking
        (install_masking (install_masking registry xify_front_name xify_front_mask) email_name
          email_mask)
        credit_card_name credit_card_mask)
      phone_name phone_mask
