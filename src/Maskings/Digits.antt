-- ===== src/Maskings/Digits.antt =====
-- What the masks of card and phone numbers show: the last four digits and what stands between.
use open_arango_dbcore.Prelude.{
  ℕ, ◌+◌, ◌-◌, min, ◌≡◌, refl, ap, ◌∙◌, ◌&&◌, [], ◌∷◌, ltb, leb, if◌then◌else◌, Str, arith,
}
use open_arango_dbcore.Maskings.{
  is_digit, digit_count, credit_card_loop, credit_card_mask, is_separator, phone_loop, phone_mask,
}

-- Digits with at least four digits behind them are hidden; all else is kept.
unfoldable pub keep_last_four : Str → Str
keep_last_four [] = []
keep_last_four (ch ∷ rest) =
    (if is_digit ch && leb 4 (digit_count rest) then b'x' else ch) ∷ keep_last_four rest

-- The same, and all other characters but the separators are hidden too.
unfoldable pub keep_last_four_of_phone : Str → Str
keep_last_four_of_phone [] = []
keep_last_four_of_phone (ch ∷ rest) =
    (if is_digit ch
      then (if leb 4 (digit_count rest) then b'x' else ch)
      else if is_separator ch
      then ch
      else b'x')
    ∷ keep_last_four_of_phone rest

-- The loop, when `left` digits to mask and the digits of the rest are in step.
credit_card_loop-keep_last_four :
    (to_mask masked : ℕ) (s : Str)
    → to_mask - masked ≡ digit_count s - 4
    → credit_card_loop to_mask masked s ≡ keep_last_four s
unfolding credit_card_loop keep_last_four digit_count
credit_card_loop-keep_last_four to_mask masked [] h = refl
credit_card_loop-keep_last_four to_mask masked (ch ∷ rest) h = ground (
  arith,
  credit_card_loop-keep_last_four to_mask masked rest,
  credit_card_loop-keep_last_four to_mask (masked + 1) rest,
)

phone_loop-keep_last_four_of_phone :
    (to_mask masked : ℕ) (s : Str)
    → to_mask - masked ≡ digit_count s - 4
    → phone_loop to_mask masked s ≡ keep_last_four_of_phone s
unfolding phone_loop keep_last_four_of_phone digit_count
phone_loop-keep_last_four_of_phone to_mask masked [] h = refl
phone_loop-keep_last_four_of_phone to_mask masked (ch ∷ rest) h = ground (
  arith,
  phone_loop-keep_last_four_of_phone to_mask masked rest,
  phone_loop-keep_last_four_of_phone to_mask (masked + 1) rest,
)

-- What is shown is at most four digits, and all of them where there are no more.
digit_count-keep_last_four : (s : Str) → digit_count (keep_last_four s) ≡ min (digit_count s) 4
unfolding keep_last_four digit_count is_digit
digit_count-keep_last_four [] = refl
digit_count-keep_last_four (ch ∷ rest) = ground (arith, digit_count-keep_last_four rest)

-- The card mask hides exactly the digits that have four digits behind them and changes nothing else;
-- the phone mask hides these and every character that is neither a digit nor a separator. So a
-- masked card number shows as many digits as it had, up to four.
pub masks-keep_last_four :
    (input : Str)
    → (credit_card_mask input ≡ keep_last_four input)
      × (phone_mask input ≡ keep_last_four_of_phone input)
      × (digit_count (credit_card_mask input) ≡ min (digit_count input) 4)
unfolding credit_card_mask phone_mask
masks-keep_last_four input =
    let start : (if ltb 4 (digit_count input) then digit_count input - 4 else 0) - 0
        ≡ digit_count input - 4 =
      ground arith in
    let card : credit_card_mask input ≡ keep_last_four input =
      credit_card_loop-keep_last_four _ 0 input start in
    (
      card,
      phone_loop-keep_last_four_of_phone _ 0 input start,
      ap digit_count card ∙ digit_count-keep_last_four input,
    )
