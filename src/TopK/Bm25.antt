-- ===== src/TopK/Bm25.antt =====
-- isBM25SortElement: which attribute paths count as a BM25 score.
use open_arango_dbcore.Prelude.{
  ℕ, ◌≡◌, ◌↔◌, ◌⊎◌, refl, sym, ap, subst, Bool, true, false, ◌&&◌, ◌||◌, [], ◌∷◌, ◌++◌, map, ◌==◌,
  inl, inr, Bool-cases, starts_with, Str, arith,
}
use open_arango_dbcore.TopK.Plan.{SortElement, to_lower, contains, bm25, is_bm25_sort_element}

-- The text begins with "bm25" in any mix of cases.
abbrev pub BeginsBm25 : Str → Type 0
BeginsBm25 s =
    (b : ℕ) × (m : ℕ) × (after : Str) × ((b ≡ b'b') ⊎ (b ≡ b'B'))
    × ((m ≡ b'm') ⊎ (m ≡ b'M'))
    × (s ≡ b ∷ m ∷ b'2' ∷ b'5' ∷ after)

-- The text has it somewhere.
abbrev pub NamesBm25 : Str → Type 0
NamesBm25 s = (before : Str) × (rest : Str) × BeginsBm25 rest × (s ≡ before ++ rest)

lower_b : (c : ℕ) → (b'b' == to_lower c) ≡ true → (c ≡ b'b') ⊎ (c ≡ b'B')
unfolding to_lower
lower_b c same = ground arith

lower_m : (c : ℕ) → (b'm' == to_lower c) ≡ true → (c ≡ b'm') ⊎ (c ≡ b'M')
unfolding to_lower
lower_m c same = ground arith

lower_two : (c : ℕ) → (b'2' == to_lower c) ≡ true → c ≡ b'2'
unfolding to_lower
lower_two c same = ground arith

lower_five : (c : ℕ) → (b'5' == to_lower c) ≡ true → c ≡ b'5'
unfolding to_lower
lower_five c same = ground arith

both : (x y : Bool) → (x && y) ≡ true → (x ≡ true) × (y ≡ true)
both true y h = (refl, h)
both false y h = cc

too_short : (x : Bool) → (x && false) ≡ true → ⊥
too_short true h = cc
too_short false h = cc

begins_sound : (s : Str) → starts_with bm25 (map to_lower s) ≡ true → BeginsBm25 s
unfolding starts_with
begins_sound [] h = cc
begins_sound (b ∷ []) h = absurd (too_short (b'b' == to_lower b) h)
begins_sound (b ∷ m ∷ []) h =
    absurd (too_short (b'm' == to_lower m) (both (b'b' == to_lower b) _ h).1)
begins_sound (b ∷ m ∷ two ∷ []) h =
    let (is_m, h2) = both (b'm' == to_lower m) _ (both (b'b' == to_lower b) _ h).1 in
    absurd (too_short (b'2' == to_lower two) h2)
begins_sound (b ∷ m ∷ two ∷ five ∷ after) h =
    let (is_b, h1) = both (b'b' == to_lower b) _ h in
    let (is_m, h2) = both (b'm' == to_lower m) _ h1 in
    let (is_two, h3) = both (b'2' == to_lower two) _ h2 in
    let (is_five, h4) = both (b'5' == to_lower five) _ h3 in
    (
      b,
      m,
      after,
      lower_b b is_b,
      lower_m m is_m,
      λ i. b ∷ m ∷ lower_two two is_two i ∷ lower_five five is_five i ∷ after,
    )

abbrev Begins : Str → Type 0
Begins s = starts_with bm25 (map to_lower s) ≡ true

Begins-complete : (s : Str) → BeginsBm25 s → Begins s
unfolding starts_with to_lower
Begins-complete s (b, m, after, is_b, is_m, same) =
    let text : ℕ → ℕ → Str = λ x y. x ∷ y ∷ b'2' ∷ b'5' ∷ after in
    subst Begins (sym same) (elim is_b [
      | inl small_b ↦ elim is_m [
        | inl small_m ↦ subst Begins (λ i. text (sym small_b i) (sym small_m i)) refl
        | inr big_m ↦ subst Begins (λ i. text (sym small_b i) (sym big_m i)) refl
      ]
      | inr big_b ↦ elim is_m [
        | inl small_m ↦ subst Begins (λ i. text (sym big_b i) (sym small_m i)) refl
        | inr big_m ↦ subst Begins (λ i. text (sym big_b i) (sym big_m i)) refl
      ]
    ])

names_sound : (s : Str) → contains bm25 (map to_lower s) ≡ true → NamesBm25 s
unfolding contains starts_with
names_sound [] h = cc
names_sound (c ∷ s) h = elim (Bool-cases (starts_with bm25 (map to_lower (c ∷ s)))) [
  | inl here ↦ ([], c ∷ s, begins_sound (c ∷ s) here, refl)
  | inr later ↦
      let (before, rest, begins, same) =
        names_sound s (subst (λ t. (t || contains bm25 (map to_lower s)) ≡ true) later h) in
      (c ∷ before, rest, begins, ap (λ t. c ∷ t) same)
]

abbrev Names : Str → Type 0
Names s = contains bm25 (map to_lower s) ≡ true

Names-here : (s : Str) → Begins s → Names s
unfolding contains
Names-here [] begins = begins
Names-here (c ∷ s) begins = ap (λ t. t || contains bm25 (map to_lower s)) begins

or_true : (x y : Bool) → y ≡ true → (x || y) ≡ true
or_true true y h = refl
or_true false y h = h

Names-complete : (before rest : Str) → Begins rest → Names (before ++ rest)
unfolding contains
Names-complete [] rest begins = Names-here rest begins
Names-complete (c ∷ before) rest begins =
    or_true (starts_with bm25 (map to_lower (c ∷ before ++ rest))) _
      (Names-complete before rest begins)

pub is_bm25_sort_element_iff :
    (element : SortElement)
    → (is_bm25_sort_element element ≡ true) ↔ NamesBm25 element.attribute_path
unfolding is_bm25_sort_element
is_bm25_sort_element_iff element = (
  names_sound element.attribute_path,
  λ (before, rest, begins, same).
      subst Names (sym same) (Names-complete before rest (Begins-complete rest begins)),
)
