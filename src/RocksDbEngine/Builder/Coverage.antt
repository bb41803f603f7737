-- ===== src/RocksDbEngine/Builder/Coverage.antt =====
-- Ranges that join and ascend read a range together as one task would read it alone.
use open_arango_dbcore.Prelude.{
  ◌≡◌, refl, sym, ap, ◌∙◌, true, false, ◌&&◌, ◌||◌, not, List, [], ◌∷◌, ◌++◌, Str, inl, inr,
  Bool-cases, if◌then◌else◌, append_nil, arith,
}
use open_arango_dbcore.RocksDbEngine.Partitioner.{KeyRange, is_empty, str_lt, ranges_loop}
use open_arango_dbcore.RocksDbEngine.Builder.{Pair}
use open_arango_dbcore.RocksDbEngine.Builder.Order.{str_lt-trans_le, str_le_trans}
use open_arango_dbcore.RocksDbEngine.Builder.Scan.{from_key, is_below, below}

-- a ≤ b, where b may stand for no bound.
abbrev pub AtMost : Str → Str → Type 0
AtMost a b = (is_empty b || not (str_lt b a)) ≡ true

-- The split points ascend from the lower bound to the upper one, and none is empty.
unfoldable pub Ascends : Str → List Str → Str → Type 0
Ascends from [] upper = AtMost from upper
Ascends from (split ∷ splits) upper =
    (is_empty split ≡ false) × (str_lt split from ≡ false) × Ascends split splits upper

unfoldable pub read_all : List Pair → List KeyRange → List Pair
read_all snapshot [] = []
read_all snapshot (r ∷ rest) =
    below r.upper_bound (from_key r.lower_bound snapshot) ++ read_all snapshot rest

Ascends-AtMost :
    (from : Str) (splits : List Str) (upper : Str) → Ascends from splits upper → AtMost from upper
unfolding Ascends
Ascends-AtMost from [] upper h = h
Ascends-AtMost from (split ∷ splits) upper h =
    let later : AtMost split upper = Ascends-AtMost split splits upper h.2 in
    elim (Bool-cases (is_empty upper)) [
      | inl open_end ↦ rw open_end (refl)
      | inr bounded ↦
          let step : str_lt upper split ≡ false = ground arith in
          rw (bounded, str_le_trans from split upper h.1 step) (refl)
    ]

-- Passing over the smaller keys in two goes.
from_key-from_key :
    (a b : Str) (ps : List Pair) → str_lt b a ≡ false → from_key b (from_key a ps) ≡ from_key b ps
unfolding from_key
from_key-from_key a b [] h = refl
from_key-from_key a b ((k, v) ∷ rest) h = elim (Bool-cases (str_lt k a)) [
  | inl low ↦
      rw (low, from_key) (rw (str_lt-trans_le k a b low h, from_key) (from_key-from_key a b rest h))
  | inr high ↦ rw high (refl)
]

-- A list splits at the first key that reaches the bound.
below-from_key : (b : Str) (ps : List Pair) → is_empty b ≡ false → below b ps ++ from_key b ps ≡ ps
unfolding below from_key is_below
below-from_key b [] h = refl
below-from_key b ((k, v) ∷ rest) h = elim (Bool-cases (str_lt k b)) [
  | inl low ↦ rw (h, low) (ap (◌∷◌ (k, v)) (below-from_key b rest h))
  | inr high ↦ rw (h, high) (refl)
]

is_below_low : (b k : Str) → str_lt k b ≡ true → is_below b k ≡ true
unfolding is_below
is_below_low b k h = ground arith

is_below_high : (b k : Str) → is_empty b ≡ false → str_lt k b ≡ false → is_below b k ≡ false
unfolding is_below
is_below_high b k h g = ground arith

is_below_later : (k b c : Str) → str_lt k b ≡ true → AtMost b c → is_below c k ≡ true
unfolding is_below
is_below_later k b c low g = elim (Bool-cases (is_empty c)) [
  | inl open_end ↦ rw open_end (refl)
  | inr bounded ↦
      let step : str_lt c b ≡ false = ground arith in
      rw (bounded, str_lt-trans_le k b c low step) (refl)
]

-- Up to a later bound is up to the earlier one, then on from it.
below-split :
    (b c : Str) (ps : List Pair)
    → is_empty b ≡ false
    → AtMost b c
    → below b ps ++ below c (from_key b ps) ≡ below c ps
unfolding below from_key
below-split b c [] h g = refl
below-split b c ((k, v) ∷ rest) h g = elim (Bool-cases (str_lt k b)) [
  | inl low ↦
      rw (low, is_below_low b k low, is_below_later k b c low g)
        (ap (◌∷◌ (k, v)) (below-split b c rest h g))
  | inr high ↦ rw (high, is_below_high b k h high) (refl)
]

-- The ranges of ascending split points, read one after another, are the whole range.
pub read_all-ranges_loop :
    (snapshot : List Pair) (from : Str) (splits : List Str) (upper : Str)
    → Ascends from splits upper
    → read_all snapshot (ranges_loop from splits upper) ≡ below upper (from_key from snapshot)
unfolding read_all ranges_loop Ascends
read_all-ranges_loop snapshot from [] upper h = append_nil (below upper (from_key from snapshot))
read_all-ranges_loop snapshot from (split ∷ splits) upper h =
    ap (λ (ps : List Pair). below split (from_key from snapshot) ++ ps)
      (read_all-ranges_loop snapshot split splits upper h.2)
    ∙ ap (λ (ps : List Pair). below split (from_key from snapshot) ++ below upper ps)
        (sym (from_key-from_key from split snapshot h.1))
    ∙ below-split split upper (from_key from snapshot) h.0 (Ascends-AtMost split splits upper h.2)

-- Ascending keys: each is at most those behind it.
unfoldable pub IsSorted : List Pair → Type 0
IsSorted [] = Unit {0}
IsSorted ((k, v) ∷ []) = Unit {0}
IsSorted ((k, v) ∷ (j, w) ∷ rest) = (str_lt j k ≡ false) × IsSorted ((j, w) ∷ rest)

IsSorted-tail : (p : Pair) (ps : List Pair) → IsSorted (p ∷ ps) → IsSorted ps
unfolding IsSorted
IsSorted-tail (k, v) [] h = tt
IsSorted-tail (k, v) ((j, w) ∷ rest) h = h.1

-- The pairs whose key is in the range.
unfoldable pub in_range : Str → Str → List Pair → List Pair
in_range lower upper [] = []
in_range lower upper ((k, v) ∷ rest) =
    if not (str_lt k lower) && is_below upper k
    then (k, v) ∷ in_range lower upper rest
    else in_range lower upper rest

is_below_past :
    (upper j k : Str) → is_below upper k ≡ false → str_lt j k ≡ false → is_below upper j ≡ false
unfolding is_below
is_below_past upper j k h g =
    let bounded : is_empty upper ≡ false = ground arith in
    let past : str_lt k upper ≡ false = ground arith in
    rw (bounded, str_le_trans upper k j past g) (refl)

none_past :
    (lower upper : Str) (ps : List Pair) (k v : Str)
    → IsSorted ((k, v) ∷ ps)
    → is_below upper k ≡ false
    → in_range lower upper ps ≡ []
unfolding IsSorted in_range
none_past lower upper [] k v sorted past = refl
none_past lower upper ((j, w) ∷ rest) k v sorted past =
    let past_j : is_below upper j ≡ false = is_below_past upper j k past sorted.0 in
    rw past_j (elim (Bool-cases (str_lt j lower)) [
      | inl low ↦ rw low (none_past lower upper rest j w sorted.1 past_j)
      | inr high ↦ rw high (none_past lower upper rest j w sorted.1 past_j)
    ])

-- Behind the lower bound, the range is what is in front of the upper bound.
in_range-below :
    (lower upper : Str) (ps : List Pair) (k v : Str)
    → IsSorted ((k, v) ∷ ps)
    → str_lt k lower ≡ false
    → in_range lower upper ((k, v) ∷ ps) ≡ below upper ((k, v) ∷ ps)
unfolding IsSorted in_range below
in_range-below lower upper [] k v sorted high =
    rw high (elim (Bool-cases (is_below upper k)) [ inl m ↦ rw m (refl) | inr m ↦ rw m (refl) ])
in_range-below lower upper ((j, w) ∷ rest) k v sorted high = elim (Bool-cases (is_below upper k)) [
  | inl more ↦
      rw (high, more)
        (ap (◌∷◌ (k, v))
          (in_range-below lower upper rest j w sorted.1 (str_le_trans lower k j high sorted.0)))
  | inr past ↦ rw (high, past) (none_past lower upper ((j, w) ∷ rest) k v sorted past)
]

from_key_high :
    (lower k v : Str) (rest : List Pair)
    → str_lt k lower ≡ false
    → from_key lower ((k, v) ∷ rest) ≡ (k, v) ∷ rest
unfolding from_key
from_key_high lower k v rest high = rw high (refl)

below_nil : (upper : Str) → below upper [] ≡ []
unfolding below
below_nil upper = refl

-- Of a sorted snapshot, what a scan of the range reads is the pairs whose key is in the range.
pub below-from_key-in_range :
    (lower upper : Str) (ps : List Pair)
    → IsSorted ps
    → below upper (from_key lower ps) ≡ in_range lower upper ps
unfolding in_range from_key
below-from_key-in_range lower upper [] sorted = below_nil upper
below-from_key-in_range lower upper ((k, v) ∷ rest) sorted = elim (Bool-cases (str_lt k lower)) [
  | inl low ↦
      rw (low, from_key)
        (below-from_key-in_range lower upper rest (IsSorted-tail (k, v) rest sorted))
  | inr high ↦
      ap (below upper) (from_key_high lower k v rest high)
      ∙ sym (in_range-below lower upper rest k v sorted high)
]
