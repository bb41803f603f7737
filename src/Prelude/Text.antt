-- ===== src/Prelude/Text.antt =====
-- Searching in byte strings. A position is an index from the front, and `none` is `npos`.
use Prim.Native.Nat.{ℕ, suc}
use mathlib.Core.Path.{◌≡◌, refl, ap, sym, subst}
use mathlib.Core.Logic.{inl, inr}
use mathlib.Core.Bool.{Bool, true, false, ◌&&◌}
use mathlib.Core.Option.{Option, none, some}
use mathlib.Core.List.{[], ◌∷◌, ◌++◌}
use native.Mathlib.Omega.{arith}
use open_arango_dbcore.Prelude.Tests.{◌==◌, if◌then◌else◌, Bool-cases, Option-cases}
use open_arango_dbcore.Prelude.Lists.{length, take, drop}
use open_arango_dbcore.Prelude.Keys.{Str}

-- s.find(c)
unfoldable pub find_char : ℕ → Str → Option ℕ
find_char c [] = none
find_char c (x ∷ xs) =
    if x == c then some 0 else elim (find_char c xs) [ none ↦ none | some i ↦ some (suc i) ]

unfoldable pub starts_with : Str → Str → Bool
starts_with [] s = true
starts_with (p ∷ ps) [] = false
starts_with (p ∷ ps) (c ∷ s) = p == c && starts_with ps s

-- s.find(p)
unfoldable pub find_str : Str → Str → Option ℕ
unfolding starts_with
find_str p [] = if starts_with p [] then some 0 else none
find_str p (c ∷ s) =
    if starts_with p (c ∷ s)
    then some 0
    else elim (find_str p s) [ none ↦ none | some i ↦ some (suc i) ]

-- The character is not in the string.
abbrev pub Lacks : ℕ → Str → Type 0
Lacks c [] = Unit {0}
Lacks c (x ∷ xs) = ((x == c) ≡ false) × Lacks c xs

pub find_char-Lacks : (c : ℕ) (s : Str) → Lacks c s → find_char c s ≡ none
unfolding find_char
find_char-Lacks c [] h = refl
find_char-Lacks c (x ∷ xs) h = rw (h.0, find_char-Lacks c xs h.1)

pub find_char-none : (c : ℕ) (s : Str) → find_char c s ≡ none → Lacks c s
unfolding find_char
find_char-none c [] h = tt
find_char-none c (x ∷ xs) h = (ground arith, find_char-none c xs (ground arith))

-- The first character of that kind stands right behind a prefix that lacks it.
pub find_char-append :
    (c : ℕ) (s rest : Str) → Lacks c s → find_char c (s ++ c ∷ rest) ≡ some (length s)
unfolding find_char
find_char-append c [] rest h = ground arith
find_char-append c (x ∷ s) rest h = rw (h.0, find_char-append c s rest h.1)

pub find_char-some :
    (c : ℕ) (s : Str) (i : ℕ)
    → find_char c s ≡ some i
    → (s ≡ take i s ++ c ∷ drop (suc i) s) × Lacks c (take i s)
unfolding find_char
find_char-some c [] i h = cc
find_char-some c (x ∷ xs) i h = elim (Bool-cases (x == c)) [
  | inl here ↦
      let first : i ≡ 0 = ground arith in
      let same : x ≡ c = ground arith in rw (first, same) (refl, tt)
  | inr later ↦ elim (Option-cases (find_char c xs)) [
    | inl missing ↦ absurd (ground arith)
    | inr (j, found) ↦
        let next : i ≡ suc j = ground arith in
        let step = find_char-some c xs j found in
        subst
          (λ n. (x ∷ xs ≡ take n (x ∷ xs) ++ c ∷ drop (suc n) (x ∷ xs)) × Lacks c (take n (x ∷ xs)))
          (sym next) (ap (◌∷◌ x) (step.0), (later, step.1))
  ]
]

pub take-length : (s rest : Str) → take (length s) (s ++ rest) ≡ s
take-length [] rest = refl
take-length (x ∷ s) rest = ap (◌∷◌ x) (take-length s rest)

pub drop-length : (s rest : Str) → drop (length s) (s ++ rest) ≡ rest
drop-length [] rest = refl
drop-length (x ∷ s) rest = drop-length s rest

pub drop-length-suc : (c : ℕ) (s rest : Str) → drop (suc (length s)) (s ++ c ∷ rest) ≡ rest
drop-length-suc c [] rest = refl
drop-length-suc c (x ∷ s) rest = drop-length-suc c s rest
