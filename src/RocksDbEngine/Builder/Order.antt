-- ===== src/RocksDbEngine/Builder/Order.antt =====
-- The order of keys that the scans compare by (`std::string`'s).
use open_arango_dbcore.Prelude.{
  ℕ, ◌≤◌, ◌≡◌, refl, true, false, [], ◌∷◌, ◌++◌, Str, inl, inr, Bool-cases, arith,
}
use open_arango_dbcore.RocksDbEngine.Partitioner.{str_lt}

-- k < a and a ≤ b give k < b.
pub str_lt-trans_le : (k a b : Str) → str_lt k a ≡ true → str_lt b a ≡ false → str_lt k b ≡ true
unfolding str_lt
str_lt-trans_le [] [] b h g = cc
str_lt-trans_le [] (x ∷ a) [] h g = cc
str_lt-trans_le [] (x ∷ a) (y ∷ b) h g = refl
str_lt-trans_le (z ∷ k) [] b h g = cc
str_lt-trans_le (z ∷ k) (x ∷ a) [] h g = cc
str_lt-trans_le (z ∷ k) (x ∷ a) (y ∷ b) h g = ground (arith, str_lt-trans_le k a b)

-- a ≤ b and b ≤ c give a ≤ c.
pub str_le_trans : (a b c : Str) → str_lt b a ≡ false → str_lt c b ≡ false → str_lt c a ≡ false
str_le_trans a b c h g = elim (Bool-cases (str_lt c a)) [
  | inl low ↦ cc (str_lt-trans_le c a b low h)
  | inr fine ↦ fine
]

pub str_lt_irrefl : (a : Str) → str_lt a a ≡ false
unfolding str_lt
str_lt_irrefl [] = refl
str_lt_irrefl (x ∷ a) = ground (arith, str_lt_irrefl a)

-- A prefix comes first, and what follows it is ordered by its first byte.
pub str_lt-append : (a b : Str) → str_lt (a ++ b) a ≡ false
unfolding str_lt
str_lt-append [] [] = refl
str_lt-append [] (y ∷ b) = refl
str_lt-append (x ∷ a) b = ground (arith, str_lt-append a b)

pub str_lt-append_le : (a : Str) (x y : ℕ) → x ≤ y → str_lt (a ++ y ∷ []) (a ++ x ∷ []) ≡ false
unfolding str_lt
str_lt-append_le [] x y h = ground arith
str_lt-append_le (z ∷ a) x y h = ground (arith, str_lt-append_le a x y)
