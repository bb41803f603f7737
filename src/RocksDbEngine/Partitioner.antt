-- ===== src/RocksDbEngine/Partitioner.antt =====
-- Enterprise/RocksDBEngine/KeySpacePartitioner.{h,cpp} (partition): the ranges of keys that the
-- threads of an index build read. A fraction i / n is kept exact, where the source rounds it to a
-- double; a byte between two bytes is then the rounded-down weighted mean, and the clamp does nothing.
pub mod Chain
mod Examples
use open_arango_dbcore.Prelude.{
  ℕ, zero, suc, ◌+◌, ◌-◌, ◌*◌, ◌/◌, max, Bool, true, false, ◌&&◌, ◌||◌, not, List, [], ◌∷◌, ◌++◌,
  ltb, ◌==◌, if◌then◌else◌, length, get_or, Str,
}

pub record KeyRange : Type 0 where
  pub lower_bound : Str
  pub upper_bound : Str

abbrev pub is_empty : Str → Bool
is_empty [] = true
is_empty (c ∷ rest) = false

-- std::string's order: byte by byte, a prefix first
unfoldable pub str_lt : Str → Str → Bool
str_lt [] [] = false
str_lt [] (y ∷ ys) = true
str_lt (x ∷ xs) [] = false
str_lt (x ∷ xs) (y ∷ ys) = ltb x y || (x == y && str_lt xs ys)

-- lo + (hi - lo) * i / n, for i up to n
unfoldable pub interpolate_byte : ℕ → ℕ → ℕ → ℕ → ℕ
interpolate_byte lo hi i n = (lo * (n - i) + hi * i) / n

-- The bytes from `at` on; a string that is too short counts as padded with zeros.
unfoldable pub bytes_loop : ℕ → ℕ → Str → Str → ℕ → ℕ → Str
bytes_loop zero at lower upper i n = []
bytes_loop (suc left) at lower upper i n =
    interpolate_byte (get_or lower at 0) (get_or upper at 0) i n
    ∷ bytes_loop left (suc at) lower upper i n

unfoldable pub drop_zeros : Str → Str
drop_zeros [] = []
drop_zeros (c ∷ rest) =
    let kept : Str = drop_zeros rest in if c == 0 && is_empty kept then [] else c ∷ kept

-- pop_back while the last byte is zero and more than one is left
unfoldable pub trim_zeros : Str → Str
trim_zeros [] = []
trim_zeros (c ∷ rest) = c ∷ drop_zeros rest

unfoldable pub interpolate_key : Str → Str → ℕ → ℕ → Str
interpolate_key lower upper i n =
    let max_len : ℕ = max (length lower) (length upper) in
    if max_len == 0 then [] else trim_zeros (bytes_loop max_len 0 lower upper i n)

unfoldable pub split_key : Str → Str → ℕ → ℕ → Str
split_key lower upper i n =
    if is_empty upper then lower ++ (i * 255) / n ∷ [] else interpolate_key lower upper i n

-- for (i = 1; i < numPartitions; ++i); the first argument counts down from n - i.
unfoldable pub splits_loop : ℕ → ℕ → Str → Str → ℕ → List Str
splits_loop zero i lower upper n = []
splits_loop (suc left) i lower upper n =
    split_key lower upper i n ∷ splits_loop left (suc i) lower upper n

unfoldable pub ranges_loop : Str → List Str → Str → List KeyRange
ranges_loop prev_bound [] upper = record { lower_bound = prev_bound; upper_bound = upper } ∷ []
ranges_loop prev_bound (split ∷ splits) upper =
    record { lower_bound = prev_bound; upper_bound = split } ∷ ranges_loop split splits upper

unfoldable pub partition : Str → Str → ℕ → List KeyRange
partition lower upper num_partitions =
    if num_partitions == 0
    then []
    else if not (is_empty upper) && not (str_lt lower upper)
    then []
    else if num_partitions == 1
    then record { lower_bound = lower; upper_bound = upper } ∷ []
    else ranges_loop lower (splits_loop (num_partitions - 1) 1 lower upper num_partitions) upper
