-- ===== src/RocksDbEngine/Partitioner/Examples.antt =====
-- Runs of the code modelled in Partitioner.antt.
use open_arango_dbcore.Prelude.{◌≡◌, refl, true, [], ◌∷◌, Str}
use open_arango_dbcore.RocksDbEngine.Partitioner.{KeyRange, partition, str_lt, interpolate_key}

abbrev low : Str
low = b'a' ∷ 255 ∷ []

abbrev high : Str
high = b'b' ∷ 1 ∷ []

low_is_lower : str_lt low high ≡ true
unfolding str_lt
low_is_lower = refl

-- The middle key lies below the lower bound: the bytes are taken one by one, with no carry.
middle_is_below : str_lt (interpolate_key low high 1 2) low ≡ true
unfolding str_lt interpolate_key open_arango_dbcore.RocksDbEngine.Partitioner.trim_zeros
    open_arango_dbcore.RocksDbEngine.Partitioner.bytes_loop
    open_arango_dbcore.RocksDbEngine.Partitioner.interpolate_byte
    open_arango_dbcore.RocksDbEngine.Partitioner.drop_zeros
middle_is_below = refl
