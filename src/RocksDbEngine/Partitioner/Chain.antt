-- ===== src/RocksDbEngine/Partitioner/Chain.antt =====
-- The ranges of KeySpacePartitioner.cpp join without a gap.
use open_arango_dbcore.Prelude.{
  ℕ, zero, suc, ◌-◌, ◌<◌, ◌≡◌, refl, ap, ◌∙◌, true, false, ◌&&◌, ◌||◌, not, inl, inr, List, [], ◌∷◌,
  ◌==◌, length, Str, Bool-cases, arith,
}
use open_arango_dbcore.RocksDbEngine.Partitioner.{
  KeyRange, is_empty, str_lt, splits_loop, ranges_loop, partition,
}

-- Each range begins where the one before it ends, the first at `from`, and the last ends at `to`.
unfoldable pub Chained : Str → Str → List KeyRange → Type 0
Chained from to [] = from ≡ to
Chained from to (r ∷ rest) = (r.lower_bound ≡ from) × Chained r.upper_bound to rest

ranges_loop-Chained :
    (prev : Str) (splits : List Str) (upper : Str)
    → Chained prev upper (ranges_loop prev splits upper)
      × (length (ranges_loop prev splits upper) ≡ suc (length splits))
unfolding ranges_loop Chained
ranges_loop-Chained prev [] upper = ((refl, refl), refl)
ranges_loop-Chained prev (split ∷ splits) upper =
    let (chained, counted) = ranges_loop-Chained split splits upper in
    ((refl, chained), ap suc counted)

length-splits_loop :
    (left i : ℕ) (lower upper : Str) (n : ℕ) → length (splits_loop left i lower upper n) ≡ left
unfolding splits_loop
length-splits_loop zero i lower upper n = refl
length-splits_loop (suc left) i lower upper n =
    ap suc (length-splits_loop left (suc i) lower upper n)

-- If at least one partition is asked for and the upper bound is open or above the lower one, there
-- are as many ranges as asked for, and they lead from the lower bound to the upper one, each
-- beginning where the one before it ends.
pub partition-Chained :
    (lower upper : Str) (n : ℕ)
    → 0 < n
    → (is_empty upper || str_lt lower upper) ≡ true
    → Chained lower upper (partition lower upper n) × (length (partition lower upper n) ≡ n)
unfolding partition Chained
partition-Chained lower upper n some_part proper =
    let present : (n == 0) ≡ false = ground (arith, some_part) in
    let wide : (not (is_empty upper) && not (str_lt lower upper)) ≡ false =
      ground (arith, proper) in
    elim (Bool-cases (n == 1)) [
      | inl one ↦ rw (present, wide, one, partition) ((refl, refl), ground (arith, one))
      | inr more ↦
          let (chained, counted) =
            ranges_loop-Chained lower (splits_loop (n - 1) 1 lower upper n) upper in
          rw (present, wide, more, partition)
            (
              chained,
              counted ∙ omega (arith, length-splits_loop (n - 1) 1 lower upper n, some_part),
            )
    ]
