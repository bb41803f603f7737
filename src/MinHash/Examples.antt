-- ===== src/MinHash/Examples.antt =====
-- Runs of the code modelled in MinHash.antt.
use open_arango_dbcore.Prelude.{
  ◌+◌, ◌*◌, ◌%◌, ◌≡◌, List, [], ◌∷◌, Str, str_eq_iff, str_key, count, ltb, arith,
}
use open_arango_dbcore.MinHash.{PermutationSeed, permutation_hash, min_hash_prime}
use open_arango_dbcore.MinHash.Arithmetic.{permutation_hash_linear}
use open_arango_dbcore.MinHash.Signature.{signature, signature_of_set}

abbrev seed : PermutationSeed
seed = record { a = 1152921504606846976; b = 77 }

permutation_hash_linear_example :
    permutation_hash 18446744073709551615 seed
    ≡ (1152921504606846976 * 18446744073709551615 + 77) % min_hash_prime
permutation_hash_linear_example =
    permutation_hash_linear 18446744073709551615 seed (omega arith) (omega arith) (omega arith)

abbrev once : List Str
once = (b'x' ∷ []) ∷ (b'y' ∷ []) ∷ []

abbrev again : List Str
again = (b'y' ∷ []) ∷ (b'x' ∷ []) ∷ (b'y' ∷ []) ∷ []

same_set : (e : Str) → ltb 0 (count e once) ≡ ltb 0 (count e again)
unfolding count
same_set e = ground (arith, str_eq_iff (b'x' ∷ []) e, str_eq_iff (b'y' ∷ []) e)

signature_of_set_example : signature (seed ∷ []) once ≡ signature (seed ∷ []) again
signature_of_set_example = signature_of_set (seed ∷ []) once again same_set
