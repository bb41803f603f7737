-- ===== src/RocksDbEngine/Encryption/Examples.antt =====
-- Tests of the cipher, and the theorems at a small block function.
use open_arango_dbcore.Prelude.{
  ℕ, zero, suc, ◌+◌, ◌*◌, ◌/◌, ◌%◌, ◌≤◌, ◌<◌, ◌≡◌, refl, ap, ◌∙◌, Bool, true, false, Option, none,
  some, List, [], ◌∷◌, ◌++◌, length, get_or, take, drop, replicate, Str, ℤ, pos, negsuc, ◌⊎◌,
  u64_mod, arith,
}
use open_arango_dbcore.RocksDbEngine.Encryption.{
  Evp, Status, ok, io_error, prefix_too_short, Failure, update_failed, context_failed,
  rand_bytes_failed, Outcome, AesctrCipherStream, make_stream, make_provider, create_new_prefix,
  create_cipher_stream, counter_at, ctr_transform, encrypt, decrypt,
}
use open_arango_dbcore.RocksDbEngine.Encryption.Counter.{
  IsBytes, IsReady, value_upto, counter_at_value, counter_mod,
}
use open_arango_dbcore.RocksDbEngine.Encryption.Stream.{IsCounterMode, xor_stream, stream_byte}
use open_arango_dbcore.RocksDbEngine.Encryption.WaysOut.{IsWorking, ctr_transform_ways_out}
use open_arango_dbcore.RocksDbEngine.Encryption.RoundTrip.{decrypt-encrypt, opened-IsReady}

-- A block function of the key's length and the counter.
abbrev toy_block : Str → ℕ → Str
toy_block key n = replicate 16 ((length key + n) % 256)

abbrev toy_update : Str × ℕ → Str → ℤ → Bool × Str × (Str × ℕ)
toy_update ctx buffer (pos n) = (
  true,
  xor_stream (stream_byte toy_block ctx.0) ctx.1 (take n buffer) ++ drop n buffer,
  (ctx.0, ctx.1 + n),
)
toy_update ctx buffer (negsuc n) = (false, buffer, ctx)

abbrev toy_evp : Evp
toy_evp = record {
  Context = Str × ℕ;
  context_new = some ([], 0);
  encrypt_init = λ _ key counter. (true, (key, value_upto 16 counter * 16));
  encrypt_update = toy_update;
}

abbrev toy_mode : IsCounterMode toy_evp toy_block
toy_mode = record {
  Streams = λ ctx key p. (ctx.0 ≡ key) × (ctx.1 ≡ p);
  init_law = λ _ key counter _. (refl, refl);
  write_law = λ ctx key buffer p n at _ _.
      ap (λ k. xor_stream (stream_byte toy_block k) ctx.1 (take n buffer) ++ drop n buffer) at.0
      ∙ ap (λ (q : ℕ). xor_stream (stream_byte toy_block key) q (take n buffer) ++ drop n buffer)
          at.1;
  advance_law = λ ctx key buffer p n at _ _. (at.0, ap (λ (q : ℕ). q + n) at.1);
}

abbrev toy_working : IsWorking toy_evp
toy_working = record { made = (([], 0), refl); starts = λ _ _ _. refl; updates = λ _ _ _ _. refl }

-- Opened from a prefix whose last bytes are about to carry over.
abbrev carrying : Str
carrying = replicate 14 0 ++ 255 ∷ 255 ∷ []

abbrev opened : AesctrCipherStream
opened = record { key = replicate 32 7; iv = take 16 carrying }

AllBytes : Str → Type 0
AllBytes [] = Unit {0}
AllBytes (b ∷ bs) = (b < 256) × AllBytes bs

AllBytes-IsBytes : (s : Str) → AllBytes s → IsBytes s
unfolding AllBytes
AllBytes-IsBytes [] h j = omega arith
AllBytes-IsBytes (b ∷ bs) h zero = h.0
AllBytes-IsBytes (b ∷ bs) h (suc j) = AllBytes-IsBytes bs h.1 j

IsReady-opened : IsReady opened
unfolding AllBytes
IsReady-opened =
    opened-IsReady (replicate 32 7) carrying (omega arith) (AllBytes-IsBytes carrying (omega arith))

carried : counter_at opened 20 ≡ replicate 13 0 ++ 1 ∷ 0 ∷ 0 ∷ []
unfolding counter_at
carried = refl

refused_key : make_stream (7 ∷ []) carrying ≡ none
unfolding make_stream
refused_key = refl

refused_provider : make_provider (replicate 31 7) ≡ none
unfolding make_provider
refused_provider = refl

short_prefix :
    create_cipher_stream (replicate 32 7) (take 15 carrying) none ≡ some (prefix_too_short, none)
unfolding create_cipher_stream
short_prefix = refl

failed_random : create_new_prefix (λ _. (false, [])) carrying ≡ (io_error rand_bytes_failed, [])
unfolding create_new_prefix
failed_random = refl

middle :
    ctr_transform toy_evp opened 30 (1 ∷ 2 ∷ 3 ∷ []) 0
    ≡ record { status = ok; buffer = 33 ∷ 34 ∷ 34 ∷ []; contexts = 0 }
unfolding ctr_transform open_arango_dbcore.Prelude.to_int
    open_arango_dbcore.RocksDbEngine.Encryption.leave xor_stream stream_byte value_upto
middle = refl

counter_at_value_example :
    value_upto 16 (counter_at opened 20) ≡ (value_upto 16 opened.iv + 20 / 16) % counter_mod
counter_at_value_example = counter_at_value opened 20 IsReady-opened (omega arith)

ctr_transform_ways_out_example :
    ((ctr_transform toy_evp opened 30 (1 ∷ 2 ∷ 3 ∷ []) 4).contexts ≡ 4)
    × (((ctr_transform toy_evp opened 30 (1 ∷ 2 ∷ 3 ∷ []) 4).status ≡ ok)
        ⊎ ((ctr_transform toy_evp opened 30 (1 ∷ 2 ∷ 3 ∷ []) 4).status ≡ io_error update_failed)
        ⊎ ((ctr_transform toy_evp opened 30 (1 ∷ 2 ∷ 3 ∷ []) 4).buffer ≡ 1 ∷ 2 ∷ 3 ∷ []))
ctr_transform_ways_out_example = ctr_transform_ways_out toy_evp opened 30 (1 ∷ 2 ∷ 3 ∷ []) 4

decrypt-encrypt_example :
    (let sealed : Outcome = encrypt toy_evp opened 30 (1 ∷ 2 ∷ 3 ∷ []) 0 in
      let opened_part : Outcome = decrypt toy_evp opened 31 (take 1 (drop 1 sealed.buffer)) 0 in
      (sealed.status ≡ ok)
      × (length sealed.buffer ≡ 3)
      × (opened_part.status ≡ ok)
      × (opened_part.buffer ≡ 2 ∷ []))
decrypt-encrypt_example =
    decrypt-encrypt toy_evp toy_block toy_mode toy_working opened 30 1 1 (1 ∷ 2 ∷ 3 ∷ [])
      IsReady-opened (omega arith) (omega arith)
