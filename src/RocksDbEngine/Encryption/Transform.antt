-- ===== src/RocksDbEngine/Encryption/Transform.antt =====
-- What Encrypt and Decrypt do to a buffer (ctrTransform), on every way out.
use open_arango_dbcore.Prelude.{
  ℕ, ◌+◌, ◌*◌, ◌/◌, ◌%◌, ◌<◌, ◌≡◌, refl, ap, subst, ◌∙◌, true, false, [], ◌∷◌, ◌++◌, length, take,
  drop, replicate, Str, pos, to_int, u64_mod, inl, inr, Bool-cases, Option-cases, ltb, ◌==◌, arith,
  take_all, drop_all, append_nil,
}
use open_arango_dbcore.RocksDbEngine.Encryption.{
  Evp, ok, AesctrCipherStream, skip_prefix, run_cipher, ctr_transform, counter_at,
}
use open_arango_dbcore.RocksDbEngine.Encryption.Counter.{
  value_upto, IsReady, counter_at_value, counter_mod,
}
use open_arango_dbcore.RocksDbEngine.Encryption.WaysOut.{
  to_int_small, way_out_ok, suc-ne-zero, failed_ne_ok,
}
use open_arango_dbcore.RocksDbEngine.Encryption.Stream.{
  IsCounterMode, xor_stream, stream_byte, stream_byte_shift, xor_stream-agree,
}

-- Byte j of a file is joined with byte j of this stream.
unfoldable pub file_stream : (Str → ℕ → Str) → AesctrCipherStream → ℕ → ℕ
file_stream aes s j = stream_byte aes s.key (value_upto 16 s.iv * 16 + j)

module _ (evp : Evp) (aes : Str → ℕ → Str) (mode : IsCounterMode evp aes) where
  open mode use {Streams, init_law, write_law, advance_law}

  skip_prefix_advances :
      (ctx : evp.Context) (key : Str) (p k : ℕ)
      → Streams ctx key p
      → k < 16
      → (skip_prefix evp ctx k).0 ≡ true
      → Streams (skip_prefix evp ctx k).1 key (p + k)
  unfolding skip_prefix
  skip_prefix_advances ctx key p k at h done =
      let length_k : to_int k ≡ pos k = to_int_small k (omega arith) ∙ ap pos (omega arith) in
      elim (Bool-cases (ltb 0 k)) [
        | inl e ↦
            rw (e, length_k, skip_prefix)
              (advance_law ctx key (replicate 16 0) p k at (omega arith)
                (rw (e, length_k, skip_prefix) at done))
        | inr n ↦
            let start : k ≡ 0 = ground arith in
            rw (n, skip_prefix) (subst (λ q. Streams ctx key q) (omega arith) at)
      ]

  -- The contexts behind the start and behind the advance into the block.
  abbrev started : AesctrCipherStream → ℕ → evp.Context → evp.Context
  started s file_offset ctx = (evp.encrypt_init ctx s.key (counter_at s file_offset)).1

  abbrev advanced : AesctrCipherStream → ℕ → evp.Context → evp.Context
  advanced s file_offset ctx = (skip_prefix evp (started s file_offset ctx) (file_offset % 16)).1

  run_cipher_parts :
      (s : AesctrCipherStream) (file_offset : ℕ) (buffer : Str) (contexts : ℕ) (ctx : evp.Context)
      → (run_cipher evp s file_offset buffer contexts ctx).status ≡ ok
      → ((evp.encrypt_init ctx s.key (counter_at s file_offset)).0 ≡ true)
        × ((skip_prefix evp (started s file_offset ctx) (file_offset % 16)).0 ≡ true)
        × ((evp.encrypt_update (advanced s file_offset ctx) buffer (to_int (length buffer))).0
            ≡ true)
        × ((run_cipher evp s file_offset buffer contexts ctx).buffer
            ≡ (evp.encrypt_update (advanced s file_offset ctx) buffer (to_int (length buffer))).1)
  unfolding run_cipher
  run_cipher_parts s file_offset buffer contexts ctx done =
      way_out_ok (evp.encrypt_init ctx s.key (counter_at s file_offset)).0
        (skip_prefix evp (started s file_offset ctx) (file_offset % 16)).0
        (evp.encrypt_update (advanced s file_offset ctx) buffer (to_int (length buffer))).0 buffer
        (evp.encrypt_update (advanced s file_offset ctx) buffer (to_int (length buffer))).1 contexts
        done

  run_cipher_ok :
      (s : AesctrCipherStream) (file_offset : ℕ) (buffer : Str) (contexts : ℕ) (ctx : evp.Context)
      → IsReady s
      → file_offset < u64_mod
      → length buffer % 4294967296 < 2147483648
      → (run_cipher evp s file_offset buffer contexts ctx).status ≡ ok
      → (run_cipher evp s file_offset buffer contexts ctx).buffer
        ≡ xor_stream (file_stream aes s) file_offset (take (length buffer % 4294967296) buffer)
          ++ drop (length buffer % 4294967296) buffer
  unfolding file_stream
  run_cipher_ok s file_offset buffer contexts ctx ready small fits done =
      let (init_done, skip_done, update_done, result) =
        run_cipher_parts s file_offset buffer contexts ctx done in
      let n : ℕ = length buffer % 4294967296 in
      let length_n : to_int (length buffer) ≡ pos n = to_int_small (length buffer) fits in
      let counter : ℕ = (value_upto 16 s.iv + file_offset / 16) % counter_mod in
      let at_start : Streams (started s file_offset ctx) s.key (counter * 16) =
        subst (λ (c : ℕ). Streams (started s file_offset ctx) s.key (c * 16))
          (counter_at_value s file_offset ready small)
          (init_law ctx s.key (counter_at s file_offset) init_done) in
      let at_offset : Streams (advanced s file_offset ctx) s.key (counter * 16 + file_offset % 16) =
        skip_prefix_advances (started s file_offset ctx) s.key (counter * 16) (file_offset % 16)
          at_start (omega arith) skip_done in
      result
      ∙ ap (λ k. (evp.encrypt_update (advanced s file_offset ctx) buffer k).1) length_n
      ∙ write_law (advanced s file_offset ctx) s.key buffer (counter * 16 + file_offset % 16) n
          at_offset (omega arith)
          (subst (λ k. (evp.encrypt_update (advanced s file_offset ctx) buffer k).0 ≡ true) length_n
            update_done)
      ∙ ap (λ (bs : Str). bs ++ drop n buffer)
          (xor_stream-agree (stream_byte aes s.key) (file_stream aes s)
            (counter * 16 + file_offset % 16) file_offset (take n buffer)
            (λ j.
              stream_byte_shift aes s.key (value_upto 16 s.iv) file_offset j
              ∙ ap (stream_byte aes s.key) (omega arith)))

  -- A transformation that returns OK has joined the first n bytes of the buffer with the file's
  -- stream from the offset on, and left the rest, where n is the buffer's length as an `int`, for
  -- every length whose `int` is not negative.
  pub ctr_transform_writes :
      (s : AesctrCipherStream) (file_offset : ℕ) (buffer : Str) (contexts : ℕ)
      → IsReady s
      → file_offset < u64_mod
      → length buffer % 4294967296 < 2147483648
      → (ctr_transform evp s file_offset buffer contexts).status ≡ ok
      → (ctr_transform evp s file_offset buffer contexts).buffer
        ≡ xor_stream (file_stream aes s) file_offset (take (length buffer % 4294967296) buffer)
          ++ drop (length buffer % 4294967296) buffer
  unfolding ctr_transform xor_stream
  ctr_transform_writes s file_offset [] contexts ready small fits done = refl
  ctr_transform_writes s file_offset (b ∷ bs) contexts ready small fits done =
      let some_left : (length (b ∷ bs) == 0) ≡ false = suc-ne-zero (length bs) in
      elim (Option-cases evp.context_new) [
        | inl refused ↦ absurd (failed_ne_ok (rw (some_left, refused, ctr_transform) at done))
        | inr (ctx, made) ↦
            rw (some_left, made, ctr_transform)
              (run_cipher_ok s file_offset (b ∷ bs) (contexts + 1) ctx ready small fits
                (rw (some_left, made, ctr_transform) at done))
      ]

-- A buffer below 2 GB is joined with the stream whole.
pub ctr_transform_whole :
    (evp : Evp) (aes : Str → ℕ → Str) (mode : IsCounterMode evp aes) (s : AesctrCipherStream)
    (file_offset : ℕ) (buffer : Str) (contexts : ℕ)
    → IsReady s
    → file_offset < u64_mod
    → length buffer < 2147483648
    → (ctr_transform evp s file_offset buffer contexts).status ≡ ok
    → (ctr_transform evp s file_offset buffer contexts).buffer
      ≡ xor_stream (file_stream aes s) file_offset buffer
ctr_transform_whole evp aes mode s file_offset buffer contexts ready small fits done =
    let n : length buffer % 4294967296 ≡ length buffer = omega arith in
    ctr_transform_writes evp aes mode s file_offset buffer contexts ready small (omega arith) done
    ∙ rw n (
        ap
          (λ (bs : Str).
            xor_stream (file_stream aes s) file_offset bs ++ drop (length buffer) buffer)
          (take_all (length buffer) buffer (omega arith))
        ∙ ap (λ (bs : Str). xor_stream (file_stream aes s) file_offset buffer ++ bs)
            (drop_all (length buffer) buffer (omega arith))
        ∙ append_nil (xor_stream (file_stream aes s) file_offset buffer))
