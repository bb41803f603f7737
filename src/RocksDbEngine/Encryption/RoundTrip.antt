-- ===== src/RocksDbEngine/Encryption/RoundTrip.antt =====
-- Encrypting and decrypting, and the streams that a provider opens (EncryptionProvider).
use open_arango_dbcore.Prelude.{
  ℕ, zero, suc, [], ◌∷◌, get_or, ◌+◌, ◌≤◌, ◌<◌, ◌≡◌, ap, ◌∙◌, Option, some, length, take, drop, Str,
  u64_mod, arith, length-take, length-drop,
}
use open_arango_dbcore.RocksDbEngine.Encryption.{
  Evp, ok, Outcome, AesctrCipherStream, make_stream, create_cipher_stream, encrypt, decrypt,
}
use open_arango_dbcore.RocksDbEngine.Encryption.Counter.{IsBytes, IsReady}
use open_arango_dbcore.RocksDbEngine.Encryption.Stream.{
  IsCounterMode, xor_stream, length-xor_stream, xor_stream_twice, drop-xor_stream, take-xor_stream,
}
use open_arango_dbcore.RocksDbEngine.Encryption.WaysOut.{IsWorking, ctr_transform_works}
use open_arango_dbcore.RocksDbEngine.Encryption.Transform.{file_stream, ctr_transform_whole}

xor_stream_range :
    (f : ℕ → ℕ) (p k n : ℕ) (bs : Str)
    → xor_stream f (p + k) (take n (drop k (xor_stream f p bs))) ≡ take n (drop k bs)
xor_stream_range f p k n bs =
    ap (λ (t : Str). xor_stream f (p + k) (take n t)) (drop-xor_stream f k p bs)
    ∙ ap (xor_stream f (p + k)) (take-xor_stream f n (p + k) (drop k bs))
    ∙ xor_stream_twice f (p + k) (take n (drop k bs))

-- Any range of what was encrypted decrypts to the same range of the plain bytes: for a stream with a
-- 16-byte counter, fewer than 2^31 bytes, offsets within 64 bits, an EVP whose calls succeed and
-- follow the documentation of counter mode, both calls return OK, the encrypted bytes are as many
-- as the plain ones, and the range that starts k bytes later, decrypted on its own at its offset,
-- is the plain range.
pub decrypt-encrypt :
    (evp : Evp) (aes : Str → ℕ → Str) (mode : IsCounterMode evp aes) (works : IsWorking evp)
    (s : AesctrCipherStream) (file_offset k n : ℕ) (plain : Str)
    → IsReady s
    → file_offset + k < u64_mod
    → length plain < 2147483648
    → (let sealed : Outcome = encrypt evp s file_offset plain 0 in
        let opened : Outcome = decrypt evp s (file_offset + k) (take n (drop k sealed.buffer)) 0 in
        (sealed.status ≡ ok)
        × (length sealed.buffer ≡ length plain)
        × (opened.status ≡ ok)
        × (opened.buffer ≡ take n (drop k plain)))
unfolding encrypt decrypt
decrypt-encrypt evp aes mode works s file_offset k n plain ready small fits =
    let sealed_ok : (encrypt evp s file_offset plain 0).status ≡ ok =
      ctr_transform_works evp s file_offset plain 0 works fits in
    let sealed : (encrypt evp s file_offset plain 0).buffer
        ≡ xor_stream (file_stream aes s) file_offset plain =
      ctr_transform_whole evp aes mode s file_offset plain 0 ready (omega arith) fits sealed_ok in
    let part : Str = take n (drop k (encrypt evp s file_offset plain 0).buffer) in
    let same : length (encrypt evp s file_offset plain 0).buffer ≡ length plain =
      ap length sealed ∙ length-xor_stream (file_stream aes s) file_offset plain in
    let short : length part < 2147483648 = omega (
      arith,
      length-take n (drop k (encrypt evp s file_offset plain 0).buffer),
      length-drop k (encrypt evp s file_offset plain 0).buffer,
      same,
    ) in
    let opened_ok : (decrypt evp s (file_offset + k) part 0).status ≡ ok =
      ctr_transform_works evp s (file_offset + k) part 0 works short in
    (
      sealed_ok,
      same,
      opened_ok,
      ctr_transform_whole evp aes mode s (file_offset + k) part 0 ready small short opened_ok
          ∙ ap (λ (bs : Str). xor_stream (file_stream aes s) (file_offset + k) (take n (drop k bs)))
              sealed
          ∙ xor_stream_range (file_stream aes s) file_offset k n plain,
    )

-- From a 32-byte key and a prefix of at least 16 bytes, the provider opens a stream over its first
-- 16, whatever was in its result before, and a shorter prefix leaves the result as it was.
pub create_cipher_stream_lem :
    (key file_prefix : Str) (result : Option AesctrCipherStream)
    → length key ≡ 32
    → 16 ≤ length file_prefix
    → create_cipher_stream key file_prefix result
      ≡ some (ok, some (record { key = key; iv = take 16 file_prefix }))
unfolding create_cipher_stream make_stream
create_cipher_stream_lem key file_prefix result k h = ground (arith, length-take 16 file_prefix)

take-IsBytes : (n j : ℕ) (s : Str) → get_or s j 0 < 256 → get_or (take n s) j 0 < 256
take-IsBytes zero j s h = omega arith
take-IsBytes (suc n) j [] h = h
take-IsBytes (suc n) zero (x ∷ s) h = h
take-IsBytes (suc n) (suc j) (x ∷ s) h = take-IsBytes n j s h

-- Such a stream is ready for the laws above.
pub opened-IsReady :
    (key file_prefix : Str)
    → 16 ≤ length file_prefix
    → IsBytes file_prefix
    → IsReady (record { key = key; iv = take 16 file_prefix })
opened-IsReady key file_prefix h bytes = record {
  block = omega (arith, length-take 16 file_prefix);
  bytes = λ j. take-IsBytes 16 j file_prefix (bytes j);
}
