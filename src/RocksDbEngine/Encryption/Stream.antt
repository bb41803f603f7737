-- ===== src/RocksDbEngine/Encryption/Stream.antt =====
-- What the cipher's user relies on: OpenSSL's documentation of AES in counter mode, over the block
-- function as a parameter, and what follows for a buffer joined with the key stream.
use open_arango_dbcore.Prelude.{
  ℕ, zero, suc, ◌+◌, ◌*◌, ◌/◌, ◌%◌, ◌≤◌, ◌≡◌, refl, ap, ◌∙◌, true, [], ◌∷◌, ◌++◌, length, get_or,
  take, drop, Str, pos, bit_xor, bit_xor-bit_xor_self, arith,
}
use open_arango_dbcore.RocksDbEngine.Encryption.{Evp}
use open_arango_dbcore.RocksDbEngine.Encryption.Counter.{value_upto, counter_mod}

-- The bytes joined with a key stream, from a position of it on.
unfoldable pub xor_stream : (ℕ → ℕ) → ℕ → Str → Str
xor_stream stream p [] = []
xor_stream stream p (b ∷ bs) = bit_xor b (stream p) ∷ xor_stream stream (p + 1) bs

-- Byte p of the key stream of a block function (of the key and the counter's number): the counter
-- goes up by one with each block and wraps at 2^128.
unfoldable pub stream_byte : (Str → ℕ → Str) → Str → ℕ → ℕ
stream_byte aes key p = get_or (aes key ((p / 16) % counter_mod)) (p % 16) 0

-- EVP_EncryptInit_ex puts the context at the start of the counter's block; an update of n bytes
-- joins them with the key stream in place, leaves the rest of the buffer and advances by n.
pub record IsCounterMode (evp : Evp) (aes : Str → ℕ → Str) : Type 1 where
  pub Streams : evp.Context → Str → ℕ → Type 0
  pub init_law :
      (ctx : evp.Context) (key counter : Str)
      → (evp.encrypt_init ctx key counter).0 ≡ true
      → Streams (evp.encrypt_init ctx key counter).1 key (value_upto 16 counter * 16)
  pub write_law :
      (ctx : evp.Context) (key buffer : Str) (p n : ℕ)
      → Streams ctx key p
      → n ≤ length buffer
      → (evp.encrypt_update ctx buffer (pos n)).0 ≡ true
      → (evp.encrypt_update ctx buffer (pos n)).1
        ≡ xor_stream (stream_byte aes key) p (take n buffer) ++ drop n buffer
  pub advance_law :
      (ctx : evp.Context) (key buffer : Str) (p n : ℕ)
      → Streams ctx key p
      → n ≤ length buffer
      → (evp.encrypt_update ctx buffer (pos n)).0 ≡ true
      → Streams (evp.encrypt_update ctx buffer (pos n)).2 key (p + n)

module _ (stream : ℕ → ℕ) where
  pub length-xor_stream : (p : ℕ) (bs : Str) → length (xor_stream stream p bs) ≡ length bs
  unfolding xor_stream
  length-xor_stream p [] = refl
  length-xor_stream p (b ∷ bs) = ap suc (length-xor_stream (p + 1) bs)

  -- Joining twice gives the bytes back.
  pub xor_stream_twice : (p : ℕ) (bs : Str) → xor_stream stream p (xor_stream stream p bs) ≡ bs
  unfolding xor_stream
  xor_stream_twice p [] = refl
  xor_stream_twice p (b ∷ bs) = rw (bit_xor-bit_xor_self b (stream p), xor_stream_twice (p + 1) bs)

  pub drop-xor_stream :
      (k p : ℕ) (bs : Str) → drop k (xor_stream stream p bs) ≡ xor_stream stream (p + k) (drop k bs)
  unfolding xor_stream
  drop-xor_stream zero p bs = ap (λ (q : ℕ). xor_stream stream q bs) (omega arith)
  drop-xor_stream (suc k) p [] = refl
  drop-xor_stream (suc k) p (b ∷ bs) =
      drop-xor_stream k (p + 1) bs ∙ ap (λ (q : ℕ). xor_stream stream q (drop k bs)) (omega arith)

  pub take-xor_stream :
      (k p : ℕ) (bs : Str) → take k (xor_stream stream p bs) ≡ xor_stream stream p (take k bs)
  unfolding xor_stream
  take-xor_stream zero p bs = refl
  take-xor_stream (suc k) p [] = refl
  take-xor_stream (suc k) p (b ∷ bs) =
      ap (◌∷◌ (bit_xor b (stream p))) (take-xor_stream k (p + 1) bs)

-- Two key streams that agree from a position on give the same bytes.
pub xor_stream-agree :
    (f g : ℕ → ℕ) (p q : ℕ) (bs : Str)
    → ((j : ℕ) → f (p + j) ≡ g (q + j))
    → xor_stream f p bs ≡ xor_stream g q bs
unfolding xor_stream
xor_stream-agree f g p q [] h = refl
xor_stream-agree f g p q (b ∷ bs) h =
    let first : f p ≡ g q = ap f (omega arith) ∙ h 0 ∙ ap g (omega arith) in
    let later : (j : ℕ) → f (p + 1 + j) ≡ g (q + 1 + j) =
      λ j. ap f (omega arith) ∙ h (1 + j) ∙ ap g (omega arith) in
    rw (first, xor_stream-agree f g (p + 1) (q + 1) bs later)

-- The key stream from a file offset's counter is that of the whole file, further on.
pub stream_byte_shift :
    (aes : Str → ℕ → Str) (key : Str) (initial offset j : ℕ)
    → stream_byte aes key ((initial + offset / 16) % counter_mod * 16 + offset % 16 + j)
      ≡ stream_byte aes key (initial * 16 + offset + j)
unfolding stream_byte
stream_byte_shift aes key initial offset j =
    let low : ((initial + offset / 16) % counter_mod * 16 + offset % 16 + j) % 16
        ≡ (initial * 16 + offset + j) % 16 =
      omega arith in
    let high : ((initial + offset / 16) % counter_mod * 16 + offset % 16 + j) / 16 % counter_mod
        ≡ (initial * 16 + offset + j) / 16 % counter_mod =
      omega arith in
    rw (low, high)
