-- ===== src/RocksDbEngine/Encryption.antt =====
-- Encryption at rest (Enterprise/RocksDBEngine/EncryptionProvider.h and .cpp): AES-256 in counter
-- mode over a file's bytes. OpenSSL's EVP calls and RAND_bytes are parameters; the child `Stream`
-- says what EVP documents of the mode.
pub mod Stream
pub mod Counter
pub mod WaysOut
pub mod Transform
pub mod RoundTrip
mod Examples
use open_arango_dbcore.Prelude.{
  ℕ, zero, suc, ◌+◌, ◌-◌, ◌/◌, ◌%◌, Bool, true, false, not, Option, none, some, [], length, get_or,
  set, take, replicate, map, Str, u64_mod, ℤ, pos, to_int, ltb, ◌==◌, if◌then◌else◌,
}

abbrev pub block_size : ℕ
block_size = 16

-- The message of an `IOError`.
pub data Failure : Type 0 where
  context_failed init_failed skip_failed update_failed rand_bytes_failed : Failure

pub data Status : Type 0 where
  ok : Status
  io_error : Failure → Status
  prefix_too_short : Status

-- class AESCTRCipherStream: its key and its initial counter.
pub record AesctrCipherStream : Type 0 where
  pub key : Str
  pub iv : Str

-- The constructor; `none` is std::invalid_argument.
unfoldable pub make_stream : Str → Str → Option AesctrCipherStream
make_stream key iv =
    if not (length key == 32)
    then none
    else if not (length iv == block_size)
    then none
    else some (record { key = key; iv = iv })

-- The destructor overwrites the key's bytes.
unfoldable pub destroy_stream : AesctrCipherStream → AesctrCipherStream
destroy_stream s = record s { key = map (λ _. 0) s.key }

-- for (i = kBlockSize - 1; i >= 0 && carry > 0; --i): the first argument is i + 1.
unfoldable pub add_carry : ℕ → Str → ℕ → Str
add_carry zero counter carry = counter
add_carry (suc i) counter carry =
    let sum = (get_or counter i 0 + carry % 256) % u64_mod in
    let rest = add_carry i (set counter i (sum % 256)) ((carry / 256 + sum / 256) % u64_mod) in
    if carry == 0 then counter else rest

-- The counter at a file offset.
unfoldable pub counter_at : AesctrCipherStream → ℕ → Str
unfolding add_carry
counter_at s file_offset = add_carry block_size s.iv (file_offset / block_size)

-- The EVP calls that the code makes. A call gives whether it returned 1, with what it wrote: the
-- context, and for an update the buffer. The length of an update is an `int`.
pub record Evp : Type 1 where
  pub Context : Type 0
  pub context_new : Option Context
  pub encrypt_init : Context → Str → Str → Bool × Context
  pub encrypt_update : Context → Str → ℤ → Bool × Str × Context

-- What a call leaves: its status, the caller's buffer and the number of live EVP contexts.
pub record Outcome : Type 0 where
  pub status : Status
  pub buffer : Str
  pub contexts : ℕ

-- EVP_CIPHER_CTX_free and return.
unfoldable pub leave : Status → Str → ℕ → Outcome
leave status buffer contexts = record { status = status; buffer = buffer; contexts = contexts - 1 }

module _ (evp : Evp) where
  open evp use {Context, context_new, encrypt_init, encrypt_update}

  -- The update that advances into a block, over a scratch block; none is made at a block's start.
  unfoldable pub skip_prefix : Context → ℕ → Bool × Context
  skip_prefix ctx block_offset =
      let (rc, _, ctx') = encrypt_update ctx (replicate block_size 0) (to_int block_offset) in
      if ltb 0 block_offset then (rc, ctx') else (true, ctx)

  -- From EVP_EncryptInit_ex on, with one context more; every way out frees it.
  unfoldable pub run_cipher : AesctrCipherStream → ℕ → Str → ℕ → Context → Outcome
  unfolding skip_prefix counter_at
  run_cipher s file_offset buffer contexts ctx =
      let (started, ctx1) = encrypt_init ctx s.key (counter_at s file_offset) in
      let (skipped, ctx2) = skip_prefix ctx1 (file_offset % block_size) in
      let (updated, written, _) = encrypt_update ctx2 buffer (to_int (length buffer)) in
      if not started
      then leave (io_error init_failed) buffer contexts
      else if not skipped
      then leave (io_error skip_failed) buffer contexts
      else if not updated
      then leave (io_error update_failed) written contexts
      else leave ok written contexts

  unfoldable pub ctr_transform : AesctrCipherStream → ℕ → Str → ℕ → Outcome
  unfolding run_cipher
  ctr_transform s file_offset buffer contexts =
      if length buffer == 0
      then record { status = ok; buffer = buffer; contexts = contexts }
      else elim context_new [
        | none ↦ record { status = io_error context_failed; buffer = buffer; contexts = contexts }
        | some ctx ↦ run_cipher s file_offset buffer (contexts + 1) ctx
      ]

  -- Encrypt and Decrypt are the same operation.
  unfoldable pub encrypt : AesctrCipherStream → ℕ → Str → ℕ → Outcome
  unfolding ctr_transform
  encrypt s file_offset buffer contexts = ctr_transform s file_offset buffer contexts

  unfoldable pub decrypt : AesctrCipherStream → ℕ → Str → ℕ → Outcome
  unfolding ctr_transform
  decrypt s file_offset buffer contexts = ctr_transform s file_offset buffer contexts

-- class EncryptionProvider: its key. `none` is std::invalid_argument.
unfoldable pub make_provider : Str → Option Str
make_provider key = if not (length key == 32) then none else some key

-- RAND_bytes is given a count of bytes, an `int`, and gives whether it returned 1, with the bytes.
unfoldable pub create_new_prefix : (ℤ → Bool × Str) → Str → Status × Str
create_new_prefix rand_bytes before =
    let (rc, filled) = rand_bytes (to_int (length before)) in
    if ltb (length before) 16
    then (prefix_too_short, before)
    else if not rc
    then (io_error rand_bytes_failed, filled)
    else (ok, filled)

-- std::make_unique of the stream throws where its constructor does: the outer `none`.
unfoldable pub create_cipher_stream :
    Str → Str → Option AesctrCipherStream → Option (Status × Option AesctrCipherStream)
unfolding make_stream
create_cipher_stream key file_prefix result =
    if ltb (length file_prefix) 16
    then some (prefix_too_short, result)
    else elim (make_stream key (take 16 file_prefix)) [ none ↦ none | some s ↦ some (ok, some s) ]
