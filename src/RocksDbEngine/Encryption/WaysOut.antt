-- ===== src/RocksDbEngine/Encryption/WaysOut.antt =====
-- The ways out of a transformation (ctrTransform): what each leaves of the contexts and the buffer.
use open_arango_dbcore.Prelude.{
  ℕ, suc, ◌+◌, ◌-◌, ◌%◌, ◌≤◌, ◌<◌, ◌≡◌, refl, ap, ◌∙◌, Bool, true, false, some, [], ◌∷◌, length,
  replicate, Str, pos, to_int, ◌≢◌, ◌⊎◌, inl, inr, Bool-cases, Option-cases, ltb, ◌==◌,
  if◌then◌else◌, not, arith,
}
use open_arango_dbcore.RocksDbEngine.Encryption.{
  Evp, ok, io_error, Failure, init_failed, skip_failed, update_failed, Outcome, AesctrCipherStream,
  leave, skip_prefix, run_cipher, ctr_transform, counter_at,
}

pub to_int_small : (n : ℕ) → n % 4294967296 < 2147483648 → to_int n ≡ pos (n % 4294967296)
unfolding to_int
to_int_small n h = ground arith

run_cipher_balanced :
    (evp : Evp) (s : AesctrCipherStream) (file_offset : ℕ) (buffer : Str) (contexts : ℕ)
    (ctx : evp.Context)
    → (run_cipher evp s file_offset buffer contexts ctx).contexts ≡ contexts - 1
unfolding run_cipher leave
run_cipher_balanced evp s file_offset buffer contexts ctx = ground arith

-- However a transformation ends, the number of live EVP contexts is what it was.
pub ctr_transform_balanced :
    (evp : Evp) (s : AesctrCipherStream) (file_offset : ℕ) (buffer : Str) (contexts : ℕ)
    → (ctr_transform evp s file_offset buffer contexts).contexts ≡ contexts
unfolding ctr_transform
ctr_transform_balanced evp s file_offset buffer contexts = elim (Bool-cases (length buffer == 0)) [
  | inl e ↦ rw (e, ctr_transform) (refl)
  | inr n ↦ elim (Option-cases evp.context_new) [
    | inl refused ↦ rw (n, refused, ctr_transform) (refl)
    | inr (ctx, made) ↦
        rw (n, made, ctr_transform)
          (run_cipher_balanced evp s file_offset buffer (contexts + 1) ctx ∙ omega arith)
  ]
]

-- The ways out, by what the three calls returned.
abbrev pub way_out : Bool → Bool → Bool → Str → Str → ℕ → Outcome
way_out a b c buffer written contexts =
    if not a
    then leave (io_error init_failed) buffer contexts
    else if not b
    then leave (io_error skip_failed) buffer contexts
    else if not c
    then leave (io_error update_failed) written contexts
    else leave ok written contexts

pub way_out_ok :
    (a b c : Bool) (buffer written : Str) (contexts : ℕ)
    → (way_out a b c buffer written contexts).status ≡ ok
    → (a ≡ true)
      × (b ≡ true)
      × (c ≡ true)
      × ((way_out a b c buffer written contexts).buffer ≡ written)
unfolding leave
way_out_ok true true true buffer written contexts h = (refl, refl, refl, refl)
way_out_ok true true false buffer written contexts h = cc
way_out_ok true false c buffer written contexts h = cc
way_out_ok false b c buffer written contexts h = cc

pub suc-ne-zero : (n : ℕ) → (suc n == 0) ≡ false
suc-ne-zero n = ground arith

pub failed_ne_ok : {f : Failure} → io_error f ≢ ok
failed_ne_ok h = cc

-- Unless the data's own update was made, the buffer is the caller's.
pub way_out_keeps :
    (a b c : Bool) (buffer written : Str) (contexts : ℕ)
    → ((way_out a b c buffer written contexts).status ≡ ok)
      ⊎ ((way_out a b c buffer written contexts).status ≡ io_error update_failed)
      ⊎ ((way_out a b c buffer written contexts).buffer ≡ buffer)
unfolding leave
way_out_keeps true true true buffer written contexts = inl refl
way_out_keeps true true false buffer written contexts = inr (inl refl)
way_out_keeps true false c buffer written contexts = inr (inr refl)
way_out_keeps false b c buffer written contexts = inr (inr refl)

run_cipher_keeps :
    (evp : Evp) (s : AesctrCipherStream) (file_offset : ℕ) (buffer : Str) (contexts : ℕ)
    (ctx : evp.Context)
    → ((run_cipher evp s file_offset buffer contexts ctx).status ≡ ok)
      ⊎ ((run_cipher evp s file_offset buffer contexts ctx).status ≡ io_error update_failed)
      ⊎ ((run_cipher evp s file_offset buffer contexts ctx).buffer ≡ buffer)
unfolding run_cipher
run_cipher_keeps evp s file_offset buffer contexts ctx =
    let (rc1, ctx1) = evp.encrypt_init ctx s.key (counter_at s file_offset) in
    let (rc2, ctx2) = skip_prefix evp ctx1 (file_offset % 16) in
    let (rc3, written, _) = evp.encrypt_update ctx2 buffer (to_int (length buffer)) in
    way_out_keeps rc1 rc2 rc3 buffer written contexts

-- Whatever EVP's calls return, a transformation frees the EVP contexts that it makes, and it leaves
-- the caller's buffer as it was, except where it returns OK or the update of the data itself failed.
pub ctr_transform_ways_out :
    (evp : Evp) (s : AesctrCipherStream) (file_offset : ℕ) (buffer : Str) (contexts : ℕ)
    → ((ctr_transform evp s file_offset buffer contexts).contexts ≡ contexts)
      × (((ctr_transform evp s file_offset buffer contexts).status ≡ ok)
          ⊎ ((ctr_transform evp s file_offset buffer contexts).status ≡ io_error update_failed)
          ⊎ ((ctr_transform evp s file_offset buffer contexts).buffer ≡ buffer))
unfolding ctr_transform
ctr_transform_ways_out evp s file_offset buffer contexts = (
  ctr_transform_balanced evp s file_offset buffer contexts,
  elim (Bool-cases (length buffer == 0)) [
    | inl e ↦ rw (e, ctr_transform) (inl refl)
    | inr n ↦ elim (Option-cases evp.context_new) [
      | inl refused ↦ rw (n, refused, ctr_transform) (inr (inr refl))
      | inr (ctx, made) ↦
          rw (n, made, ctr_transform) (run_cipher_keeps evp s file_offset buffer (contexts + 1) ctx)
    ]
  ],
)

-- EVP's calls succeed.
pub record IsWorking (evp : Evp) : Type 0 where
  pub made : (ctx : evp.Context) × (evp.context_new ≡ some ctx)
  pub starts : (ctx : evp.Context) (key counter : Str) → (evp.encrypt_init ctx key counter).0 ≡ true
  pub updates :
      (ctx : evp.Context) (buffer : Str) (n : ℕ)
      → n ≤ length buffer
      → (evp.encrypt_update ctx buffer (pos n)).0 ≡ true

way_out_all :
    (a b c : Bool) (buffer written : Str) (contexts : ℕ)
    → a ≡ true
    → b ≡ true
    → c ≡ true
    → (way_out a b c buffer written contexts).status ≡ ok
unfolding leave
way_out_all a b c buffer written contexts p q r = rw (p, q, r) (refl)

skip_prefix_works :
    (evp : Evp)
    → IsWorking evp
    → (ctx : evp.Context) (k : ℕ) → k < 16
    → (skip_prefix evp ctx k).0 ≡ true
unfolding skip_prefix
skip_prefix_works evp works ctx k h =
    let length_k : to_int k ≡ pos k = to_int_small k (omega arith) ∙ ap pos (omega arith) in
    elim (Bool-cases (ltb 0 k)) [
      | inl e ↦ rw (e, length_k, skip_prefix) (works.updates ctx (replicate 16 0) k (omega arith))
      | inr n ↦ rw (n, skip_prefix) (refl)
    ]

-- Where they do, a buffer below 2 GB is transformed.
pub ctr_transform_works :
    (evp : Evp) (s : AesctrCipherStream) (file_offset : ℕ) (buffer : Str) (contexts : ℕ)
    → IsWorking evp
    → length buffer < 2147483648
    → (ctr_transform evp s file_offset buffer contexts).status ≡ ok
unfolding ctr_transform run_cipher
ctr_transform_works evp s file_offset [] contexts works fits = refl
ctr_transform_works evp s file_offset (b ∷ bs) contexts works fits =
    let (ctx, made) = works.made in
    let ctx1 : evp.Context = (evp.encrypt_init ctx s.key (counter_at s file_offset)).1 in
    let ctx2 : evp.Context = (skip_prefix evp ctx1 (file_offset % 16)).1 in
    let n : to_int (length (b ∷ bs)) ≡ pos (length (b ∷ bs)) =
      to_int_small (length (b ∷ bs)) (omega arith) ∙ ap pos (omega arith) in
    rw (suc-ne-zero (length bs), made, ctr_transform)
      (way_out_all (evp.encrypt_init ctx s.key (counter_at s file_offset)).0
        (skip_prefix evp ctx1 (file_offset % 16)).0
        (evp.encrypt_update ctx2 (b ∷ bs) (to_int (length (b ∷ bs)))).0 (b ∷ bs)
        (evp.encrypt_update ctx2 (b ∷ bs) (to_int (length (b ∷ bs)))).1 (contexts + 1)
        (works.starts ctx s.key (counter_at s file_offset))
        (skip_prefix_works evp works ctx1 (file_offset % 16) (omega arith))
        (rw n (works.updates ctx2 (b ∷ bs) (length (b ∷ bs)) (omega arith))))
