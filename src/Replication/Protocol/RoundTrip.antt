-- ===== src/Replication/Protocol/RoundTrip.antt =====
-- DirectMQProtocol: what one side frames, the other side parses.
use open_arango_dbcore.Prelude.{
  ℕ, suc, ◌+◌, ◌*◌, ◌/◌, ◌%◌, ◌≤◌, ◌<◌, ◌≡◌, ◌↔◌, refl, true, false, List, [], ◌∷◌, ◌++◌, none,
  some, arith, length, length-append, set, take, replicate, u32_mod, ap, ltb,
}
use mathlib.Core.List.{append_assoc}
use open_arango_dbcore.Replication.Protocol.{
  max_payload_size, write_be32, read_be32, copy_at, frame_message, parse_frame, build_ack,
  parse_ack, parsed_payload, parsed_status,
}

-- The header of a frame, most significant byte first.
abbrev pub be32 : ℕ → List ℕ
be32 n = (n / 16777216 % 256) ∷ (n / 65536 % 256) ∷ (n / 256 % 256) ∷ (n % 256) ∷ []

pub be32_value :
    (n : ℕ)
    → n < u32_mod
    → n / 16777216 % 256 * 16777216 + n / 65536 % 256 * 65536 + n / 256 % 256 * 256 + n % 256 ≡ n
be32_value n h = omega arith

set-append : (xs ys : List ℕ) (y v : ℕ) → set (xs ++ y ∷ ys) (length xs) v ≡ xs ++ v ∷ ys
set-append [] ys y v = refl
set-append (x ∷ xs) ys y v = ap (◌∷◌ x) (set-append xs ys y v)

-- A copy over the bytes behind a prefix puts the source there.
copy_at-append :
    (front source : List ℕ) (position : ℕ)
    → position ≡ length front
    → copy_at (front ++ replicate (length source) 0) position source ≡ front ++ source
unfolding copy_at
copy_at-append front [] position h = refl
copy_at-append front (b ∷ source) position h =
    rw (h, set-append front (replicate (length source) 0) 0 b)
      (rw
        (
          ← append_assoc front (b ∷ []) (replicate (length source) 0),
          ← append_assoc front (b ∷ []) source,
        )
        (copy_at-append (front ++ b ∷ []) source (length front + 1)
          (omega (arith, length-append front (b ∷ [])))))

four_add : (m : ℕ) → 4 + m ≡ suc (suc (suc (suc m)))
four_add m = omega arith

header-eq : (n m : ℕ) → write_be32 (replicate (4 + m) 0) 0 n ≡ be32 n ++ replicate m 0
unfolding write_be32
header-eq n m = rw (four_add m) refl

read_be32-header : (n : ℕ) (rest : List ℕ) → n < u32_mod → read_be32 (be32 n ++ rest) 0 ≡ n
unfolding read_be32
read_be32-header n rest h = be32_value n h

-- A frame is the length in four bytes, then the payload.
pub frame_message-eq :
    (payload : List ℕ)
    → length payload ≤ max_payload_size
    → frame_message payload ≡ some (be32 (length payload) ++ payload)
unfolding frame_message
frame_message-eq [] h = refl
frame_message-eq (b ∷ payload) h =
    let small : suc (length payload) % u32_mod ≡ suc (length payload) = omega arith in
    let within : ltb max_payload_size (suc (length payload)) ≡ false = ground arith in
    let filled : ltb 0 (suc (length payload)) ≡ true = ground arith in
    rw (within, small, header-eq (suc (length payload)) (suc (length payload)), filled)
      (ap some (copy_at-append (be32 (suc (length payload))) (b ∷ payload) 4 refl))

take-append : (xs ys : List ℕ) → take (length xs) (xs ++ ys) ≡ xs
take-append [] ys = refl
take-append (x ∷ xs) ys = ap (◌∷◌ x) (take-append xs ys)

-- A buffer that begins with a length and as many bytes parses to those bytes.
pub parse_frame-header :
    (payload rest : List ℕ)
    → length payload ≤ max_payload_size
    → parse_frame (be32 (length payload) ++ payload ++ rest) ≡ parsed_payload payload
unfolding parse_frame read_be32
parse_frame-header payload rest h =
    let n : ℕ = length payload in
    let header : ltb (suc (suc (suc (suc (length (payload ++ rest)))))) 4 ≡ false = ground arith in
    let within : ltb max_payload_size n ≡ false = ground arith in
    let sum : (4 + n) % u32_mod ≡ 4 + n = omega arith in
    let whole : ltb (suc (suc (suc (suc (length (payload ++ rest)))))) (4 + n) ≡ false =
      ground (arith, length-append payload rest) in
    rw (header, be32_value n (omega arith), within, sum, whole)
      (ap parsed_payload (take-append payload rest))

frame_message-some_bound :
    (payload : List ℕ) {frame : List ℕ}
    → frame_message payload ≡ some frame
    → length payload ≤ max_payload_size
unfolding frame_message
frame_message-some_bound payload h = ground arith

-- Framing fails exactly for the payloads above the limit.
pub frame_message-none_iff :
    (payload : List ℕ) → (frame_message payload ≡ none) ↔ (max_payload_size < length payload)
unfolding frame_message
frame_message-none_iff payload = (λ h. ground arith, λ h. ground arith)

-- A framed payload parses to itself, also when further bytes follow it in the buffer.
pub parse_frame-frame_message :
    (payload rest : List ℕ) {frame : List ℕ}
    → frame_message payload ≡ some frame
    → parse_frame (frame ++ rest) ≡ parsed_payload payload
parse_frame-frame_message payload rest {frame} h =
    let small = frame_message-some_bound payload h in
    let same : frame ≡ be32 (length payload) ++ payload = cc (frame_message-eq payload small) in
    rw (same, append_assoc (be32 (length payload)) payload rest)
      (parse_frame-header payload rest small)

-- An ACK parses to the status code that it was built from.
pub parse_ack-build_ack :
    (status_code : ℕ)
    → status_code < u32_mod
    → parse_ack (build_ack status_code) ≡ parsed_status status_code
unfolding parse_ack build_ack read_be32
parse_ack-build_ack status_code h = rw (be32_value status_code h)
