-- ===== src/Replication/Protocol/Rejects.antt =====
-- DirectMQProtocol: a buffer that parses is a frame, so a damaged or cut frame is refused.
use open_arango_dbcore.Prelude.{
  ℕ, ◌+◌, ◌*◌, ◌/◌, ◌%◌, ◌≤◌, ◌<◌, ◌≡◌, refl, List, [], ◌∷◌, ◌++◌, arith, length, length-take,
  take-append-drop, take, drop, ap, ◌∙◌, sym,
}
use open_arango_dbcore.Replication.Protocol.{
  max_payload_size, parse_frame, read_be32, parsed_payload, parsed_status, parse_ack,
}
use open_arango_dbcore.Replication.Protocol.RoundTrip.{be32}

-- Each element is a byte.
abbrev pub IsBytes : List ℕ → Type 0
IsBytes [] = Unit {0}
IsBytes (b ∷ bs) = (b < 256) × IsBytes bs

be32-digits :
    (a b c d n : ℕ)
    → a < 256
    → b < 256
    → c < 256
    → d < 256
    → n ≡ a * 16777216 + b * 65536 + c * 256 + d
    → be32 n ≡ a ∷ b ∷ c ∷ d ∷ []
be32-digits a b c d n ha hb hc hd h =
    let e1 : n / 16777216 % 256 ≡ a = omega arith in
    let e2 : n / 65536 % 256 ≡ b = omega arith in
    let e3 : n / 256 % 256 ≡ c = omega arith in let e4 : n % 256 ≡ d = omega arith in cc

parse_frame-inversion :
    (a b c d : ℕ) (rest payload : List ℕ)
    → parse_frame (a ∷ b ∷ c ∷ d ∷ rest) ≡ parsed_payload payload
    → (read_be32 (a ∷ b ∷ c ∷ d ∷ rest) 0 ≤ max_payload_size)
      × (read_be32 (a ∷ b ∷ c ∷ d ∷ rest) 0 ≤ length rest)
      × (payload ≡ take (read_be32 (a ∷ b ∷ c ∷ d ∷ rest) 0) rest)
unfolding parse_frame
parse_frame-inversion a b c d rest payload h = (ground arith, ground arith, ground arith)

parse_frame-short :
    (buffer payload : List ℕ) → parse_frame buffer ≡ parsed_payload payload → 4 ≤ length buffer
unfolding parse_frame
parse_frame-short buffer payload h = ground arith

-- A buffer that parses begins with the length of the payload, then the payload, which is within the
-- limit.
pub parse_frame_sound :
    (buffer payload : List ℕ)
    → IsBytes buffer
    → parse_frame buffer ≡ parsed_payload payload
    → (rest : List ℕ) × (buffer ≡ be32 (length payload) ++ payload ++ rest)
      × (length payload ≤ max_payload_size)
parse_frame_sound [] payload v h = absurd (omega (arith, parse_frame-short [] payload h))
parse_frame_sound (a ∷ []) payload v h = absurd (omega (arith, parse_frame-short _ payload h))
parse_frame_sound (a ∷ b ∷ []) payload v h = absurd (omega (arith, parse_frame-short _ payload h))
parse_frame_sound (a ∷ b ∷ c ∷ []) payload v h =
    absurd (omega (arith, parse_frame-short _ payload h))
parse_frame_sound (a ∷ b ∷ c ∷ d ∷ rest) payload (ha, (hb, (hc, (hd, _)))) h =
    let n : ℕ = read_be32 (a ∷ b ∷ c ∷ d ∷ rest) 0 in
    let (small, fits, taken) = parse_frame-inversion a b c d rest payload h in
    let size : length payload ≡ n = ap length taken ∙ omega (arith, length-take n rest) in
    let digits = be32-digits a b c d n ha hb hc hd (unfold read_be32 in refl) in
    let split : payload ++ drop n rest ≡ rest = rw taken (take-append-drop n rest) in
    (
      drop n rest,
      rw (size, split) (ap (λ (header : List ℕ). header ++ rest) (sym digits)),
      omega arith,
    )

-- An ACK parses only if its length field is 4, and then the status is that of its last four bytes.
pub parse_ack_sound :
    (buffer : List ℕ) (status : ℕ)
    → parse_ack buffer ≡ parsed_status status
    → (8 ≤ length buffer) × (read_be32 buffer 0 ≡ 4) × (read_be32 buffer 4 ≡ status)
unfolding parse_ack
parse_ack_sound buffer status h = (ground arith, ground arith, ground arith)
