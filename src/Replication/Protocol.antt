-- ===== src/Replication/Protocol.antt =====
-- Enterprise/Replication/DirectMQProtocol.{h,cpp}: length-prefixed frames and ACK frames.
-- A byte is a number below 256; an error message is a constructor that holds the numbers that the
-- text prints.
pub mod RoundTrip
pub mod Rejects
mod Examples
use open_arango_dbcore.Prelude.{
  ℕ, zero, suc, ◌+◌, ◌*◌, ◌/◌, ◌%◌, List, [], ◌∷◌, Bool, true, false, Option, none, some, ltb, leb,
  ◌==◌, not, if◌then◌else◌, length, set, get_or, take, drop, replicate, u32_mod,
}

-- kMaxPayloadSize, 64 MB
abbrev pub max_payload_size : ℕ
max_payload_size = 67108864

abbrev pub ack_success : ℕ
ack_success = 0

abbrev pub ack_error_generic : ℕ
ack_error_generic = 1

abbrev pub ack_error_sequence : ℕ
ack_error_sequence = 2

-- What `errorMessage` says, and the exception of `frameMessage`.
pub data ProtocolError : Type 0 where
  payload_too_large : ProtocolError
  frame_header_short : ℕ → ProtocolError
  declared_too_large : ℕ → ProtocolError
  frame_payload_short : ℕ → ℕ → ProtocolError
  ack_short : ℕ → ProtocolError
  ack_length_wrong : ℕ → ProtocolError

-- `error_message` is `none` where the source leaves the text empty.
pub record ParseResult : Type 0 where
  pub ok : Bool
  pub payload : List ℕ
  pub status_code : ℕ
  pub error_message : Option ProtocolError

abbrev pub parsed_payload : List ℕ → ParseResult
parsed_payload p = record { ok = true; payload = p; status_code = 0; error_message = none }

abbrev pub parsed_status : ℕ → ParseResult
parsed_status c = record { ok = true; payload = []; status_code = c; error_message = none }

abbrev pub parse_failed : ProtocolError → ParseResult
parse_failed e = record { ok = false; payload = []; status_code = 0; error_message = some e }

-- buf[offset + i] = (value >> (24 - 8 i)) & 0xFF
unfoldable pub write_be32 : List ℕ → ℕ → ℕ → List ℕ
write_be32 buf offset value =
    let b0 = set buf (offset + 0) (value / 16777216 % 256) in
    let b1 = set b0 (offset + 1) (value / 65536 % 256) in
    let b2 = set b1 (offset + 2) (value / 256 % 256) in set b2 (offset + 3) (value % 256)

-- The four shifted bytes have no bit in common, so `|` is `+`.
unfoldable pub read_be32 : List ℕ → ℕ → ℕ
read_be32 buf offset =
    get_or buf (offset + 0) 0 * 16777216
    + get_or buf (offset + 1) 0 * 65536
    + get_or buf (offset + 2) 0 * 256
    + get_or buf (offset + 3) 0

-- std::memcpy(buf.data() + position, source, source.size())
unfoldable pub copy_at : List ℕ → ℕ → List ℕ → List ℕ
copy_at buf position [] = buf
copy_at buf position (b ∷ source) = copy_at (set buf position b) (position + 1) source

-- `none` stands for the `std::invalid_argument` of a payload that is too large.
unfoldable pub frame_message : List ℕ → Option (List ℕ)
unfolding write_be32 copy_at
frame_message payload =
    if ltb max_payload_size (length payload)
    then none
    else let size : ℕ = length payload % u32_mod in
      let frame = write_be32 (replicate (4 + size) 0) 0 size in
      some (if ltb 0 size then copy_at frame 4 payload else frame)

-- `4 + length` is a `uint32_t`.
unfoldable pub parse_frame : List ℕ → ParseResult
parse_frame buffer =
    if ltb (length buffer) 4
    then parse_failed (frame_header_short (length buffer))
    else let size : ℕ = read_be32 buffer 0 in
      if ltb max_payload_size size
      then parse_failed (declared_too_large size)
      else if ltb (length buffer) ((4 + size) % u32_mod)
      then parse_failed (frame_payload_short ((4 + size) % u32_mod) (length buffer))
      else parsed_payload (take size (drop 4 buffer))

unfoldable pub build_ack : ℕ → List ℕ
unfolding write_be32
build_ack status_code = write_be32 (write_be32 (replicate 8 0) 0 4) 4 status_code

unfoldable pub parse_ack : List ℕ → ParseResult
parse_ack buffer =
    if ltb (length buffer) 8
    then parse_failed (ack_short (length buffer))
    else let payload_len : ℕ = read_be32 buffer 0 in
      if not (payload_len == 4)
      then parse_failed (ack_length_wrong payload_len)
      else parsed_status (read_be32 buffer 4)
