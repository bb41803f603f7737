-- ===== src/Replication/Protocol/Examples.antt =====
-- Tests of DirectMQProtocol, and its theorems at concrete inputs.
use open_arango_dbcore.Prelude.{ℕ, ◌≡◌, refl, ◌≤◌, List, [], ◌∷◌, ◌++◌, some, arith, length}
use open_arango_dbcore.Replication.Protocol.{
  max_payload_size, frame_message, parse_frame, parse_ack, parsed_payload, parse_failed,
  frame_payload_short, frame_header_short, read_be32,
}
use open_arango_dbcore.Replication.Protocol.RoundTrip.{be32, parse_frame-frame_message}
use open_arango_dbcore.Replication.Protocol.Rejects.{parse_frame_sound, parse_ack_sound}

abbrev hello : List ℕ
hello = 104 ∷ 105 ∷ []

hello_frame : frame_message hello ≡ some (0 ∷ 0 ∷ 0 ∷ 2 ∷ 104 ∷ 105 ∷ [])
unfolding frame_message
hello_frame = refl

cut_frame : parse_frame (0 ∷ 0 ∷ 0 ∷ 2 ∷ 104 ∷ []) ≡ parse_failed (frame_payload_short 6 5)
unfolding parse_frame read_be32
cut_frame = refl

no_header : parse_frame (1 ∷ 2 ∷ []) ≡ parse_failed (frame_header_short 2)
unfolding parse_frame
no_header = refl

parse_frame-frame_message_example :
    parse_frame ((0 ∷ 0 ∷ 0 ∷ 2 ∷ 104 ∷ 105 ∷ []) ++ (7 ∷ [])) ≡ parsed_payload hello
parse_frame-frame_message_example = parse_frame-frame_message hello (7 ∷ []) hello_frame

parse_frame_sound_example :
    (rest : List ℕ) × ((0 ∷ 0 ∷ 0 ∷ 1 ∷ 9 ∷ 8 ∷ [])
      ≡ be32 (length {A = ℕ} (9 ∷ [])) ++ (9 ∷ []) ++ rest)
    × (length {A = ℕ} (9 ∷ []) ≤ max_payload_size)
unfolding parse_frame read_be32
parse_frame_sound_example =
    parse_frame_sound (0 ∷ 0 ∷ 0 ∷ 1 ∷ 9 ∷ 8 ∷ []) (9 ∷ []) (omega arith) refl

parse_ack_sound_example :
    (8 ≤ length {A = ℕ} (0 ∷ 0 ∷ 0 ∷ 4 ∷ 0 ∷ 0 ∷ 0 ∷ 2 ∷ []))
    × (read_be32 (0 ∷ 0 ∷ 0 ∷ 4 ∷ 0 ∷ 0 ∷ 0 ∷ 2 ∷ []) 0 ≡ 4)
    × (read_be32 (0 ∷ 0 ∷ 0 ∷ 4 ∷ 0 ∷ 0 ∷ 0 ∷ 2 ∷ []) 4 ≡ 2)
unfolding parse_ack read_be32
parse_ack_sound_example = parse_ack_sound (0 ∷ 0 ∷ 0 ∷ 4 ∷ 0 ∷ 0 ∷ 0 ∷ 2 ∷ []) 2 refl
