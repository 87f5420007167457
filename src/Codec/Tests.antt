-- ===== src/Codec/Tests.antt =====
-- Concrete runs, and the theorems at concrete inputs.
use hil_rig_protocol.Common.{
  set, zero, suc, All, ◌≢◌, ap, length, ℕ, ◌+◌, ◌≤◌, ◌≡◌, refl, arith, List, [], ◌∷◌, ◌++◌, take,
  none, some,
}
use hil_rig_protocol.Types.{Status}
use hil_rig_protocol.Root.{FrameType, control_output_capacity}
use hil_rig_protocol.Codec.{
  Frame, DecodeResult, validate_frame, validate_typed, validate_application_message,
  frame_type_valid,
}
use hil_rig_protocol.Codec.{serialize, parse_raw, exact_cobs_size, max_encoded_size}
use hil_rig_protocol.Parser.{push_bytes, peek_body, body_ready, state_is_valid}
use hil_rig_protocol.Parser.Framing.{IsIdle}
use hil_rig_protocol.Codec.Encode.{encode_frame}
use hil_rig_protocol.Codec.Decode.{decode_frame_view}
use hil_rig_protocol.Codec.Wire.{frame_crosses_wire}
use hil_rig_protocol.Fixtures.{cobs, talking, greeting, greeting-Encodes}
use hil_rig_protocol.Codec.Size.{exact_cobs_size-max_encoded_size, exact_cobs_size-control}
use hil_rig_protocol.Codec.RoundTrip.{parse_raw-serialize, length-serialize}
use hil_rig_protocol.Codec.{covered, header, write_u64_le, write_bytes, write_u16_le, write_u32_le}
use hil_rig_protocol.Codec.Damage.{parse_raw-damaged}
use hil_rig_protocol.Codec.Blocks.{Blocks, exact_cobs_size-Blocks}

abbrev message : Frame
message = record {
  type = FrameType.application_message;
  session_identifier = 0x0102_0304_0506_0708;
  sequence = 0xffff;
  acknowledgement_sequence = 0;
  payload = 0 ∷ 7 ∷ 255 ∷ [];
}

message_is_accepted : validate_frame message 4 ≡ Status.ok
unfolding validate_frame validate_typed validate_application_message frame_type_valid
message_is_accepted = refl

parse_raw-serialize_example :
    parse_raw (serialize message) 4 ≡ (Status.ok, DecodeResult.valid, some message)
parse_raw-serialize_example =
    parse_raw-serialize message 4 message_is_accepted (omega arith) (omega arith) (omega arith)
      (omega arith, (omega arith, (omega arith, tt)))

-- The raw form of an ACK, less its check value.
abbrev zeros : List ℕ
zeros = 1 ∷ 5 ∷ 1 ∷ 0 ∷ 0 ∷ 0 ∷ 0 ∷ 0 ∷ 0 ∷ 0 ∷ 0 ∷ 0 ∷ 3 ∷ 0 ∷ 0 ∷ 0 ∷ 0 ∷ 0 ∷ []

exact_cobs_size-max_encoded_size_example :
    (n : ℕ) × (exact_cobs_size zeros ≡ some n) × (n + 1 ≤ max_encoded_size 4)
exact_cobs_size-max_encoded_size_example =
    exact_cobs_size-max_encoded_size 4 zeros (omega arith) (omega arith) (omega arith) (omega arith)

exact_cobs_size-control_example :
    (n : ℕ) × (exact_cobs_size zeros ≡ some n) × (n + 1 ≤ control_output_capacity)
exact_cobs_size-control_example = exact_cobs_size-control zeros refl

greeting_is_accepted : validate_frame greeting 4 ≡ Status.ok
unfolding validate_frame validate_typed validate_application_message frame_type_valid
greeting_is_accepted = refl

talking-IsIdle : IsIdle talking.parser
unfolding state_is_valid
talking-IsIdle = record {
  valid = record { consistent = refl; stored = omega arith };
  empty = refl;
  unread = refl;
  keeping = refl;
}

frame_crosses_wire_example :
    let e = encode_frame cobs greeting 4 22 talking.encoded_output 24 in
    let (now, used, p') = push_bytes talking.parser (take e.output_size e.output ++ (5 ∷ [])) in
    let (peeked, buffer, size) = peek_body p' in
    (e.status ≡ Status.ok)
    × (now ≡ body_ready)
    × (used ≡ e.output_size)
    × (peeked ≡ Status.ok)
    × (decode_frame_view cobs (take size buffer) 22 4
        ≡ (Status.ok, DecodeResult.valid, some greeting))
frame_crosses_wire_example =
    frame_crosses_wire greeting 4 22 talking.encoded_output 24 (5 ∷ []) greeting-Encodes
      greeting_is_accepted (omega arith) (omega arith) (omega arith)
      (omega arith, (omega arith, (omega arith, tt))) (omega arith) (omega arith) (omega arith)
      (omega arith) (omega arith) (omega arith) talking-IsIdle (omega arith)

-- The first byte of the message is damaged.
parse_raw-damaged_example :
    parse_raw (set (serialize greeting) 14 9) 4 ≡ (Status.ok, DecodeResult.integrity_invalid, none)
unfolding serialize covered header write_u64_le write_bytes write_u16_le write_u32_le
parse_raw-damaged_example =
    parse_raw-damaged greeting 14 9 4 (omega arith, (omega arith, (omega arith, tt)))
      (omega (arith, length-serialize greeting)) (omega arith) (λ e. ground (arith, e))

abbrev ones : ℕ → List ℕ
ones zero = []
ones (suc n) = 1 ∷ ones n

ones_nonzero : (n : ℕ) → All (λ b. b ≢ 0) (ones n)
ones_nonzero zero = tt
ones_nonzero (suc n) = ((λ e. omega (arith, e)), ones_nonzero n)

length-ones : (n : ℕ) → length (ones n) ≡ n
length-ones zero = refl
length-ones (suc n) = ap suc (length-ones n)

-- A full block, a block that ends at a zero, and an empty one.
long_run-Blocks : Blocks (ones 254 ++ (5 ∷ 0 ∷ [])) (255 ∷ (ones 254 ++ (2 ∷ 5 ∷ 1 ∷ [])))
long_run-Blocks = Blocks.full (ones 254) (ones_nonzero 254) (length-ones 254) (omega arith) (
    Blocks.zero_after (5 ∷ []) ((λ e. omega (arith, e)), tt) (omega arith)
      (Blocks.last [] tt (omega arith)))

exact_cobs_size-Blocks_example : exact_cobs_size (ones 254 ++ (5 ∷ 0 ∷ [])) ≡ some 258
exact_cobs_size-Blocks_example = exact_cobs_size-Blocks long_run-Blocks (omega arith) (omega arith)
