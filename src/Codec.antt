-- ===== src/Codec.antt =====
-- src/transport/internal/mvp/transport_frame_codec_mvp.c: the fields of a frame, the rules for them,
-- and the sizes of its encoding; with src/transport/internal/common/transport_cobs.c, the size that
-- its encoding may have at most. A field is the list of its bytes.
pub mod Fields
pub mod Size
pub mod RoundTrip
pub mod Blocks
pub mod Cobs
pub mod Encode
pub mod Decode
pub mod Wire
pub mod Damage
mod Tests
use hil_rig_protocol.Common.{
  ℕ, zero, suc, ◌+◌, ◌-◌, ◌*◌, ◌/◌, ◌%◌, ◌^◌, List, [], ◌∷◌, length, get_or,
}
use hil_rig_protocol.Common.{
  Bool, true, false, not, ◌&&◌, ◌||◌, ltb, leb, ◌==◌, ◌!=◌, if◌then◌else◌, Option, none, some,
}
use hil_rig_protocol.Common.{u8, u16, size_max, take, drop, ◌++◌}
use hil_rig_protocol.Crc.{crc32_compute}
use hil_rig_protocol.Types.{Status, session_seed_invalid}
use hil_rig_protocol.Root.{FrameType, frame_type_value}

abbrev pub header_size : ℕ
header_size = 14

abbrev pub crc_size : ℕ
crc_size = 4

-- `HIL_TRANSPORT_MVP_RAW_OVERHEAD`
abbrev pub raw_overhead : ℕ
raw_overhead = 18

unfoldable pub write_u16_le : ℕ → List ℕ
write_u16_le value = value % 2 ^ 8 ∷ u8 (value / 2 ^ 8) ∷ []

unfoldable pub write_u32_le : ℕ → List ℕ
write_u32_le value =
    value % 2 ^ 8 ∷ (value / 2 ^ 8) % 2 ^ 8 ∷ (value / 2 ^ 16) % 2 ^ 8 ∷ u8 (value / 2 ^ 24) ∷ []

-- The loop of `write_u64_le` over the bytes that are left.
unfoldable pub write_bytes : ℕ → ℕ → List ℕ
write_bytes zero value = []
write_bytes (suc left) value = value % 2 ^ 8 ∷ write_bytes left (value / 2 ^ 8)

unfoldable pub write_u64_le : ℕ → List ℕ
write_u64_le value = write_bytes 8 value

-- The digits of a `|` of shifted bytes do not overlap, so it is their sum.
unfoldable pub read_u16_le : List ℕ → ℕ
read_u16_le input = u16 (get_or input 0 0 + get_or input 1 0 * 2 ^ 8)

unfoldable pub read_u32_le : List ℕ → ℕ
read_u32_le input =
    get_or input 0 0
    + get_or input 1 0 * 2 ^ 8
    + get_or input 2 0 * 2 ^ 16
    + get_or input 3 0 * 2 ^ 24

-- The loop of `read_u64_le`: `count` bytes, the value so far and the weight of the next byte.
unfoldable pub read_bytes : ℕ → List ℕ → ℕ → ℕ → ℕ
read_bytes zero input weight value = value
read_bytes (suc count) [] weight value = value
read_bytes (suc count) (b ∷ input) weight value =
    read_bytes count input (weight * 2 ^ 8) (value + b * weight)

unfoldable pub read_u64_le : List ℕ → ℕ
read_u64_le input = read_bytes 8 input 1 0

-- `HIL_Transport_Mvp_Frame_T`; the payload's size is its length.
pub record Frame : Type 0 where
  pub type : FrameType
  pub session_identifier : ℕ
  pub sequence : ℕ
  pub acknowledgement_sequence : ℕ
  pub payload : List ℕ

unfoldable pub frame_type_valid : FrameType → Bool
frame_type_valid type =
    leb (frame_type_value FrameType.initiate) (frame_type_value type)
    && leb (frame_type_value type) (frame_type_value FrameType.reset)

unfoldable pub validate_application_message : Frame → ℕ → Status
validate_application_message frame maximum_application_message_size =
    if frame.acknowledgement_sequence != 0
    then Status.invalid_argument
    else if length frame.payload == 0
    then Status.invalid_argument
    else if ltb maximum_application_message_size (length frame.payload)
    then Status.message_too_large
    else Status.ok

-- The rules of the other types.
unfoldable pub validate_control : FrameType → Frame → Status
validate_control FrameType.initiate frame =
    if frame.acknowledgement_sequence == 0 then Status.ok else Status.invalid_argument
validate_control FrameType.response frame = Status.ok
validate_control FrameType.confirm frame = Status.ok
validate_control FrameType.ack frame =
    if frame.sequence == 0 then Status.ok else Status.invalid_argument
validate_control FrameType.reset frame =
    if (frame.sequence == 0) && (frame.acknowledgement_sequence == 0)
    then Status.ok
    else Status.invalid_argument
validate_control type frame = Status.invalid_argument

unfoldable pub validate_typed : FrameType → Frame → ℕ → Status
validate_typed FrameType.application_message frame maximum =
    validate_application_message frame maximum
validate_typed type frame maximum =
    if length frame.payload != 0 then Status.invalid_argument else validate_control type frame

unfoldable pub validate_frame : Frame → ℕ → Status
validate_frame frame maximum_application_message_size =
    if not (frame_type_valid frame.type) || (frame.session_identifier == session_seed_invalid)
    then Status.invalid_argument
    else validate_typed frame.type frame maximum_application_message_size

-- One byte of `exact_cobs_size`: the size and the run of nonzero bytes after it. `more` tells
-- whether bytes follow; `none` is the overflow.
unfoldable pub size_step : ℕ → Bool → ℕ → ℕ → Option (ℕ × ℕ)
size_step b more size run =
    if size == size_max
    then none
    else if b == 0
    then some (size + 1, 0)
    else if (u8 (run + 1) == 254) && more
    then (if size + 1 == size_max then none else some (size + 2, 0))
    else some (size + 1, u8 (run + 1))

unfoldable pub size_loop : List ℕ → ℕ → ℕ → Option ℕ
size_loop [] size run = some size
size_loop (b ∷ rest) size run = elim (size_step b (length rest != 0) size run) [
  | none ↦ none
  | some (size', run') ↦ size_loop rest size' run'
]

-- `none` for every refusal.
unfoldable pub exact_cobs_size : List ℕ → Option ℕ
exact_cobs_size raw = if length raw == 0 then none else size_loop raw 1 0

unfoldable pub cobs_max_encoded_size : ℕ → Option ℕ
cobs_max_encoded_size input_size =
    if input_size == 0
    then some 1
    else if ltb (size_max - 253) input_size
    then none
    else if ltb (size_max - (input_size + 253) / 254) input_size
    then none
    else some (input_size + (input_size + 253) / 254)

-- The end of `max_encoded_size`, on the bound of the COBS routine.
unfoldable pub with_delimiter : Option ℕ → ℕ
with_delimiter none = 0
with_delimiter (some cobs_size) = if cobs_size == size_max then 0 else cobs_size + 1

unfoldable pub max_encoded_size : ℕ → ℕ
max_encoded_size maximum_application_message_size =
    if (maximum_application_message_size == 0)
      || ltb (size_max - raw_overhead) maximum_application_message_size
    then 0
    else with_delimiter (cobs_max_encoded_size (maximum_application_message_size + raw_overhead))

-- `HIL_Transport_Mvp_Decode_Result_T`
pub data DecodeResult : Type 0 where
  valid malformed integrity_invalid session_incompatible : DecodeResult

abbrev pub protocol_version : ℕ
protocol_version = 1

unfoldable pub header : Frame → List ℕ
header frame =
    protocol_version
    ∷ u8 (frame_type_value frame.type)
    ∷ (write_u64_le frame.session_identifier
        ++ (write_u16_le frame.sequence ++ write_u16_le frame.acknowledgement_sequence))

-- The bytes of the scratch buffer that the check value covers, and all of them.
unfoldable pub covered : Frame → List ℕ
covered frame = header frame ++ frame.payload

unfoldable pub serialize : Frame → List ℕ
serialize frame = covered frame ++ write_u32_le (crc32_compute (covered frame))

-- The cast to a frame type with the check of it.
unfoldable pub frame_type_of : ℕ → Option FrameType
frame_type_of value =
    if value == 1
    then some FrameType.initiate
    else if value == 2
    then some FrameType.response
    else if value == 3
    then some FrameType.confirm
    else if value == 4
    then some FrameType.application_message
    else if value == 5
    then some FrameType.ack
    else if value == 6
    then some FrameType.reset
    else none

-- What a decoder reports: its status, its result and the frame that it stores, if it does.
abbrev pub Decoded : Type 0
Decoded = Status × DecodeResult × Option Frame

unfoldable pub accept_candidate : Status → Frame → Decoded
accept_candidate Status.ok frame = (Status.ok, DecodeResult.valid, some frame)
accept_candidate Status.message_too_large frame =
    (Status.message_too_large, DecodeResult.malformed, none)
accept_candidate status frame = (Status.ok, DecodeResult.malformed, none)

unfoldable pub read_frame : FrameType → List ℕ → Frame
read_frame type raw = record {
  type = type;
  session_identifier = read_u64_le (drop 2 raw);
  sequence = read_u16_le (drop 10 raw);
  acknowledgement_sequence = read_u16_le (drop 12 raw);
  payload = take (length raw - raw_overhead) (drop header_size raw);
}

unfoldable pub parse_typed : Option FrameType → List ℕ → ℕ → Decoded
parse_typed none raw maximum = (Status.ok, DecodeResult.malformed, none)
parse_typed (some type) raw maximum =
    accept_candidate (validate_frame (read_frame type raw) maximum) (read_frame type raw)

-- `decode_frame_view` from the raw bytes that COBS decoding left in the scratch buffer on.
unfoldable pub parse_raw : List ℕ → ℕ → Decoded
parse_raw raw maximum_application_message_size =
    if ltb (length raw) raw_overhead
    then (Status.ok, DecodeResult.malformed, none)
    else if read_u32_le (drop (length raw - crc_size) raw)
        != crc32_compute (take (length raw - crc_size) raw)
    then (Status.ok, DecodeResult.integrity_invalid, none)
    else if get_or raw 0 0 != protocol_version
    then (Status.ok, DecodeResult.session_incompatible, none)
    else parse_typed (frame_type_of (get_or raw 1 0)) raw maximum_application_message_size
