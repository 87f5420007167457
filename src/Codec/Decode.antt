-- ===== src/Codec/Decode.antt =====
-- `HIL_TRANSPORT_MVP_Decode_Frame_View` and `HIL_TRANSPORT_MVP_Decode_Frame`. Their buffers are
-- distinct regions, so they never overlap.
use hil_rig_protocol.Common.{
  ℕ, ◌+◌, ◌-◌, List, length, memcpy, ltb, ◌||◌, ◌==◌, if◌then◌else◌, Option, none, some, size_max,
}
use hil_rig_protocol.Types.{Status}
use hil_rig_protocol.Codec.{DecodeResult, Decoded, parse_raw, raw_overhead}
use hil_rig_protocol.Codec.Cobs.{Cobs, cobs_decode}
use hil_rig_protocol.Control.{null_with_size}

-- A body that COBS refuses, or that is larger than any frame, is malformed.
unfoldable pub parse_decoded : Status × List ℕ → ℕ → Decoded
parse_decoded (Status.ok, raw) maximum = parse_raw raw maximum
parse_decoded (Status.internal_error, raw) maximum = (Status.ok, DecodeResult.malformed, none)
parse_decoded (Status.buffer_too_small, raw) maximum = (Status.ok, DecodeResult.malformed, none)
parse_decoded (status, raw) maximum = (status, DecodeResult.malformed, none)

unfoldable pub decode_frame_view : Cobs → List ℕ → ℕ → ℕ → Decoded
decode_frame_view cobs encoded_body raw_scratch_size maximum_application_message_size =
    if (length encoded_body == 0) || (raw_scratch_size == 0)
    then (Status.invalid_argument, DecodeResult.malformed, none)
    else if ltb (size_max - raw_overhead) maximum_application_message_size
    then (Status.unsupported_configuration, DecodeResult.malformed, none)
    else if ltb raw_scratch_size (maximum_application_message_size + raw_overhead)
    then (Status.buffer_too_small, DecodeResult.malformed, none)
    else parse_decoded (cobs_decode cobs encoded_body raw_scratch_size)
        maximum_application_message_size

-- What `decode_frame` leaves: the caller's buffer, `none` for a null pointer, and the message's size.
pub record DecodedMessage : Type 0 where
  pub decoded : Decoded
  pub message_buffer : Option (List ℕ)
  pub message_size : ℕ

unfoldable pub copy_payload : List ℕ → Option (List ℕ) → Option (List ℕ)
copy_payload payload none = none
copy_payload payload (some buffer) = some (memcpy buffer payload (length payload))

unfoldable pub store_message : Decoded → Option (List ℕ) → DecodedMessage
store_message (Status.ok, DecodeResult.valid, some frame) buffer = record {
  decoded = (Status.ok, DecodeResult.valid, some frame);
  message_buffer = if length frame.payload == 0 then buffer else copy_payload frame.payload buffer;
  message_size = length frame.payload;
}
store_message (status, result, frame) buffer = record {
  decoded = (status, result, none);
  message_buffer = buffer;
  message_size = 0;
}

unfoldable pub decode_frame : Cobs → List ℕ → ℕ → Option (List ℕ) → ℕ → DecodedMessage
decode_frame cobs encoded_body raw_scratch_size message_buffer message_buffer_size =
    if (length encoded_body == 0)
      || (raw_scratch_size == 0)
      || null_with_size message_buffer message_buffer_size
    then record {
      decoded = (Status.invalid_argument, DecodeResult.malformed, none);
      message_buffer = message_buffer;
      message_size = 0;
    }
    else if ltb (size_max - raw_overhead) message_buffer_size
    then record {
      decoded = (Status.unsupported_configuration, DecodeResult.malformed, none);
      message_buffer = message_buffer;
      message_size = 0;
    }
    else store_message (decode_frame_view cobs encoded_body raw_scratch_size message_buffer_size)
        message_buffer
