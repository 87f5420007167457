-- ===== src/Codec/Encode.antt =====
-- `HIL_TRANSPORT_MVP_Encode_Frame`. Its buffers are distinct regions, so they never overlap.
use hil_rig_protocol.Common.{
  ℕ, ◌+◌, ◌-◌, List, length, set, ltb, ◌||◌, ◌==◌, ◌!=◌, ◌isnt◌, if◌then◌else◌, Option, none, some,
  size_max,
}
use hil_rig_protocol.Types.{Status, status_enum}
use hil_rig_protocol.Codec.{Frame, validate_frame, serialize, exact_cobs_size, raw_overhead}
use hil_rig_protocol.Codec.Cobs.{Cobs, Encoded, cobs_encode}

unfoldable pub unencoded : Status → List ℕ → Encoded
unencoded status out = record { status = status; output = out; output_size = 0 }

-- The delimiter behind an encoding of the size expected.
unfoldable pub finish_encoded : ℕ → Encoded → Encoded
finish_encoded cobs_size e =
    if e.status isnt Status.ok
    then unencoded e.status e.output
    else if e.output_size != cobs_size
    then unencoded Status.internal_error e.output
    else record {
      status = Status.ok;
      output = set e.output e.output_size 0;
      output_size = e.output_size + 1;
    }

-- The raw form is never empty, so that `exact_cobs_size` refuses it for its size only.
unfoldable pub encode_sized : Cobs → Option ℕ → List ℕ → List ℕ → ℕ → Encoded
encode_sized cobs none raw out out_size = unencoded Status.unsupported_configuration out
encode_sized cobs (some cobs_size) raw out out_size =
    if (cobs_size == size_max) || ltb out_size (cobs_size + 1)
    then unencoded Status.buffer_too_small out
    else finish_encoded cobs_size (cobs_encode cobs raw out cobs_size)

unfoldable pub encode_frame : Cobs → Frame → ℕ → ℕ → List ℕ → ℕ → Encoded
encode_frame cobs frame maximum_application_message_size raw_scratch_size out out_size =
    let status = validate_frame frame maximum_application_message_size in
    if status isnt Status.ok
    then unencoded status out
    else if ltb (size_max - raw_overhead) (length frame.payload)
    then unencoded Status.unsupported_configuration out
    else if ltb raw_scratch_size (raw_overhead + length frame.payload)
    then unencoded Status.buffer_too_small out
    else encode_sized cobs (exact_cobs_size (serialize frame)) (serialize frame) out out_size
