-- ===== src/Codec/Cobs.antt =====
-- src/transport/internal/common/transport_cobs.c: the calls of the vendored COBS routines, which are
-- a parameter.
use hil_rig_protocol.Common.{
  ℕ, ◌/◌, ◌%◌, ◌≤◌, ◌≡◌, List, [], ◌++◌, length, drop, ◌||◌, ◌==◌, ◌!=◌, if◌then◌else◌,
}
use hil_rig_protocol.Types.{Status}
use hil_rig_protocol.Codec.Blocks.{Blocks}

-- `cobs_encode_status`
pub data EncodeStatus : Type 0 where
  ok null_pointer out_buffer_overflow : EncodeStatus

-- `cobs_encode_result`, with the destination as the call leaves it.
pub record EncodeResult : Type 0 where
  pub status : EncodeStatus
  pub out_len : ℕ
  pub output : List ℕ

-- `cobs_decode_result`, a set of flags and the `out_len` bytes that were written.
pub record DecodeBytes : Type 0 where
  pub status : ℕ
  pub decoded : List ℕ

-- The routines take the destination's bytes and size, or only its size, and the source.
pub record Cobs : Type 0 where
  pub encode : List ℕ → ℕ → List ℕ → EncodeResult
  pub decode : ℕ → List ℕ → DecodeBytes

-- What the documentation of COBS says of one input and its encoding: the encoding has the format of
-- COBS, it is written at the start of a destination of its size, and decoding it into a destination
-- that holds the input gives the input.
pub record Encodes (cobs : Cobs) (raw wire : List ℕ) : Type 0 where
  pub blocks : Blocks raw wire
  pub encoded :
      (out : List ℕ)
      → length wire ≤ length out
      → cobs.encode out (length wire) raw ≡ record {
        status = EncodeStatus.ok;
        out_len = length wire;
        output = wire ++ drop (length wire) out;
      }
  pub decoded :
      (size : ℕ) → length raw ≤ size → cobs.decode size wire ≡ record { status = 0; decoded = raw }

-- What `cobs_encode` and `encode_frame` leave: the status, the destination and the size reported.
pub record Encoded : Type 0 where
  pub status : Status
  pub output : List ℕ
  pub output_size : ℕ

-- The tests on the result of the vendored encoder.
unfoldable pub encode_status : EncodeStatus → Status
encode_status EncodeStatus.ok = Status.ok
encode_status EncodeStatus.null_pointer = Status.invalid_argument
encode_status EncodeStatus.out_buffer_overflow = Status.buffer_too_small

unfoldable pub report_encoded : EncodeStatus → EncodeResult → Encoded
report_encoded EncodeStatus.ok e = record {
  status = Status.ok;
  output = e.output;
  output_size = e.out_len;
}
report_encoded status e = record {
  status = encode_status status;
  output = e.output;
  output_size = 0;
}

unfoldable pub cobs_encode : Cobs → List ℕ → List ℕ → ℕ → Encoded
cobs_encode cobs input output output_size =
    if (length input == 0) || (output_size == 0)
    then record { status = Status.invalid_argument; output = output; output_size = 0 }
    else let e = cobs.encode output output_size input in report_encoded e.status e

-- `COBS_DECODE_OUT_BUFFER_OVERFLOW` is bit 1 of the flags.
unfoldable pub cobs_decode : Cobs → List ℕ → ℕ → Status × List ℕ
cobs_decode cobs input output_size =
    if (length input == 0) || (output_size == 0)
    then (Status.invalid_argument, [])
    else let d = cobs.decode output_size input in
      if (d.status / 2) % 2 != 0
      then (Status.buffer_too_small, [])
      else if d.status != 0
      then (Status.internal_error, [])
      else (Status.ok, d.decoded)
