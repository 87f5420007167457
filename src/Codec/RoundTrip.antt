-- ===== src/Codec/RoundTrip.antt =====
-- Frames come back from their raw form.
use hil_rig_protocol.Common.{
  ℕ, ◌+◌, ◌-◌, ◌%◌, ◌^◌, ◌<◌, ◌≡◌, ◌≢◌, refl, ap, ◌∙◌, arith, List, [], ◌∷◌, ◌++◌, length,
  length-append, take, drop, take-append, drop-append, get_or, All, some, ltb, false, ==-refl,
}
use hil_rig_protocol.Types.{Status}
use hil_rig_protocol.Root.{FrameType, frame_type_value}
use hil_rig_protocol.Crc.{crc32_compute}
use hil_rig_protocol.Crc.Chunks.{crc32_compute-lt}
use hil_rig_protocol.Codec.{
  Frame, DecodeResult, validate_frame, header, covered, serialize, frame_type_of, read_frame,
}
use hil_rig_protocol.Codec.{
  parse_raw, parse_typed, accept_candidate, raw_overhead, crc_size, header_size, protocol_version,
  frame_type_valid,
}
use hil_rig_protocol.Codec.{
  write_u16_le, write_u32_le, write_u64_le, write_bytes, read_u16_le, read_u32_le, read_u64_le,
  read_bytes,
}
use hil_rig_protocol.Codec.Fields.{read_u32_le-write_u32_le}

length-header : (f : Frame) → length (header f) ≡ 14
unfolding header write_u64_le write_bytes write_u16_le
length-header f = refl

pub length-trailer : (v : ℕ) → length (write_u32_le v) ≡ 4
unfolding write_u32_le
length-trailer v = refl

pub length-covered : (f : Frame) → length (covered f) ≡ 14 + length f.payload
unfolding covered
length-covered f = omega (arith, length-append (header f) f.payload, length-header f)

pub length-serialize : (f : Frame) → length (serialize f) ≡ 18 + length f.payload
unfolding serialize
length-serialize f = omega (
  arith,
  length-append (covered f) (write_u32_le (crc32_compute (covered f))),
  length-covered f,
  length-trailer (crc32_compute (covered f)),
)

pub All-append :
    (xs ys : List ℕ) → All (λ b. b < 256) xs → All (λ b. b < 256) ys → All (λ b. b < 256) (xs ++ ys)
All-append [] ys p q = q
All-append (x ∷ xs) ys (h, p) q = (h, All-append xs ys p q)

pub header-bytes : (f : Frame) → All (λ b. b < 256) (header f)
unfolding header write_u64_le write_bytes write_u16_le
header-bytes f = (
  omega arith,
  (
    omega arith,
    (
      omega arith,
      (
        omega arith,
        (
          omega arith,
          (
            omega arith,
            (
              omega arith,
              (
                omega arith,
                (
                  omega arith,
                  (omega arith, (omega arith, (omega arith, (omega arith, (omega arith, tt))))),
                ),
              ),
            ),
          ),
        ),
      ),
    ),
  ),
)

covered-end : (f : Frame) → length (serialize f) - crc_size ≡ length (covered f)
covered-end f = omega (arith, length-serialize f, length-covered f)

frame_type_of-value :
    (t : FrameType) → t ≢ FrameType.invalid → frame_type_of (frame_type_value t % 2 ^ 8) ≡ some t
unfolding frame_type_of
frame_type_of-value FrameType.invalid h = absurd (h refl)
frame_type_of-value FrameType.initiate h = refl
frame_type_of-value FrameType.response h = refl
frame_type_of-value FrameType.confirm h = refl
frame_type_of-value FrameType.application_message h = refl
frame_type_of-value FrameType.ack h = refl
frame_type_of-value FrameType.reset h = refl

take-covered : (f : Frame) → take (length (serialize f) - crc_size) (serialize f) ≡ covered f
unfolding serialize
take-covered f =
    ap (λ n. take n (serialize f)) (covered-end f)
    ∙ take-append (covered f) (write_u32_le (crc32_compute (covered f)))

read-trailer :
    (f : Frame)
    → All (λ b. b < 256) f.payload
    → read_u32_le (drop (length (serialize f) - crc_size) (serialize f)) ≡ crc32_compute (covered f)
unfolding serialize covered
read-trailer f bytes =
    ap (λ n. read_u32_le (drop n (serialize f))) (covered-end f)
    ∙ ap read_u32_le (drop-append (covered f) (write_u32_le (crc32_compute (covered f))))
    ∙ read_u32_le-write_u32_le (crc32_compute (covered f))
        (crc32_compute-lt (covered f) (All-append (header f) f.payload (header-bytes f) bytes))

read-identifier :
    (f : Frame)
    → f.session_identifier < 2 ^ 64
    → read_u64_le (drop 2 (serialize f)) ≡ f.session_identifier
unfolding serialize covered header write_u64_le write_bytes write_u16_le read_u64_le read_bytes
read-identifier f h = omega arith

read-sequence : (f : Frame) → f.sequence < 2 ^ 16 → read_u16_le (drop 10 (serialize f)) ≡ f.sequence
unfolding serialize covered header write_u64_le write_bytes write_u16_le read_u16_le
read-sequence f h = omega arith

read-acknowledgement :
    (f : Frame)
    → f.acknowledgement_sequence < 2 ^ 16
    → read_u16_le (drop 12 (serialize f)) ≡ f.acknowledgement_sequence
unfolding serialize covered header write_u64_le write_bytes write_u16_le read_u16_le
read-acknowledgement f h = omega arith

read-payload :
    (f : Frame)
    → take (length (serialize f) - raw_overhead) (drop header_size (serialize f)) ≡ f.payload
unfolding serialize covered header write_u64_le write_bytes write_u16_le
read-payload f =
    ap (λ n. take n (f.payload ++ write_u32_le (crc32_compute (covered f)))) (payload-end f)
    ∙ take-append f.payload (write_u32_le (crc32_compute (covered f)))
  where
    payload-end : (f : Frame) → length (serialize f) - raw_overhead ≡ length f.payload
    payload-end f = omega (arith, length-serialize f)

read_frame-serialize :
    (f : Frame)
    → f.session_identifier < 2 ^ 64
    → f.sequence < 2 ^ 16
    → f.acknowledgement_sequence < 2 ^ 16
    → read_frame f.type (serialize f) ≡ f
unfolding read_frame
read_frame-serialize f h k l =
    rw (read-identifier f h, read-sequence f k, read-acknowledgement f l, read-payload f) refl

long_enough : (f : Frame) → ltb (length (serialize f)) raw_overhead ≡ false
long_enough f = let e = length-serialize f in ground (arith, e)

first_byte : (f : Frame) → get_or (serialize f) 0 0 ≡ protocol_version
unfolding serialize covered header
first_byte f = refl

second_byte : (f : Frame) → get_or (serialize f) 1 0 ≡ frame_type_value f.type % 2 ^ 8
unfolding serialize covered header
second_byte f = refl

not_invalid :
    (f : Frame) (maximum : ℕ) → validate_frame f maximum ≡ Status.ok → f.type ≢ FrameType.invalid
unfolding validate_frame frame_type_valid
not_invalid f maximum ok e = ground arith

parse_typed-serialize :
    (f : Frame) (maximum : ℕ)
    → validate_frame f maximum ≡ Status.ok
    → f.session_identifier < 2 ^ 64
    → f.sequence < 2 ^ 16
    → f.acknowledgement_sequence < 2 ^ 16
    → parse_typed (some f.type) (serialize f) maximum ≡ (Status.ok, DecodeResult.valid, some f)
unfolding parse_typed accept_candidate
parse_typed-serialize f maximum ok h k l = rw (read_frame-serialize f h k l, ok) refl

-- A frame that passes validation, with its fields and its payload's bytes in range, is read back
-- from its raw form as it was written, field by field and with its payload.
pub parse_raw-serialize :
    (f : Frame) (maximum : ℕ)
    → validate_frame f maximum ≡ Status.ok
    → f.session_identifier < 2 ^ 64
    → f.sequence < 2 ^ 16
    → f.acknowledgement_sequence < 2 ^ 16
    → All (λ b. b < 256) f.payload
    → parse_raw (serialize f) maximum ≡ (Status.ok, DecodeResult.valid, some f)
unfolding parse_raw
parse_raw-serialize f maximum ok h k l bytes =
    rw
      (
        long_enough f,
        read-trailer f bytes,
        take-covered f,
        ==-refl (crc32_compute (covered f)),
        first_byte f,
        second_byte f,
        frame_type_of-value f.type (not_invalid f maximum ok),
      )
      (parse_typed-serialize f maximum ok h k l)
