-- ===== src/Codec/Wire.antt =====
-- A frame crosses the byte stream: encoded, cut out of the stream, and decoded.
use hil_rig_protocol.Common.{
  ℕ, suc, ◌+◌, ◌^◌, ◌≤◌, ◌<◌, ◌≡◌, refl, ap, ◌∙◌, arith, List, [], ◌∷◌, ◌++◌, length, set, take,
  drop, All, some, length-drop, length-append, size_max,
}
use hil_rig_protocol.Types.{Status}
use hil_rig_protocol.Parser.{Parser, push_bytes, peek_body, body_ready}
use hil_rig_protocol.Parser.Framing.{IsIdle, push_bytes-body, peek_body-complete}
use hil_rig_protocol.Codec.{Frame, DecodeResult, validate_frame, serialize, raw_overhead}
use hil_rig_protocol.Codec.RoundTrip.{parse_raw-serialize, length-serialize}
use hil_rig_protocol.Codec.Cobs.{Cobs, Encodes, Encoded, cobs_encode, cobs_decode, report_encoded}
use hil_rig_protocol.Codec.Blocks.{exact_cobs_size-Blocks, nonempty-Blocks, nonzero-Blocks}
use hil_rig_protocol.Codec.Encode.{encode_frame, encode_sized, finish_encoded}
use hil_rig_protocol.Codec.Decode.{decode_frame_view, parse_decoded}

-- The delimiter goes right behind the encoding.
set-append :
    (wire out : List ℕ)
    → length wire < length out
    → set (wire ++ drop (length wire) out) (length wire) 0
      ≡ wire ++ (0 ∷ drop (suc (length wire)) out)
set-append [] [] h = absurd (omega arith)
set-append [] (b ∷ out) h = refl
set-append (w ∷ wire) [] h = absurd (omega arith)
set-append (w ∷ wire) (b ∷ out) h = ap (λ l. w ∷ l) (set-append wire out (omega arith))

-- What `encode_frame` leaves of the destination.
abbrev pub delimited : List ℕ → List ℕ → Encoded
delimited wire out = record {
  status = Status.ok;
  output = wire ++ (0 ∷ drop (suc (length wire)) out);
  output_size = length wire + 1;
}

pub length-delimited :
    (wire out : List ℕ) → length wire < length out → length (delimited wire out).output ≡ length out
length-delimited wire out h = ground (
  arith,
  length-append wire (0 ∷ drop (suc (length wire)) out),
  length-drop (suc (length wire)) out,
)

cobs_encode-Encodes :
    {cobs : Cobs} {raw wire : List ℕ} (out : List ℕ)
    → Encodes cobs raw wire
    → 0 < length raw
    → length wire ≤ length out
    → cobs_encode cobs raw out (length wire) ≡ record {
      status = Status.ok;
      output = wire ++ drop (length wire) out;
      output_size = length wire;
    }
unfolding cobs_encode report_encoded
cobs_encode-Encodes out e some_raw h =
    rw (e.encoded out h) (ground (arith, nonempty-Blocks e.blocks))

cobs_decode-Encodes :
    {cobs : Cobs} {raw wire : List ℕ} (size : ℕ)
    → Encodes cobs raw wire
    → 0 < size
    → length raw ≤ size
    → cobs_decode cobs wire size ≡ (Status.ok, raw)
unfolding cobs_decode
cobs_decode-Encodes size e some_size h =
    rw (e.decoded size h) (ground (arith, nonempty-Blocks e.blocks))

-- A frame that passes validation is encoded into a destination that holds its encoding and the
-- delimiter, which are written at its start; the rest of the destination stays.
pub encode_frame-Encodes :
    {cobs : Cobs} (f : Frame) (maximum scratch_size : ℕ) {wire : List ℕ} (out : List ℕ)
    (out_size : ℕ)
    → Encodes cobs (serialize f) wire
    → validate_frame f maximum ≡ Status.ok
    → raw_overhead + length f.payload ≤ scratch_size
    → scratch_size ≤ size_max
    → length wire < out_size
    → out_size ≤ length out
    → length wire < size_max
    → encode_frame cobs f maximum scratch_size out out_size ≡ delimited wire out
unfolding encode_frame encode_sized finish_encoded
encode_frame-Encodes f maximum scratch_size {wire} out out_size e ok scratch top fits room small =
    let filled = cobs_encode-Encodes out e (omega (arith, length-serialize f)) (omega arith) in
    let placed = set-append wire out (omega arith) in
    let size = exact_cobs_size-Blocks e.blocks (omega (arith, length-serialize f)) (omega arith) in
    rw (ok, size, filled, placed) (ground arith)

-- The encoding of a frame that passes validation, with its fields and bytes in range, is decoded to
-- the frame.
pub decode_frame_view-Encodes :
    {cobs : Cobs} (f : Frame) (maximum scratch_size : ℕ) {wire : List ℕ}
    → Encodes cobs (serialize f) wire
    → validate_frame f maximum ≡ Status.ok
    → f.session_identifier < 2 ^ 64
    → f.sequence < 2 ^ 16
    → f.acknowledgement_sequence < 2 ^ 16
    → All (λ b. b < 256) f.payload
    → length f.payload ≤ maximum
    → maximum + raw_overhead ≤ scratch_size
    → scratch_size ≤ size_max
    → decode_frame_view cobs wire scratch_size maximum ≡ (Status.ok, DecodeResult.valid, some f)
unfolding decode_frame_view parse_decoded
decode_frame_view-Encodes f maximum scratch_size e ok i s a bytes small scratch top =
    let opened =
      cobs_decode-Encodes scratch_size e (omega arith) (omega (arith, length-serialize f)) in
    rw opened
      (ground (arith, nonempty-Blocks e.blocks, parse_raw-serialize f maximum ok i s a bytes))

take-delimited :
    (wire tail rest : List ℕ)
    → take (suc (length wire)) (wire ++ (0 ∷ tail)) ++ rest ≡ wire ++ (0 ∷ rest)
take-delimited [] tail rest = refl
take-delimited (w ∷ wire) tail rest = ap (λ l. w ∷ l) (take-delimited wire tail rest)

pub delimited-wire :
    (wire out rest : List ℕ)
    → take (length wire + 1) (wire ++ (0 ∷ drop (suc (length wire)) out)) ++ rest
      ≡ wire ++ (0 ∷ rest)
delimited-wire wire out rest =
    let one : length wire + 1 ≡ suc (length wire) = omega arith in
    ap (λ n. take n (wire ++ (0 ∷ drop (suc (length wire)) out)) ++ rest) one
    ∙ take-delimited wire (drop (suc (length wire)) out) rest

-- A frame that passes validation, with its fields and bytes in range, crosses the byte stream: its
-- encoding succeeds, an idle parser that is fed with it finds one body and consumes no byte of what
-- follows, and the body is decoded to the frame. COBS is as documented for this frame.
pub frame_crosses_wire :
    {cobs : Cobs} (f : Frame) (maximum scratch_size : ℕ) {wire : List ℕ} (out : List ℕ)
    (out_size : ℕ) {p : Parser} (rest : List ℕ)
    → Encodes cobs (serialize f) wire
    → validate_frame f maximum ≡ Status.ok
    → f.session_identifier < 2 ^ 64
    → f.sequence < 2 ^ 16
    → f.acknowledgement_sequence < 2 ^ 16
    → All (λ b. b < 256) f.payload
    → length f.payload ≤ maximum
    → maximum + raw_overhead ≤ scratch_size
    → scratch_size ≤ size_max
    → length wire < out_size
    → out_size ≤ length out
    → out_size ≤ size_max
    → IsIdle p
    → length wire ≤ p.scratch_buffer_size
    → let e = encode_frame cobs f maximum scratch_size out out_size in
      let (now, used, p') = push_bytes p (take e.output_size e.output ++ rest) in
      let (peeked, buffer, size) = peek_body p' in
      (e.status ≡ Status.ok)
      × (now ≡ body_ready)
      × (used ≡ e.output_size)
      × (peeked ≡ Status.ok)
      × (decode_frame_view cobs (take size buffer) scratch_size maximum
          ≡ (Status.ok, DecodeResult.valid, some f))
frame_crosses_wire {cobs} f maximum scratch_size {wire} out out_size {p} rest e ok i s a bytes small
      scratch top fits room limit idle body =
    let sent =
      encode_frame-Encodes f maximum scratch_size out out_size e ok (omega arith) top fits room
        (omega arith) in
    let (now, used, seen, valid) =
      push_bytes-body wire rest idle (nonzero-Blocks e.blocks)
        (ground (arith, nonempty-Blocks e.blocks)) body in
    let (peeked, shown) = peek_body-complete wire valid seen in
    rw (sent, delimited-wire wire out rest)
      (
        refl,
        now,
        used,
        peeked,
        ap (λ b. decode_frame_view cobs b scratch_size maximum) shown
            ∙ decode_frame_view-Encodes f maximum scratch_size e ok i s a bytes small scratch top,
      )
