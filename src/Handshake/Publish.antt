-- ===== src/Handshake/Publish.antt =====
-- What the handshake's publications write, once COBS has encoded their frame.
use hil_rig_protocol.Common.{
  ℕ, ◌+◌, ◌<◌, ◌≤◌, ◌≡◌, ◌≢◌, refl, sym, ap, ◌∙◌, arith, List, [], ◌∷◌, length, drop, take, memcpy,
  some, size_max, length-append, length-memcpy, take-memcpy, suc,
}
use hil_rig_protocol.Types.{Status, status_enum}
use hil_rig_protocol.Root.{
  Root, Reply, FrameType, frame_type_enum, reliable_state_enum, ControlOutputState,
  control_output_state_enum, control_output_capacity,
}
use hil_rig_protocol.Codec.{
  Frame, validate_frame, validate_typed, validate_control, frame_type_valid, serialize,
  raw_overhead,
}
use hil_rig_protocol.Codec.Size.{exact_cobs_size-control}
use hil_rig_protocol.Codec.RoundTrip.{length-serialize}
use hil_rig_protocol.Codec.Cobs.{Cobs, Encodes}
use hil_rig_protocol.Codec.Blocks.{exact_cobs_size-Blocks, length-Blocks}
use hil_rig_protocol.Codec.Wire.{delimited, encode_frame-Encodes}
use hil_rig_protocol.Control
use hil_rig_protocol.Control.Validity as ControlValidity
use hil_rig_protocol.Control.Slot.{held, publish_encoded-cases}
use hil_rig_protocol.Handshake.{
  handshake_frame, encode_for, publish_control, publish_control_encoded, encoded_control,
  publish_acknowledgement, retry_later,
}

-- The codec has the room that initialisation gives it.
pub record HasScratch (r : Root) : Type 0 where
  pub scratch : r.base.config.max_application_message_size + raw_overhead ≤ r.codec_scratch_size
  pub bounded : r.codec_scratch_size ≤ size_max

-- The frames without payload that the rules of the codec accept.
pub handshake_frame-validate_frame :
    (t : FrameType) (identifier sequence acknowledgement maximum : ℕ)
    → identifier ≢ 0
    → validate_control t (handshake_frame t identifier sequence acknowledgement) ≡ Status.ok
    → validate_frame (handshake_frame t identifier sequence acknowledgement) maximum ≡ Status.ok
unfolding validate_frame validate_typed validate_control frame_type_valid handshake_frame
handshake_frame-validate_frame t identifier sequence acknowledgement maximum h k = ground arith

pub empty_payload :
    (t : FrameType) (identifier sequence acknowledgement : ℕ)
    → (handshake_frame t identifier sequence acknowledgement).payload ≡ []
unfolding handshake_frame
empty_payload t identifier sequence acknowledgement = refl

pub encoded_control-length : length encoded_control ≡ control_output_capacity
unfolding encoded_control
encoded_control-length = refl

-- Such a frame fits the control slot.
pub handshake_frame-fits :
    {cobs : Cobs} (f : Frame) {wire : List ℕ}
    → f.payload ≡ []
    → Encodes cobs (serialize f) wire
    → length wire < control_output_capacity
handshake_frame-fits f {wire} empty e =
    let (n, exact, fits) =
      exact_cobs_size-control (serialize f) (ground (arith, length-serialize f, ap length empty)) in
    let size : length (serialize f) ≡ raw_overhead =
      ground (arith, length-serialize f, ap length empty) in
    let counted =
      exact_cobs_size-Blocks e.blocks (omega (arith, size))
        (omega (arith, size, length-Blocks e.blocks)) in
    let same : some n ≡ some (length wire) = sym exact ∙ counted in ground (arith, same)

-- The item that a control frame leaves in its slot.
unfoldable pub item : List ℕ → List ℕ
item wire = (delimited wire encoded_control).output

pub publish_control-Encodes :
    {cobs : Cobs} {r : Root} (t : FrameType) (identifier acknowledgement : ℕ) {wire : List ℕ}
    → Encodes cobs (serialize (handshake_frame t identifier 0 acknowledgement)) wire
    → HasScratch r
    → identifier ≢ 0
    → validate_control t (handshake_frame t identifier 0 acknowledgement) ≡ Status.ok
    → publish_control cobs r t identifier acknowledgement
      ≡ Control.publish_encoded r (item wire) (length wire + 1)
unfolding publish_control publish_control_encoded encode_for item
publish_control-Encodes {cobs} {r} t identifier acknowledgement {wire} e v h k =
    let f = handshake_frame t identifier 0 acknowledgement in
    let empty = empty_payload t identifier 0 acknowledgement in
    let fits = handshake_frame-fits f empty e in
    let encoded =
      encode_frame-Encodes f r.base.config.max_application_message_size r.codec_scratch_size
        encoded_control control_output_capacity e
        (handshake_frame-validate_frame t identifier 0 acknowledgement _ h k)
        (ground (arith, v.scratch, ap length empty)) v.bounded fits
        (omega (arith, encoded_control-length)) (omega arith) in
    ap (publish_control_encoded r) encoded

-- A reply by its parts.
pair_path : {x : Reply} {s : Status} {r : Root} → (x.0 ≡ s) × (x.1 ≡ r) → x ≡ (s, r)
pair_path h = ground (arith, h)

-- A slot with an item of the same bytes, or a free one, takes it.
pub publish_idle :
    {r : Root} (bytes : List ℕ) (size : ℕ)
    → ControlValidity.IsValid r
    → r.control_output_state ≡ ControlOutputState.idle
    → 0 < size
    → size ≤ control_output_capacity
    → Control.publish_encoded r bytes size ≡ (
      Status.ok,
      record r {
        control_output = memcpy r.control_output bytes size;
        control_output_size = size;
        control_output_state = ControlOutputState.ready;
      },
    )
unfolding Control.publish_encoded
publish_idle {r} bytes size v idle h k = ground (arith, ControlValidity.validate_state-IsValid v)

ack_is_valid :
    (identifier sequence : ℕ)
    → validate_control FrameType.ack (handshake_frame FrameType.ack identifier 0 sequence)
      ≡ Status.ok
unfolding validate_control handshake_frame
ack_is_valid identifier sequence = refl

pub length-item : (wire : List ℕ) → length wire + 1 ≤ length (item wire)
unfolding item
length-item wire = ground (arith, length-append wire (0 ∷ drop (suc (length wire)) encoded_control))

-- What an ACK leaves in a free slot.
unfoldable pub with_item : List ℕ → Root → Root
with_item wire r = record r {
  control_output = memcpy r.control_output (item wire) (length wire + 1);
  control_output_size = length wire + 1;
  control_output_state = ControlOutputState.ready;
}

-- The bytes of the item.
pub held-with_item :
    (wire : List ℕ) (r : Root) → held (with_item wire r) ≡ take (length wire + 1) (item wire)
unfolding held with_item
held-with_item wire r =
    take-memcpy r.control_output (item wire) (length wire + 1) (length-item wire)

module _ {cobs : Cobs} {r : Root} (sequence : ℕ) {wire : List ℕ}
    (e : Encodes cobs
      (serialize (handshake_frame FrameType.ack r.session.session_identifier 0 sequence))
      wire)
    (v : HasScratch r) (c : ControlValidity.IsValid r)
    (named : r.session.session_identifier ≢ 0) where
  ack_fits : length wire + 1 ≤ control_output_capacity
  ack_fits = omega (arith, handshake_frame-fits _ (empty_payload _ _ _ _) e)

  ack_published :
      publish_acknowledgement cobs r sequence
      ≡ retry_later (Control.publish_encoded r (item wire) (length wire + 1))
  unfolding publish_acknowledgement
  ack_published = ap retry_later (
      publish_control-Encodes FrameType.ack r.session.session_identifier sequence e v named
        (ack_is_valid r.session.session_identifier sequence))

  pub publish_acknowledgement-idle :
      r.control_output_state ≡ ControlOutputState.idle
      → publish_acknowledgement cobs r sequence ≡ (Status.ok, with_item wire r)
  unfolding with_item retry_later
  publish_acknowledgement-idle idle =
      ack_published
      ∙ ap retry_later (publish_idle (item wire) (length wire + 1) c idle (omega arith) ack_fits)

  pub publish_acknowledgement-busy :
      r.control_output_state ≢ ControlOutputState.idle
      → (held r ≡ take (length wire + 1) (item wire)
          → publish_acknowledgement cobs r sequence ≡ (Status.ok, r))
        × (held r ≢ take (length wire + 1) (item wire)
            → publish_acknowledgement cobs r sequence ≡ (Status.capacity_exhausted, r))
  unfolding retry_later
  publish_acknowledgement-busy busy =
      let (idle, same, other) =
        publish_encoded-cases (item wire) (length wire + 1) c (omega arith) ack_fits
          (length-item wire) in
      (
        λ h. ack_published ∙ ap retry_later (pair_path (same busy h)),
        λ h. ack_published ∙ ap retry_later (pair_path (other busy h)),
      )

  pub with_item-IsValid : ControlValidity.IsValid (with_item wire r)
  unfolding with_item Control.validate_state Control.validate_item
  with_item-IsValid = record {
    consistent = ground (arith, ack_fits);
    slot = ground (
      arith,
      ack_fits,
      length-item wire,
      c.slot,
      length-memcpy r.control_output (item wire) (length wire + 1),
    );
  }
