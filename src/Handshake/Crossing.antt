-- ===== src/Handshake/Crossing.antt =====
-- The bytes of the handshake's frames, from the slot of one endpoint to the codec of the other.
use hil_rig_protocol.Common.{
  ℕ, ◌+◌, ◌^◌, ◌<◌, ◌≤◌, ◌≡◌, ◌≢◌, refl, ap, ◌∙◌, arith, List, ◌∷◌, ◌++◌, length, drop, some,
  take-memcpy, memcpy, ap₂,
}
use hil_rig_protocol.Types.{Status, role_enum, Role}
use hil_rig_protocol.Root.{
  Root, Peek, HandshakePhase, FrameType, ControlOutputState, control_output_capacity,
}
use hil_rig_protocol.Codec.{Frame, serialize, validate_control, DecodeResult}
use hil_rig_protocol.Codec.Cobs.{Cobs, Encodes}
use hil_rig_protocol.Codec.Decode.{decode_frame_view}
use hil_rig_protocol.Codec.Wire.{delimited-wire, decode_frame_view-Encodes}
use hil_rig_protocol.Control
use hil_rig_protocol.Control.{release}
use hil_rig_protocol.Control.Validity as ControlValidity
use hil_rig_protocol.Control.Slot.{transmit_item}
use hil_rig_protocol.Reliability.{peek_output}
use hil_rig_protocol.Reliability.Loading.{loaded, peek_once}
use hil_rig_protocol.Handshake.{handshake_frame, set_phase, encoded_control}
use hil_rig_protocol.Handshake.Publish.{handshake_frame-validate_frame, item, length-item}
use hil_rig_protocol.Handshake.Sends.{with_output}
use hil_rig_protocol.Handshake.Connecting.{Connecting}
use hil_rig_protocol.Handshake.Preserves.{published}

-- The peek shows the encoding and its delimiter, at the start of the caller's buffer, and the codec of
-- the peer decodes the encoding to the frame.
abbrev pub Carries : Cobs → Peek → List ℕ → Root → List ℕ → Frame → Type 0
Carries cobs shown out peer wire frame =
    (shown.status ≡ Status.ok)
    × (shown.out_buffer ≡ some (wire ++ (0 ∷ drop (length wire + 1) out)))
    × (shown.output_size ≡ length wire + 1)
    × (decode_frame_view cobs wire peer.codec_scratch_size
          peer.base.config.max_application_message_size
        ≡ (Status.ok, DecodeResult.valid, some frame))

module _ {cobs : Cobs} {role : Role} {peer : Root} (c : Connecting role peer) (t : FrameType)
    {identifier sequence acknowledgement : ℕ} {wire : List ℕ}
    (e : Encodes cobs (serialize (handshake_frame t identifier sequence acknowledgement)) wire)
    (named : identifier ≢ 0) (identifier_in : identifier < 2 ^ 64) (sequence_in : sequence < 2 ^ 16)
    (acknowledgement_in : acknowledgement < 2 ^ 16)
    (ok : validate_control t (handshake_frame t identifier sequence acknowledgement) ≡ Status.ok)
    (fits : length wire < control_output_capacity) (out : List ℕ) (out_size : ℕ)
    (enough : control_output_capacity ≤ out_size) where
  peer_decodes :
      decode_frame_view cobs wire peer.codec_scratch_size
        peer.base.config.max_application_message_size
      ≡ (
        Status.ok,
        DecodeResult.valid,
        some (handshake_frame t identifier sequence acknowledgement),
      )
  unfolding handshake_frame
  peer_decodes =
      let maximum = peer.base.config.max_application_message_size in
      decode_frame_view-Encodes (handshake_frame t identifier sequence acknowledgement) maximum
        peer.codec_scratch_size e
        (handshake_frame-validate_frame t identifier sequence acknowledgement maximum named ok)
        identifier_in sequence_in acknowledgement_in tt (omega arith) c.scratch.scratch
        c.scratch.bounded

  -- A frame that was published, and whose transmission is pending.
  pub published-Carries :
      {own : Role} (r : Root) (kind : FrameType) (phase : HandshakePhase)
      → Connecting own (published kind phase wire r)
      → Carries cobs
          (peek_output (published kind phase wire r) (some out) out_size)
          out
          peer
          wire
          (handshake_frame t identifier sequence acknowledgement)
  unfolding published set_phase loaded with_output
  published-Carries r kind phase own =
      let (status, bytes, size) =
        peek_once out out_size own.reliable refl (omega (arith, fits, enough)) in
      (
        status,
        bytes ∙ ap some (delimited-wire wire r.encoded_output (drop (length wire + 1) out)),
        size,
        peer_decodes,
      )

  -- A control frame that is in its slot, and the commit of it.
  pub control-Carries :
      (r : Root) (old : List ℕ)
      → ControlValidity.IsValid r
      → r.control_output ≡ memcpy old (item wire) (length wire + 1)
      → r.control_output_size ≡ length wire + 1
      → r.control_output_state ≡ ControlOutputState.ready
      → let shown = Control.peek_output r (some out) out_size in
        Carries cobs shown out peer wire (handshake_frame t identifier sequence acknowledgement)
        × (Control.commit_output shown.root ≡ (Status.ok, release r))
  unfolding item
  control-Carries r old v held size ready =
      let n = length wire + 1 in
      let (status, bytes, total, committed) =
        transmit_item out out_size v (λ k. ground (arith, ready, k))
          (omega (arith, size, fits, enough)) in
      let whole : memcpy out r.control_output r.control_output_size ≡ wire ++ (0 ∷ drop n out) =
        ap₂ (memcpy out) held size
        ∙ ap (λ b. b ++ drop n out) (take-memcpy old (item wire) n (length-item wire))
        ∙ delimited-wire wire encoded_control (drop n out) in
      ((status, bytes ∙ ap some whole, total ∙ size, peer_decodes), committed)
