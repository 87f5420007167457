-- ===== src/Handshake/Sends.antt =====
-- The publication of a handshake frame as the reliable frame.
use hil_rig_protocol.Common.{ℕ, ◌+◌, ◌<◌, ◌≤◌, ◌≡◌, ◌≢◌, ap, arith, List, length, true, size_max}
use hil_rig_protocol.Types.{Status, status_enum}
use hil_rig_protocol.Root.{Root, HandshakePhase, FrameType, ReliableState}
use hil_rig_protocol.Codec.{serialize, validate_control}
use hil_rig_protocol.Codec.Cobs.{Cobs, Encodes}
use hil_rig_protocol.Codec.Wire.{delimited, length-delimited, encode_frame-Encodes}
use hil_rig_protocol.Reliability.{is_reliable_type}
use hil_rig_protocol.Reliability.Validity as ReliabilityValidity
use hil_rig_protocol.Reliability.Loading.{
  loaded, publish_encoded-loaded, reserve_sequence-idle, IsValid-regions,
}
use hil_rig_protocol.Handshake.{
  handshake_frame, encode_for, publish_reliable, publish_reliable_encoded, set_phase, then_reply,
}
use hil_rig_protocol.Handshake.Publish.{HasScratch, handshake_frame-validate_frame, empty_payload}

-- The output's region with an encoding and its delimiter at its start.
unfoldable pub with_output : List ℕ → Root → Root
with_output wire r = record r { encoded_output = (delimited wire r.encoded_output).output }

pub with_output-IsValid :
    {r : Root} (wire : List ℕ)
    → ReliabilityValidity.IsValid r
    → length wire < r.encoded_output_capacity
    → ReliabilityValidity.IsValid (with_output wire r)
unfolding with_output
with_output-IsValid {r} wire v h =
    IsValid-regions r.submitted_message (delimited wire r.encoded_output).output v
      (length-delimited wire r.encoded_output (ground (arith, v.stored)))

-- An endpoint that owns no reliable frame takes the next one, and moves on to the next phase.
pub publish_reliable-loaded :
    {cobs : Cobs} {r : Root} (t : FrameType) (acknowledgement : ℕ) (phase : HandshakePhase)
    {wire : List ℕ}
    → Encodes cobs
        (serialize (
          handshake_frame t r.session.session_identifier r.session.next_transmit_sequence
            acknowledgement))
        wire
    → HasScratch r
    → ReliabilityValidity.IsValid r
    → r.session.reliable_state ≡ ReliableState.idle
    → is_reliable_type t ≡ true
    → r.session.session_identifier ≢ 0
    → validate_control t (
        handshake_frame t r.session.session_identifier r.session.next_transmit_sequence
          acknowledgement)
      ≡ Status.ok
    → length wire < r.encoded_output_capacity
    → r.encoded_output_capacity ≤ size_max
    → publish_reliable cobs r t acknowledgement phase
      ≡ (Status.ok, set_phase (loaded t (length wire + 1) (with_output wire r)) phase)
unfolding publish_reliable publish_reliable_encoded encode_for with_output then_reply
publish_reliable-loaded {cobs} {r} t acknowledgement phase {wire} e scratch v idle reliable named ok
      room top =
    let f =
      handshake_frame t r.session.session_identifier r.session.next_transmit_sequence
        acknowledgement in
    let empty =
      empty_payload t r.session.session_identifier r.session.next_transmit_sequence
        acknowledgement in
    let encoded =
      encode_frame-Encodes f r.base.config.max_application_message_size r.codec_scratch_size
        r.encoded_output r.encoded_output_capacity e
        (handshake_frame-validate_frame t r.session.session_identifier
          r.session.next_transmit_sequence acknowledgement _ named ok)
        (ground (arith, scratch.scratch, ap length empty)) scratch.bounded room v.stored
        (omega arith) in
    let published =
      publish_encoded-loaded t (length wire + 1) (with_output-IsValid wire v room) idle reliable
        (omega arith) (omega arith) in
    rw (reserve_sequence-idle v idle, encoded)
      (ap (λ x. then_reply x (λ r'. (Status.ok, set_phase r' phase))) published)
