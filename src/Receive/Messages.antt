-- ===== src/Receive/Messages.antt =====
-- The bytes of a message's frame, from the byte stream to the caller.
use hil_rig_protocol.Common.{
  ℕ, ◌^◌, ◌<◌, ◌≤◌, ◌≡◌, refl, sym, subst, ap, ◌∙◌, arith, List, length, All, true,
}
use hil_rig_protocol.Types.{
  Status, status_enum, link_state_enum, role_enum, session_state_enum, failure_enum,
}
use hil_rig_protocol.Root.{
  Root, FrameType, frame_type_enum, handshake_phase_enum, ControlOutputState,
}
use hil_rig_protocol.Parser
use hil_rig_protocol.Parser.{Parser}
use hil_rig_protocol.Parser.Framing.{peek_body-complete, consume_body-complete}
use hil_rig_protocol.Codec.{Frame, serialize, validate_frame}
use hil_rig_protocol.Codec.Cobs.{Cobs, Encodes}
use hil_rig_protocol.Codec.Wire.{decode_frame_view-Encodes}
use hil_rig_protocol.Control.Validity as ControlValidity
use hil_rig_protocol.Handshake
use hil_rig_protocol.Handshake.{handshake_frame, then_reply}
use hil_rig_protocol.Handshake.Host.{ApplicationProof, try_complete_host_from_application}
use hil_rig_protocol.Handshake.Publish.{HasScratch}
use hil_rig_protocol.Application.{session_is_established}
use hil_rig_protocol.Application.Once.{Expects, retained, handle_received_frame-retained}
use hil_rig_protocol.Receive.{
  BodyAction, frame_is_recently_abandoned, rig_is_waiting_unbound_for_initiate,
  frame_has_incompatible_session_identifier,
}
use hil_rig_protocol.Receive.Dispatch.{
  finish_message, finish_proof, dispatch_message, dispatch_type, dispatch_frame, by_decoded,
  decode_retained_body, consume_body, finish_body, process_retained_body,
}

-- The proof of a host's CONFIRM is of no interest to an established endpoint.
try_complete-established :
    {r : Root} (f : Frame)
    → f.type ≡ FrameType.application_message
    → session_is_established r ≡ true
    → Handshake.validate_root r ≡ (Status.ok, r)
    → try_complete_host_from_application r f ≡ (Status.ok, ApplicationProof.not_applicable, r)
unfolding try_complete_host_from_application session_is_established
try_complete-established {r} f message established valid =
    rw (message, valid) (ground (arith, established))

module _ {cobs : Cobs} {r : Root} {f : Frame} {ack : List ℕ} (x : Expects r f)
    (e : Encodes cobs
      (serialize (handshake_frame FrameType.ack r.session.session_identifier 0 f.sequence))
      ack)
    (v : HasScratch r) (c : ControlValidity.IsValid r)
    (idle : r.control_output_state ≡ ControlOutputState.idle)
    (valid : Handshake.validate_root r ≡ (Status.ok, r)) where
  dispatch_message-retained :
      dispatch_message cobs r f ≡ (Status.ok, BodyAction.consume, retained ack f r)
  unfolding dispatch_message finish_proof finish_message
  dispatch_message-retained =
      ap (finish_proof cobs f) (try_complete-established f x.message x.established valid)
      ∙ ap (finish_message cobs) (handle_received_frame-retained x e v c idle)

  pub dispatch_frame-retained :
      dispatch_frame cobs r f ≡ (Status.ok, BodyAction.consume, retained ack f r)
  unfolding dispatch_frame dispatch_type frame_is_recently_abandoned
      rig_is_waiting_unbound_for_initiate frame_has_incompatible_session_identifier
      session_is_established
  dispatch_frame-retained =
      ground (arith, x.established, x.same_session, x.message, dispatch_message-retained)

-- What the codec asks of a frame that it decodes to itself.
pub record Sendable (r : Root) (f : Frame) : Type 0 where
  pub accepted : validate_frame f r.base.config.max_application_message_size ≡ Status.ok
  pub identifier_in : f.session_identifier < 2 ^ 64
  pub sequence_in : f.sequence < 2 ^ 16
  pub acknowledgement_in : f.acknowledgement_sequence < 2 ^ 16
  pub bytes : All (λ b. b < 256) f.payload
  pub fits : length f.payload ≤ r.base.config.max_application_message_size

-- A body that is ready is decoded to its frame.
decoded_frame :
    {cobs : Cobs} {r : Root} {f : Frame} {wire : List ℕ}
    → Sendable r f
    → HasScratch r
    → Encodes cobs (serialize f) wire
    → Parser.Validity.IsValid r.parser
    → Parser.Stream.view r.parser ≡ Parser.Stream.complete wire
    → decode_retained_body cobs r ≡ dispatch_frame cobs r f
unfolding decode_retained_body by_decoded
decoded_frame {cobs} {r} {f} {wire} s v e valid ready =
    let (peeked, shown) = peek_body-complete wire valid ready in
    let decoded =
      decode_frame_view-Encodes f r.base.config.max_application_message_size r.codec_scratch_size e
        s.accepted s.identifier_in s.sequence_in s.acknowledgement_in s.bytes s.fits v.scratch
        v.bounded in
    rw (peeked, shown, decoded) refl

unfoldable pub consumed : Root → Root
consumed r = record r { parser = record (r.parser) { body_ready = 0; accumulated_size = 0 } }

pub process_retained_body-consumed :
    {cobs : Cobs} {r r' : Root} {f : Frame} {wire : List ℕ}
    → Sendable r f
    → HasScratch r
    → Encodes cobs (serialize f) wire
    → Parser.Validity.IsValid r.parser
    → Parser.Stream.view r.parser ≡ Parser.Stream.complete wire
    → dispatch_frame cobs r f ≡ (Status.ok, BodyAction.consume, r')
    → r'.parser ≡ r.parser
    → process_retained_body cobs r ≡ (Status.ok, consumed r')
unfolding process_retained_body finish_body consume_body consumed
process_retained_body-consumed {cobs} {r} {r'} {f} {wire} s v e valid ready done same =
    let valid' = subst Parser.Validity.IsValid (sym same) valid in
    let ready' = ap Parser.Stream.view same ∙ ready in
    ap finish_body (decoded_frame s v e valid ready ∙ done)
    ∙ rw (consume_body-complete wire valid' ready') refl
