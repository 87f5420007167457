-- ===== src/Handshake/Rig.antt =====
-- The rig's side of the handshake: the INITIATE and the CONFIRM.
use hil_rig_protocol.Common.{ℕ, not, ◌&&◌, ◌||◌, ◌!=◌, ◌is◌, ◌isnt◌, if◌then◌else◌}
use hil_rig_protocol.Types.{Status, LinkState, link_state_enum, SessionState, session_state_enum}
use hil_rig_protocol.Root.{Root, HandshakePhase, handshake_phase_enum, FrameType}
use hil_rig_protocol.Codec.{Frame}
use hil_rig_protocol.Codec.Cobs.{Cobs}
use hil_rig_protocol.Sequence.{classify_sequence}
use hil_rig_protocol.Events
use hil_rig_protocol.Handshake.{
  FrameResult, Handled, then_reply, then_handle, or_fault, session_identifier_is_valid, set_phase,
  set_established, publish_acknowledgement, publish_established_event, classify_acknowledgement,
  complete_acknowledgement, handle_duplicate_response_work, by_sequence, handle_duplicate,
  by_acknowledgement, accept_frame,
}

-- The identifier that the host chose.
unfoldable pub bind_session : Root → ℕ → Root
bind_session r session_identifier = record r {
  session = record (r.session) {
    session_identifier = session_identifier;
    session_identifier_valid = 1;
  };
}

unfoldable pub handle_expected_initiate : Root → Frame → Handled
handle_expected_initiate r frame =
    if (r.session.link_state isnt LinkState.connected)
      || (r.session.state isnt SessionState.connecting)
      || (r.session.handshake_phase isnt HandshakePhase.waiting_for_initiate)
    then (Status.ok, FrameResult.stale, r)
    else then_handle (accept_frame (bind_session r frame.session_identifier) frame)
        (λ r'. (Status.ok, FrameResult.accepted, set_phase r' HandshakePhase.response_pending))

unfoldable pub handle_rig_initiate : Root → Frame → Handled
handle_rig_initiate r frame =
    if not (session_identifier_is_valid frame.session_identifier)
      || (frame.acknowledgement_sequence != 0)
    then (Status.ok, FrameResult.incompatible, r)
    else if (r.session.session_identifier_valid != 0)
        && (frame.session_identifier != r.session.session_identifier)
    then (Status.ok, FrameResult.incompatible, r)
    else by_sequence (classify_sequence r.session frame.sequence) r
        (handle_duplicate r frame
          ((r.session.handshake_phase is HandshakePhase.response_pending)
            || (r.session.handshake_phase is HandshakePhase.waiting_for_confirm))
          (handle_duplicate_response_work r FrameType.response))
        (handle_expected_initiate r frame)

-- A CONFIRM of the sequence expected whose acknowledgement matches.
unfoldable pub accept_confirm : Cobs → Root → Frame → Handled
accept_confirm cobs r frame =
    then_handle
      (then_reply (Events.check_capacity r) (λ r₁.
        then_reply (publish_acknowledgement cobs r₁ frame.sequence) (λ r₂.
          then_reply (complete_acknowledgement r₂ frame.acknowledgement_sequence FrameType.response)
            (λ r₃.
              then_reply (accept_frame r₃ frame)
                (λ r₄. or_fault (publish_established_event (set_established r₄)))))))
      (λ r'. (Status.ok, FrameResult.accepted, r'))

unfoldable pub handle_expected_confirm : Cobs → Root → Frame → Handled
handle_expected_confirm cobs r frame =
    if r.session.handshake_phase isnt HandshakePhase.waiting_for_confirm
    then (Status.ok, FrameResult.stale, r)
    else by_acknowledgement (classify_acknowledgement r frame FrameType.response) r
        FrameResult.incompatible (accept_confirm cobs r frame)

unfoldable pub handle_rig_confirm : Cobs → Root → Frame → Handled
handle_rig_confirm cobs r frame =
    if frame.session_identifier != r.session.session_identifier
    then (Status.ok, FrameResult.incompatible, r)
    else by_sequence (classify_sequence r.session frame.sequence) r
        (handle_duplicate r frame (r.session.handshake_phase is HandshakePhase.established)
          (publish_acknowledgement cobs r frame.sequence))
        (handle_expected_confirm cobs r frame)
