-- ===== src/Handshake/Host.antt =====
-- The host's side of the handshake: the RESPONSE, the ACK of its CONFIRM, and an application message
-- in place of that ACK.
use hil_rig_protocol.Common.{
  ℕ, length, Bool, ◌&&◌, ◌||◌, ltb, ◌==◌, ◌!=◌, ◌is◌, ◌isnt◌, if◌then◌else◌,
}
use hil_rig_protocol.Types.{Status, status_enum, Role, role_enum, SessionState, session_state_enum}
use hil_rig_protocol.Root.{
  Root, Reply, HandshakePhase, handshake_phase_enum, FrameType, frame_type_enum, ReliableState,
  reliable_state_enum,
}
use hil_rig_protocol.Codec.{Frame}
use hil_rig_protocol.Sequence.{RxSequence, classify_sequence, rx_sequence_enum}
use hil_rig_protocol.Events
use hil_rig_protocol.Session.{enter_fault, completed_confirm_metadata_is_valid}
use hil_rig_protocol.Handshake.{
  FrameResult, Handled, then_reply, then_handle, or_fault, validate_root, set_phase,
  set_established, publish_established_event, classify_acknowledgement, complete_acknowledgement,
  handle_duplicate_response_work, by_sequence, handle_duplicate, by_acknowledgement, accept_frame,
}

-- `HIL_Transport_Mvp_Handshake_Application_Proof_Result_T`
pub data ApplicationProof : Type 0 where
  not_applicable accepted stale incompatible : ApplicationProof

unfoldable pub set_host_established : Root → ℕ → Root
set_host_established r completed_confirm_sequence =
    let r' = set_established r in
    record r' {
      session = record (r'.session) {
        completed_confirm_sequence = completed_confirm_sequence;
        completed_confirm_sequence_valid = 1;
      };
    }

unfoldable pub is_duplicate_final_host_acknowledgement : Root → Frame → Bool
is_duplicate_final_host_acknowledgement r frame =
    (frame.type is FrameType.ack)
    && completed_confirm_metadata_is_valid r
    && (r.base.role is Role.host)
    && (r.session.role is Role.host)
    && (r.base.session_state is SessionState.established)
    && (r.session.state is SessionState.established)
    && (r.session.handshake_phase is HandshakePhase.established)
    && (r.session.completed_confirm_sequence_valid == 1)
    && (r.session.session_identifier_valid == 1)
    && (frame.session_identifier == r.session.session_identifier)
    && (frame.acknowledgement_sequence == r.session.completed_confirm_sequence)

-- A RESPONSE of the sequence expected whose acknowledgement matches.
unfoldable pub accept_response : Root → Frame → Handled
accept_response r frame =
    then_handle
      (then_reply (complete_acknowledgement r frame.acknowledgement_sequence FrameType.initiate)
        (λ r'. accept_frame r' frame))
      (λ r'. (Status.ok, FrameResult.accepted, set_phase r' HandshakePhase.confirm_pending))

unfoldable pub handle_expected_response : Root → Frame → Handled
handle_expected_response r frame =
    if r.session.handshake_phase isnt HandshakePhase.waiting_for_response
    then (Status.ok, FrameResult.stale, r)
    else by_acknowledgement (classify_acknowledgement r frame FrameType.initiate) r
        FrameResult.incompatible (accept_response r frame)

unfoldable pub handle_host_response : Root → Frame → Handled
handle_host_response r frame =
    if frame.session_identifier != r.session.session_identifier
    then (Status.ok, FrameResult.incompatible, r)
    else by_sequence (classify_sequence r.session frame.sequence) r
        (handle_duplicate r frame
          ((r.session.handshake_phase is HandshakePhase.confirm_pending)
            || (r.session.handshake_phase is HandshakePhase.waiting_for_confirm_ack))
          (handle_duplicate_response_work r FrameType.confirm))
        (handle_expected_response r frame)

-- The end of both ways in which a host gets established, from the capacity check on.
unfoldable pub establish_host : Root → ℕ → Reply
establish_host r acknowledgement_sequence = then_reply (Events.check_capacity r) (λ r₁.
    then_reply (complete_acknowledgement r₁ acknowledgement_sequence FrameType.confirm) (λ r₂.
      or_fault (
        publish_established_event (set_host_established r₂ r₁.session.retained_transmit_sequence))))

unfoldable pub handle_host_ack : Root → Frame → Handled
handle_host_ack r frame =
    if frame.session_identifier != r.session.session_identifier
    then (Status.ok, FrameResult.incompatible, r)
    else if r.session.handshake_phase isnt HandshakePhase.waiting_for_confirm_ack
    then (Status.ok, FrameResult.stale, r)
    else by_acknowledgement (classify_acknowledgement r frame FrameType.confirm) r FrameResult.stale
        (then_handle (establish_host r frame.acknowledgement_sequence)
          (λ r'. (Status.ok, FrameResult.accepted, r')))

-- The end of `try_complete_host_from_application`.
unfoldable pub report_proof : Reply → Status × ApplicationProof × Root
report_proof (Status.ok, r) = (Status.ok, ApplicationProof.accepted, r)
report_proof (status, r) = (status, ApplicationProof.not_applicable, r)

-- It, for a host that waits for the ACK of its CONFIRM, and a frame of its session.
unfoldable pub prove_from_application : Root → Frame → Status × ApplicationProof × Root
prove_from_application r frame =
    let (status, sequence_result) = classify_sequence r.session frame.sequence in
    if status isnt Status.ok
    then (let (failed, r') = enter_fault r in (failed, ApplicationProof.not_applicable, r'))
    else if sequence_result isnt RxSequence.expected
    then (Status.ok, ApplicationProof.incompatible, r)
    else if r.session.retained_reliable_frame_type isnt FrameType.confirm
    then (let (failed, r') = enter_fault r in (failed, ApplicationProof.not_applicable, r'))
    else if (r.session.reliable_state is ReliableState.peeked)
        || (r.session.reliable_state is ReliableState.retransmit_peeked)
    then (Status.capacity_exhausted, ApplicationProof.not_applicable, r)
    else if (r.session.reliable_state isnt ReliableState.awaiting_ack)
        && (r.session.reliable_state isnt ReliableState.retransmit_ready)
    then (Status.ok, ApplicationProof.incompatible, r)
    else report_proof (establish_host r r.session.retained_transmit_sequence)

unfoldable pub try_complete_host_from_application : Root → Frame → Status × ApplicationProof × Root
try_complete_host_from_application r frame =
    if frame.type isnt FrameType.application_message
    then (Status.invalid_argument, ApplicationProof.not_applicable, r)
    else let (status, r') = validate_root r in
      if status isnt Status.ok
      then (Status.internal_error, ApplicationProof.not_applicable, r')
      else if (r'.session.role isnt Role.host)
          || (r'.session.state isnt SessionState.connecting)
          || (r'.session.handshake_phase isnt HandshakePhase.waiting_for_confirm_ack)
      then (Status.ok, ApplicationProof.not_applicable, r')
      else if frame.session_identifier != r'.session.session_identifier
      then (Status.ok, ApplicationProof.incompatible, r')
      else if (length frame.payload == 0)
          || ltb r'.base.config.max_application_message_size (length frame.payload)
          || (frame.acknowledgement_sequence != 0)
      then (Status.ok, ApplicationProof.incompatible, r')
      else prove_from_application r' frame
