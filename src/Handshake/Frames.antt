-- ===== src/Handshake/Frames.antt =====
-- The entry points of the handshake: publishing what is pending, and the dispatch of a frame.
use hil_rig_protocol.Common.{length, Bool, not, ◌&&◌, ◌||◌, ◌==◌, ◌!=◌, ◌is◌, ◌isnt◌, if◌then◌else◌}
use hil_rig_protocol.Types.{
  Status, status_enum, Role, role_enum, LinkState, link_state_enum, SessionState,
  session_state_enum, Failure,
}
use hil_rig_protocol.Root.{
  Root, Reply, HandshakePhase, handshake_phase_enum, FrameType, frame_type_enum,
}
use hil_rig_protocol.Codec.{Frame}
use hil_rig_protocol.Codec.Cobs.{Cobs}
use hil_rig_protocol.Output.{is_faulted}
use hil_rig_protocol.Session.{enter_fault, abandon, begin_establishment}
use hil_rig_protocol.Handshake.{
  FrameResult, Handled, then_handle, validate_root, session_identifier_is_valid, publish_reliable,
}
use hil_rig_protocol.Handshake.Host.{handle_host_response, handle_host_ack}
use hil_rig_protocol.Handshake.Rig.{handle_rig_initiate, handle_rig_confirm}

-- A connected endpoint whose session a RESET has ended starts the next establishment at once.
unfoldable pub reestablish : Reply → Handled
reestablish (status, r) =
    if (status isnt Status.ok) && (status isnt Status.capacity_exhausted)
    then (status, FrameResult.incompatible, r)
    else if r.session.link_state is LinkState.connected
    then then_handle (begin_establishment r) (λ r'. (status, FrameResult.accepted, r'))
    else (status, FrameResult.accepted, r)

unfoldable pub handle_reset : Root → Frame → Handled
handle_reset r frame =
    if (frame.sequence != 0)
      || (frame.acknowledgement_sequence != 0)
      || not (session_identifier_is_valid frame.session_identifier)
    then (Status.ok, FrameResult.incompatible, r)
    else if r.session.session_identifier_valid == 0
    then (Status.ok, FrameResult.stale, r)
    else if frame.session_identifier != r.session.session_identifier
    then (Status.ok, FrameResult.incompatible, r)
    else reestablish (abandon r Failure.protocol)

-- The phases in which a frame is to be published.
unfoldable pub is_pending : HandshakePhase → Bool
is_pending phase =
    (phase is HandshakePhase.initiate_pending)
    || (phase is HandshakePhase.response_pending)
    || (phase is HandshakePhase.confirm_pending)

unfoldable pub publish_pending : Cobs → HandshakePhase → Root → Reply
publish_pending cobs HandshakePhase.initiate_pending r =
    if r.session.role isnt Role.host
    then enter_fault r
    else publish_reliable cobs r FrameType.initiate 0 HandshakePhase.waiting_for_response
publish_pending cobs HandshakePhase.response_pending r =
    if r.session.role isnt Role.rig
    then enter_fault r
    else publish_reliable cobs r FrameType.response r.session.last_accepted_receive_sequence
        HandshakePhase.waiting_for_confirm
publish_pending cobs HandshakePhase.confirm_pending r =
    if r.session.role isnt Role.host
    then enter_fault r
    else publish_reliable cobs r FrameType.confirm r.session.last_accepted_receive_sequence
        HandshakePhase.waiting_for_confirm_ack
publish_pending cobs phase r = (Status.ok, r)

unfoldable pub process : Cobs → Root → Reply
process cobs r =
    if is_faulted r
    then (Status.internal_error, r)
    else let (status, r') = validate_root r in
      if status isnt Status.ok
      then (status, r')
      else if is_pending r'.session.handshake_phase
          && ((r'.session.link_state isnt LinkState.connected)
              || (r'.session.state isnt SessionState.connecting)
              || (r'.session.session_identifier_valid == 0)
              || not (session_identifier_is_valid r'.session.session_identifier))
      then enter_fault r'
      else publish_pending cobs r'.session.handshake_phase r'

unfoldable pub dispatch_host : Root → FrameType → Frame → Handled
dispatch_host r FrameType.response frame = handle_host_response r frame
dispatch_host r FrameType.ack frame =
    if frame.sequence == 0
    then handle_host_ack r frame
    else (Status.ok, FrameResult.incompatible, r)
dispatch_host r type frame = (Status.ok, FrameResult.incompatible, r)

unfoldable pub dispatch_rig : Cobs → Root → FrameType → Frame → Handled
dispatch_rig cobs r FrameType.initiate frame = handle_rig_initiate r frame
dispatch_rig cobs r FrameType.confirm frame = handle_rig_confirm cobs r frame
dispatch_rig cobs r type frame = (Status.ok, FrameResult.incompatible, r)

unfoldable pub dispatch_role : Cobs → Role → Root → Frame → Handled
dispatch_role cobs Role.host r frame = dispatch_host r frame.type frame
dispatch_role cobs Role.rig r frame = dispatch_rig cobs r frame.type frame

unfoldable pub handle_frame : Cobs → Root → Frame → Handled
handle_frame cobs r frame =
    if is_faulted r
    then (Status.internal_error, FrameResult.incompatible, r)
    else let (status, r') = validate_root r in
      if status isnt Status.ok
      then (Status.internal_error, FrameResult.incompatible, r')
      else if length frame.payload != 0
      then (Status.ok, FrameResult.incompatible, r')
      else if frame.type is FrameType.reset
      then handle_reset r' frame
      else dispatch_role cobs r'.session.role r' frame
