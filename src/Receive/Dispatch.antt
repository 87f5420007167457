-- ===== src/Receive/Dispatch.antt =====
-- A retained body: its decoding, and the handler for its frame.
use hil_rig_protocol.Common.{take, ◌&&◌, ◌!=◌, ◌is◌, ◌isnt◌, if◌then◌else◌, none, some}
use hil_rig_protocol.Types.{Status, status_enum, SessionState, session_state_enum}
use hil_rig_protocol.Root.{Root, Reply, FrameType, frame_type_enum}
use hil_rig_protocol.Parser
use hil_rig_protocol.Codec.{Frame, DecodeResult, Decoded}
use hil_rig_protocol.Codec.Cobs.{Cobs}
use hil_rig_protocol.Codec.Decode.{decode_frame_view}
use hil_rig_protocol.Session.{enter_fault}
use hil_rig_protocol.Handshake
use hil_rig_protocol.Handshake.Host.{
  ApplicationProof, is_duplicate_final_host_acknowledgement, try_complete_host_from_application,
}
use hil_rig_protocol.Handshake.Frames.{handle_frame}
use hil_rig_protocol.Application
use hil_rig_protocol.Application.{handle_acknowledgement}
use hil_rig_protocol.Application.Deliver.{handle_received_frame}
use hil_rig_protocol.Receive.{
  BodyAction, Outcome, fault, reject_retained_body, reject_obsolete_body,
  frame_is_recently_abandoned, rig_is_waiting_unbound_for_initiate,
  frame_has_incompatible_session_identifier, abandon_incompatible_session,
}

-- A body that the end of its session has cleared away is left alone.
unfoldable pub unless_released : Root → BodyAction → BodyAction
unless_released r action = if r.parser.body_ready != 0 then action else BodyAction.already_released

unfoldable pub finish_handshake : Cobs → Handshake.Handled → Outcome
finish_handshake cobs (Status.capacity_exhausted, result, r) =
    (Status.capacity_exhausted, unless_released r BodyAction.retain, r)
finish_handshake cobs (Status.ok, Handshake.FrameResult.accepted, r) =
    (Status.ok, unless_released r BodyAction.consume, r)
finish_handshake cobs (Status.ok, Handshake.FrameResult.duplicate, r) =
    (Status.ok, unless_released r BodyAction.consume, r)
finish_handshake cobs (Status.ok, Handshake.FrameResult.stale, r) = reject_retained_body r
finish_handshake cobs (Status.ok, Handshake.FrameResult.incompatible, r) =
    abandon_incompatible_session cobs r
finish_handshake cobs (status, result, r) = fault r

unfoldable pub dispatch_handshake_frame : Cobs → Root → Frame → Outcome
dispatch_handshake_frame cobs r frame = finish_handshake cobs (handle_frame cobs r frame)

unfoldable pub finish_acknowledgement : Cobs → Application.HandledAck → Outcome
finish_acknowledgement cobs (Status.capacity_exhausted, result, r) =
    (Status.capacity_exhausted, BodyAction.retain, r)
finish_acknowledgement cobs (Status.ok, Application.AckResult.accepted, r) =
    (Status.ok, BodyAction.consume, r)
finish_acknowledgement cobs (Status.ok, Application.AckResult.stale, r) = reject_retained_body r
finish_acknowledgement cobs (Status.ok, Application.AckResult.incompatible, r) =
    abandon_incompatible_session cobs r
finish_acknowledgement cobs (status, result, r) = fault r

unfoldable pub dispatch_acknowledgement : Cobs → Root → Frame → Outcome
dispatch_acknowledgement cobs r frame =
    if r.session.retained_reliable_frame_type is FrameType.application_message
    then finish_acknowledgement cobs (handle_acknowledgement r frame)
    else if (r.base.session_state is SessionState.established)
        && (r.session.state is SessionState.established)
    then (if is_duplicate_final_host_acknowledgement r frame
        then (Status.ok, BodyAction.consume, r)
        else reject_retained_body r)
    else dispatch_handshake_frame cobs r frame

unfoldable pub finish_message : Cobs → Status × Application.FrameResult × Root → Outcome
finish_message cobs (Status.capacity_exhausted, result, r) =
    (Status.capacity_exhausted, BodyAction.retain, r)
finish_message cobs (Status.ok, Application.FrameResult.accepted, r) =
    (Status.ok, BodyAction.consume, r)
finish_message cobs (Status.ok, Application.FrameResult.duplicate, r) =
    (Status.ok, BodyAction.consume, r)
finish_message cobs (Status.ok, Application.FrameResult.stale, r) = reject_retained_body r
finish_message cobs (Status.ok, Application.FrameResult.incompatible, r) =
    abandon_incompatible_session cobs r
finish_message cobs (status, result, r) = fault r

-- What follows on the host's proof.
unfoldable pub finish_proof : Cobs → Frame → Status × ApplicationProof × Root → Outcome
finish_proof cobs frame (Status.capacity_exhausted, result, r) =
    (Status.capacity_exhausted, BodyAction.retain, r)
finish_proof cobs frame (Status.ok, ApplicationProof.stale, r) = reject_retained_body r
finish_proof cobs frame (Status.ok, ApplicationProof.incompatible, r) =
    abandon_incompatible_session cobs r
finish_proof cobs frame (Status.ok, ApplicationProof.accepted, r) =
    finish_message cobs (handle_received_frame cobs r frame)
finish_proof cobs frame (Status.ok, ApplicationProof.not_applicable, r) =
    finish_message cobs (handle_received_frame cobs r frame)
finish_proof cobs frame (status, result, r) = fault r

unfoldable pub dispatch_message : Cobs → Root → Frame → Outcome
dispatch_message cobs r frame = finish_proof cobs frame (try_complete_host_from_application r frame)

-- The `switch` on the frame's type.
unfoldable pub dispatch_type : Cobs → FrameType → Root → Frame → Outcome
dispatch_type cobs FrameType.initiate r frame = dispatch_handshake_frame cobs r frame
dispatch_type cobs FrameType.response r frame = dispatch_handshake_frame cobs r frame
dispatch_type cobs FrameType.confirm r frame = dispatch_handshake_frame cobs r frame
dispatch_type cobs FrameType.reset r frame = dispatch_handshake_frame cobs r frame
dispatch_type cobs FrameType.ack r frame = dispatch_acknowledgement cobs r frame
dispatch_type cobs FrameType.application_message r frame = dispatch_message cobs r frame
dispatch_type cobs FrameType.invalid r frame = fault r

unfoldable pub dispatch_frame : Cobs → Root → Frame → Outcome
dispatch_frame cobs r frame =
    if frame_is_recently_abandoned r frame
    then reject_obsolete_body r
    else if rig_is_waiting_unbound_for_initiate r && (frame.type isnt FrameType.initiate)
    then reject_obsolete_body r
    else if frame_has_incompatible_session_identifier r frame
    then abandon_incompatible_session cobs r
    else dispatch_type cobs frame.type r frame

unfoldable pub by_decoded : Cobs → Decoded → Root → Outcome
by_decoded cobs (Status.message_too_large, result, frame) r = reject_retained_body r
by_decoded cobs (Status.ok, DecodeResult.valid, some frame) r = dispatch_frame cobs r frame
by_decoded cobs (Status.ok, DecodeResult.valid, none) r = fault r
by_decoded cobs (Status.ok, DecodeResult.malformed, frame) r = reject_retained_body r
by_decoded cobs (Status.ok, DecodeResult.integrity_invalid, frame) r = reject_retained_body r
by_decoded cobs (Status.ok, DecodeResult.session_incompatible, frame) r =
    if r.session.session_identifier_valid != 0
    then abandon_incompatible_session cobs r
    else reject_retained_body r
by_decoded cobs (status, result, frame) r = fault r

unfoldable pub decode_retained_body : Cobs → Root → Outcome
decode_retained_body cobs r =
    let (status, body, body_size) = Parser.peek_body r.parser in
    if status isnt Status.ok
    then fault r
    else by_decoded cobs
        (decode_frame_view cobs (take body_size body) r.codec_scratch_size
          r.base.config.max_application_message_size)
        r

unfoldable pub consume_body : Status → Root → Reply
consume_body body_status r =
    let (status, p) = Parser.consume_body r.parser in
    if status isnt Status.ok then enter_fault r else (body_status, record r { parser = p })

unfoldable pub finish_body : Outcome → Reply
finish_body (status, BodyAction.retain, r) = (status, r)
finish_body (status, BodyAction.already_released, r) = (status, r)
finish_body (status, BodyAction.consume, r) = consume_body status r

unfoldable pub process_retained_body : Cobs → Root → Reply
process_retained_body cobs r = finish_body (decode_retained_body cobs r)
