-- ===== src/Receive.antt =====
-- src/transport/internal/mvp/transport_receive_mvp.c: received bytes, from the parser to the session.
-- This file has the checks and what becomes of a body that is not accepted; Dispatch has the
-- decoding of a body and Bytes the loop. The root is there, and enumerations are in range.
pub mod Dispatch
pub mod Bytes
pub mod Progress
pub mod Turns
pub mod Loop
pub mod Messages
pub mod Delivery
mod Tests
use hil_rig_protocol.Common.{
  ℕ, ◌+◌, ◌-◌, Bool, true, false, not, ◌&&◌, ◌||◌, ltb, ◌==◌, ◌!=◌, ◌is◌, ◌isnt◌, if◌then◌else◌,
  Enum, size_max,
}
use hil_rig_protocol.Types.{
  Status, status_enum, Role, role_enum, LinkState, link_state_enum, SessionState,
  session_state_enum, Failure, failure_enum, EventType, Event, session_seed_invalid,
  session_seed_reserved,
}
use hil_rig_protocol.Root.{
  Root, Reply, HandshakePhase, handshake_phase_enum, ControlOutputState, control_output_state_enum,
  OutputSelection, output_selection_enum,
}
use hil_rig_protocol.Parser.{peek_body}
use hil_rig_protocol.Codec.{Frame, raw_overhead}
use hil_rig_protocol.Codec.Cobs.{Cobs}
use hil_rig_protocol.Events
use hil_rig_protocol.Output.{is_faulted}
use hil_rig_protocol.Session.{
  enter_fault, completed_confirm_metadata_is_valid, recently_abandoned_metadata_is_valid,
  begin_establishment,
}
use hil_rig_protocol.Handshake.Recovery.{begin_local_recovery}

-- `HIL_Transport_Mvp_Receive_Body_Action_T`
pub data BodyAction : Type 0 where
  consume retain already_released : BodyAction

-- `HIL_Transport_Mvp_Receive_Body_Outcome_T`, with the endpoint.
abbrev pub Outcome : Type 0
Outcome = Status × BodyAction × Root

unfoldable pub fault : Root → Outcome
fault r = (Status.internal_error, BodyAction.already_released, (enter_fault r).1)

-- The checks on the root's fields. Its test of the abandoned session's metadata is the session's.
unfoldable pub root_is_inconsistent : Root → Bool
root_is_inconsistent r =
    ltb 1 r.receive_protocol_error_pending
    || ltb 1 r.recovery_reset_pending
    || not (recently_abandoned_metadata_is_valid r)
    || not (completed_confirm_metadata_is_valid r)
    || (r.session.role isnt r.base.role)
    || (r.session.link_state isnt r.base.link_state)
    || (r.session.state isnt r.base.session_state)
    || (r.session.last_failure isnt r.base.last_failure)
    || (r.base.config.max_application_message_size == 0)
    || (r.base.config.max_encoded_frame_size == 0)
    || ltb (size_max - raw_overhead) r.base.config.max_application_message_size
    || ltb r.codec_scratch_size (r.base.config.max_application_message_size + raw_overhead)
    || (r.parser.scratch_buffer_size != r.base.config.max_encoded_frame_size - 1)

unfoldable pub validate_root : Root → Reply
validate_root r =
    if is_faulted r
    then (Status.internal_error, r)
    else if root_is_inconsistent r
    then enter_fault r
    else let (parser_status, body, body_size) = peek_body r.parser in
      if (parser_status isnt Status.ok) && (parser_status isnt Status.not_ready)
      then enter_fault r
      else if (r.receive_protocol_error_pending != 0)
          && ((parser_status is Status.ok)
              || (r.parser.accumulated_size != 0)
              || (r.parser.discarding != 0))
      then enter_fault r
      else (Status.ok, r)

unfoldable pub protocol_error_event : Event
protocol_error_event = record {
  type = EventType.protocol_error;
  status = Status.not_ready;
  failure = Failure.protocol;
  required_capacity = 0;
}

-- Only a full event queue is no fault.
unfoldable pub report_published : Reply → Reply
report_published (Status.ok, r) = (Status.ok, r)
report_published (Status.capacity_exhausted, r) = (Status.capacity_exhausted, r)
report_published (status, r) = enter_fault r

unfoldable pub publish_protocol_error : Root → Reply
publish_protocol_error r = report_published (Events.publish r protocol_error_event)

unfoldable pub clear_pending_error : Reply → Reply
clear_pending_error (Status.ok, r) = (Status.ok, record r { receive_protocol_error_pending = 0 })
clear_pending_error (status, r) = (status, r)

unfoldable pub process_pending_error : Root → Reply
process_pending_error r =
    if r.receive_protocol_error_pending == 0
    then (Status.ok, r)
    else clear_pending_error (publish_protocol_error r)

-- Work of the session that ended is still there.
unfoldable pub recovery_is_blocked : Root → Bool
recovery_is_blocked r =
    (r.recovery_reset_pending != 0)
    || (r.control_output_state isnt ControlOutputState.idle)
    || (r.control_output_size != 0)
    || (r.output_selection isnt OutputSelection.none)
    || (r.receive_protocol_error_pending != 0)
    || (r.parser.body_ready != 0)
    || (r.parser.accumulated_size != 0)
    || (r.parser.discarding != 0)

unfoldable pub try_advance_recovery : Root → Reply
try_advance_recovery r =
    if (r.session.state isnt SessionState.recovering)
      || (r.base.session_state isnt SessionState.recovering)
    then (Status.ok, r)
    else if recovery_is_blocked r
    then (Status.ok, r)
    else begin_establishment r

unfoldable pub retain_reported : Reply → Outcome
retain_reported (Status.ok, r) = (Status.ok, BodyAction.consume, r)
retain_reported (Status.capacity_exhausted, r) = (Status.capacity_exhausted, BodyAction.retain, r)
retain_reported (status, r) = fault r

unfoldable pub reject_retained_body : Root → Outcome
reject_retained_body r = retain_reported (publish_protocol_error r)

unfoldable pub consume_reported : Reply → Outcome
consume_reported (Status.ok, r) = (Status.ok, BodyAction.consume, r)
consume_reported (Status.capacity_exhausted, r) =
    (Status.capacity_exhausted, BodyAction.consume, record r { receive_protocol_error_pending = 1 })
consume_reported (status, r) = fault r

unfoldable pub reject_obsolete_body : Root → Outcome
reject_obsolete_body r = consume_reported (publish_protocol_error r)

unfoldable pub frame_is_recently_abandoned : Root → Frame → Bool
frame_is_recently_abandoned r frame =
    (r.recently_abandoned_session_identifier_valid != 0)
    && (frame.session_identifier == r.recently_abandoned_session_identifier)
    && ((r.session.session_identifier_valid == 0)
        || (frame.session_identifier != r.session.session_identifier))

unfoldable pub rig_is_waiting_unbound_for_initiate : Root → Bool
rig_is_waiting_unbound_for_initiate r =
    (r.session.role is Role.rig)
    && (r.session.state is SessionState.connecting)
    && (r.session.handshake_phase is HandshakePhase.waiting_for_initiate)
    && (r.session.session_identifier_valid == 0)
    && (r.session.session_identifier == session_seed_invalid)

unfoldable pub frame_has_incompatible_session_identifier : Root → Frame → Bool
frame_has_incompatible_session_identifier r frame =
    (r.session.session_identifier_valid != 0)
    && (frame.session_identifier != r.session.session_identifier)

-- The checks on a RESET that is pending already.
unfoldable pub barrier_is_inconsistent : Root → Bool
barrier_is_inconsistent r =
    (r.recovery_reset_pending != 1)
    || (r.base.session_state isnt SessionState.recovering)
    || (r.session.state isnt SessionState.recovering)
    || (r.session.link_state isnt LinkState.connected)
    || (r.base.link_state isnt LinkState.connected)
    || (r.control_output_state is ControlOutputState.idle)
    || (r.recovery_reset_session_identifier == session_seed_invalid)
    || (r.recovery_reset_session_identifier == session_seed_reserved)

unfoldable pub note_error : Status → Root → Root
note_error Status.capacity_exhausted r = record r { receive_protocol_error_pending = 1 }
note_error event_status r = r

-- The tests on the status of the event and on that of the recovery.
unfoldable pub finish_recovery : Status → Reply → Outcome
finish_recovery event_status (recovery_status, r) =
    if (event_status is Status.internal_error) || (recovery_status is Status.internal_error)
    then fault r
    else if (event_status isnt Status.ok) && (event_status isnt Status.capacity_exhausted)
    then fault r
    else if (recovery_status isnt Status.ok) && (recovery_status isnt Status.capacity_exhausted)
    then fault r
    else (
      if (event_status is Status.capacity_exhausted)
            || (recovery_status is Status.capacity_exhausted)
          then Status.capacity_exhausted
          else Status.ok,
      BodyAction.already_released,
      note_error event_status r,
    )

unfoldable pub abandon_reported : Cobs → Reply → Outcome
abandon_reported cobs (event_status, r) =
    if r.recovery_reset_pending != 0
    then (if barrier_is_inconsistent r then fault r else consume_reported (event_status, r))
    else finish_recovery event_status (begin_local_recovery cobs r Failure.protocol)

unfoldable pub abandon_incompatible_session : Cobs → Root → Outcome
abandon_incompatible_session cobs r = abandon_reported cobs (publish_protocol_error r)
