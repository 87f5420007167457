-- ===== src/Profile.antt =====
-- src/transport/internal/mvp/transport_profile_mvp.c: the operations that the public interface of
-- src/transport/transport.c passes on. The context was initialised, so that it gives the root, and
-- enumerations are in range; null output parameters have no case. Init has the initialisation.
pub mod Init
pub mod Initial
pub mod Sizes
pub mod Tests
use hil_rig_protocol.Common.{
  ℕ, List, Bool, not, ◌&&◌, ◌||◌, ltb, leb, ◌==◌, ◌!=◌, ◌is◌, ◌isnt◌, if◌then◌else◌, Enum, Option,
  none, some,
}
use hil_rig_protocol.Types.{
  Status, status_enum, Role, role_enum, LinkState, link_state_enum, SessionState,
  session_state_enum, Failure, failure_enum, session_seed_invalid, session_seed_reserved,
}
use hil_rig_protocol.Root.{
  Root, Reply, OperatingMode, HandshakePhase, handshake_phase_enum, handshake_phase_value,
  FrameType, frame_type_enum, ReliableState, reliable_state_enum, ControlOutputState,
  control_output_state_enum, OutputSelection, output_selection_enum, control_output_capacity,
  record_fault,
}
use hil_rig_protocol.Codec.Cobs.{Cobs}
use hil_rig_protocol.Control
use hil_rig_protocol.Reliability
use hil_rig_protocol.Reliability.{Outcome, outcome_enum}
use hil_rig_protocol.Output
use hil_rig_protocol.Output.{is_faulted}
use hil_rig_protocol.Events
use hil_rig_protocol.Session.{
  enter_fault, explicit_reset, begin_establishment, completed_confirm_metadata_is_valid,
}
use hil_rig_protocol.Handshake.{then_reply, session_identifier_is_valid}
use hil_rig_protocol.Handshake.Frames as Frames
use hil_rig_protocol.Handshake.Recovery.{publish_reset, begin_local_recovery}
use hil_rig_protocol.Application
use hil_rig_protocol.Application.{handle_retry_exhaustion}
use hil_rig_protocol.Receive.Bytes.{enter_receive}

unfoldable pub has_trustworthy_active_session : Root → Bool
has_trustworthy_active_session r =
    (r.base.role is r.session.role)
    && (r.session.link_state is LinkState.connected)
    && (r.base.link_state is r.session.link_state)
    && (r.session.link_state_observed == 1)
    && ((r.session.state is SessionState.connecting)
        || (r.session.state is SessionState.established))
    && (r.base.session_state is r.session.state)
    && (r.base.last_failure is r.session.last_failure)
    && completed_confirm_metadata_is_valid r
    && (r.session.session_identifier_valid == 1)
    && session_identifier_is_valid r.session.session_identifier
    && (((r.session.state is SessionState.established)
          && (r.session.handshake_phase is HandshakePhase.established))
        || ((r.session.state is SessionState.connecting)
            && ltb (handshake_phase_value HandshakePhase.waiting_for_initiate)
                (handshake_phase_value r.session.handshake_phase)
            && ltb (handshake_phase_value r.session.handshake_phase)
                (handshake_phase_value HandshakePhase.established)))

unfoldable pub control_state_is_coherent : Root → Bool
control_state_is_coherent r =
    ((r.control_output_state is ControlOutputState.ready)
      && (r.output_selection is OutputSelection.none))
    || ((r.control_output_state is ControlOutputState.peeked)
        && (r.output_selection is OutputSelection.control))

unfoldable pub has_trustworthy_pending_recovery_reset : Root → Bool
has_trustworthy_pending_recovery_reset r =
    (r.recovery_reset_pending == 1)
    && session_identifier_is_valid r.recovery_reset_session_identifier
    && (r.base.role is r.session.role)
    && (r.session.link_state is LinkState.connected)
    && (r.base.link_state is r.session.link_state)
    && (r.session.link_state_observed == 1)
    && (r.session.state is SessionState.recovering)
    && (r.base.session_state is SessionState.recovering)
    && (r.base.last_failure is r.session.last_failure)
    && (r.session.session_identifier_valid == 0)
    && (r.session.session_identifier == session_seed_invalid)
    && (r.session.handshake_phase is HandshakePhase.inactive)
    && (r.session.reliable_state is ReliableState.idle)
    && (r.session.retained_reliable_frame_type is FrameType.invalid)
    && ltb 0 r.control_output_size
    && leb r.control_output_size control_output_capacity
    && control_state_is_coherent r

-- The identifier that the peer is told of, if any.
unfoldable pub identifier_to_reset : Root → Option ℕ
identifier_to_reset r =
    if has_trustworthy_pending_recovery_reset r
    then some r.recovery_reset_session_identifier
    else if has_trustworthy_active_session r
    then some r.session.session_identifier
    else none

unfoldable pub raise_barrier : ℕ → Reply → Reply
raise_barrier identifier (Status.ok, r) = (
  Status.ok,
  record r { recovery_reset_pending = 1; recovery_reset_session_identifier = identifier },
)
raise_barrier identifier (status, r) = enter_fault r

unfoldable pub notify_peer : Cobs → Option ℕ → Root → Reply
notify_peer cobs none r = (Status.ok, r)
notify_peer cobs (some identifier) r = raise_barrier identifier (
    publish_reset cobs
      (record r {
        recently_abandoned_session_identifier = identifier;
        recently_abandoned_session_identifier_valid = 1;
      })
      identifier)

unfoldable pub reset : Cobs → Root → Reply
reset cobs r = then_reply (explicit_reset r) (notify_peer cobs (identifier_to_reset r))

-- A body or a diagnostic that was left over.
unfoldable pub resolve_receive : Cobs → Root → Reply
resolve_receive cobs r =
    if (r.receive_protocol_error_pending != 0) || (r.parser.body_ready != 0)
    then enter_receive cobs r
    else (Status.ok, r)

-- The steps of `process` from the handshake on.
unfoldable pub handle_exhausted : Cobs → FrameType → Root → Reply
handle_exhausted cobs FrameType.application_message r = handle_retry_exhaustion cobs r
handle_exhausted cobs FrameType.initiate r = begin_local_recovery cobs r Failure.delivery
handle_exhausted cobs FrameType.response r = begin_local_recovery cobs r Failure.delivery
handle_exhausted cobs FrameType.confirm r = begin_local_recovery cobs r Failure.delivery
handle_exhausted cobs type r = (Status.ok, r)

unfoldable pub process_reliable : Cobs → ℕ → Root → Reply
process_reliable cobs now_ms r =
    let (status, outcome, r') = Reliability.process_pending r now_ms in
    if status isnt Status.ok
    then (status, r')
    else if (outcome is Outcome.retries_exhausted)
        || (r'.session.reliable_state is ReliableState.exhausted)
    then handle_exhausted cobs r'.session.retained_reliable_frame_type r'
    else (Status.ok, r')

unfoldable pub process_delivery : Cobs → ℕ → Root → Reply
process_delivery cobs now_ms r = then_reply (Frames.process cobs r) (process_reliable cobs now_ms)

-- A session that is over is started again once nothing of it is in the way.
unfoldable pub process_recovering : Cobs → ℕ → Root → Reply
process_recovering cobs now_ms r =
    let (status, control_pending, r') = Control.get_pending_status r in
    if status isnt Status.ok
    then (status, r')
    else if control_pending || (r'.parser.accumulated_size != 0) || (r'.parser.discarding != 0)
    then (Status.ok, r')
    else then_reply (begin_establishment r') (process_delivery cobs now_ms)

unfoldable pub process_session : Cobs → ℕ → Root → Reply
process_session cobs now_ms r =
    if (r.base.session_state is SessionState.recovering)
      || (r.session.state is SessionState.recovering)
    then (if r.base.session_state isnt r.session.state
        then (Status.internal_error, record_fault r)
        else process_recovering cobs now_ms r)
    else process_delivery cobs now_ms r

unfoldable pub set_operating_mode : Root → OperatingMode → Root
set_operating_mode r operating_mode = record r {
  base = record (r.base) { operating_mode = operating_mode; operating_mode_valid = 1 };
}

unfoldable pub process : Cobs → Root → ℕ → OperatingMode → Reply
process cobs r now_ms operating_mode =
    let r' = set_operating_mode r operating_mode in
    if is_faulted r'
    then (Status.internal_error, r')
    else if r'.base.link_state isnt r'.session.link_state
    then (Status.internal_error, record_fault r')
    else if r'.base.link_state is LinkState.disconnected
    then (Status.ok, r')
    else then_reply (resolve_receive cobs r') (process_session cobs now_ms)

-- `HIL_Transport_Status_Snapshot_T`
pub record Snapshot : Type 0 where
  pub role : Role
  pub link_state : LinkState
  pub session_state : SessionState
  pub operating_mode : OperatingMode
  pub operating_mode_valid : ℕ
  pub output_pending : Bool
  pub application_message_pending : ℕ
  pub event_pending : Bool
  pub reliable_delivery_pending : Bool
  pub last_failure : Failure

-- The state, the mode and the failure are in range.
unfoldable pub validate_status_metadata : Root → Reply
validate_status_metadata r =
    if (r.session.role isnt r.base.role)
      || (r.session.link_state isnt r.base.link_state)
      || (r.session.state isnt r.base.session_state)
      || ltb 1 r.base.operating_mode_valid
      || (r.session.last_failure isnt r.base.last_failure)
      || not (completed_confirm_metadata_is_valid r)
    then enter_fault r
    else (Status.ok, r)

-- A refusal leaves the snapshot zeroed: `none`.
abbrev pub Reported : Type 0
Reported = Status × Option Snapshot × Root

unfoldable pub take_snapshot : Root → Bool → ℕ → Bool → Bool → Snapshot
take_snapshot r output_pending application_message_pending event_pending delivery_pending = record {
  role = r.base.role;
  link_state = r.base.link_state;
  session_state = r.base.session_state;
  operating_mode = r.base.operating_mode;
  operating_mode_valid = r.base.operating_mode_valid;
  output_pending = output_pending;
  application_message_pending = application_message_pending;
  event_pending = event_pending;
  reliable_delivery_pending = delivery_pending;
  last_failure = r.base.last_failure;
}

unfoldable pub get_status : Root → Reported
get_status r =
    let (checked, r₁) = validate_status_metadata r in
    if checked isnt Status.ok
    then (checked, none, r₁)
    else let (status, output_pending, delivery_pending, r₂) = Output.get_pending_status r₁ in
      if status isnt Status.ok
      then (status, none, r₂)
      else let (received, message_pending, r₃) = Application.get_pending_status r₂ in
        if received isnt Status.ok
        then (received, none, r₃)
        else let (queued, event_pending, r₄) = Events.get_pending_status r₃ in
          if queued isnt Status.ok then (queued, none, r₄) else (
            Status.ok,
            some (take_snapshot r₄ output_pending message_pending event_pending delivery_pending),
            r₄,
          )
