-- ===== src/Root.antt =====
-- src/transport/internal/mvp/transport_types_mvp.h and transport_internal.h: the private state of an
-- endpoint. A byte region is the list of its bytes, and `size` fields say how many of them are owned.
-- Pointers that initialisation sets to the workspace are never null.
use hil_rig_protocol.Common.{ℕ, List, Option, Enum}
use hil_rig_protocol.Types.{Status, Role, LinkState, SessionState, Failure, Event}
use hil_rig_protocol.Parser.{Parser}

-- `HIL_Transport_Mvp_Handshake_Phase_T`
pub data HandshakePhase : Type 0 where
  inactive waiting_for_initiate initiate_pending waiting_for_response response_pending
        waiting_for_confirm confirm_pending waiting_for_confirm_ack established :
      HandshakePhase

abbrev pub handshake_phase_value : HandshakePhase → ℕ
handshake_phase_value HandshakePhase.inactive = 0
handshake_phase_value HandshakePhase.waiting_for_initiate = 1
handshake_phase_value HandshakePhase.initiate_pending = 2
handshake_phase_value HandshakePhase.waiting_for_response = 3
handshake_phase_value HandshakePhase.response_pending = 4
handshake_phase_value HandshakePhase.waiting_for_confirm = 5
handshake_phase_value HandshakePhase.confirm_pending = 6
handshake_phase_value HandshakePhase.waiting_for_confirm_ack = 7
handshake_phase_value HandshakePhase.established = 8

instance abbrev pub handshake_phase_enum : Enum HandshakePhase
handshake_phase_enum = record { value = handshake_phase_value }

-- `HIL_Transport_Mvp_Frame_Type_T`
pub data FrameType : Type 0 where
  invalid initiate response confirm application_message ack reset : FrameType

abbrev pub frame_type_value : FrameType → ℕ
frame_type_value FrameType.invalid = 0
frame_type_value FrameType.initiate = 1
frame_type_value FrameType.response = 2
frame_type_value FrameType.confirm = 3
frame_type_value FrameType.application_message = 4
frame_type_value FrameType.ack = 5
frame_type_value FrameType.reset = 6

instance abbrev pub frame_type_enum : Enum FrameType
frame_type_enum = record { value = frame_type_value }

-- `HIL_Transport_Mvp_Reliable_State_T`
pub data ReliableState : Type 0 where
  idle ready peeked awaiting_ack retransmit_ready retransmit_peeked exhausted : ReliableState

abbrev pub reliable_state_value : ReliableState → ℕ
reliable_state_value ReliableState.idle = 0
reliable_state_value ReliableState.ready = 1
reliable_state_value ReliableState.peeked = 2
reliable_state_value ReliableState.awaiting_ack = 3
reliable_state_value ReliableState.retransmit_ready = 4
reliable_state_value ReliableState.retransmit_peeked = 5
reliable_state_value ReliableState.exhausted = 6

instance abbrev pub reliable_state_enum : Enum ReliableState
reliable_state_enum = record { value = reliable_state_value }

-- `HIL_Transport_Mvp_Control_Output_State_T`
pub data ControlOutputState : Type 0 where
  idle ready peeked : ControlOutputState

abbrev pub control_output_state_value : ControlOutputState → ℕ
control_output_state_value ControlOutputState.idle = 0
control_output_state_value ControlOutputState.ready = 1
control_output_state_value ControlOutputState.peeked = 2

instance abbrev pub control_output_state_enum : Enum ControlOutputState
control_output_state_enum = record { value = control_output_state_value }

-- `HIL_Transport_Mvp_Output_Selection_T`
pub data OutputSelection : Type 0 where
  none reliable control : OutputSelection

abbrev pub output_selection_value : OutputSelection → ℕ
output_selection_value OutputSelection.none = 0
output_selection_value OutputSelection.reliable = 1
output_selection_value OutputSelection.control = 2

instance abbrev pub output_selection_enum : Enum OutputSelection
output_selection_enum = record { value = output_selection_value }

-- `HIL_TRANSPORT_MVP_CONTROL_OUTPUT_CAPACITY` and `HIL_TRANSPORT_MVP_EVENT_QUEUE_CAPACITY`
abbrev pub control_output_capacity : ℕ
control_output_capacity = 20

abbrev pub event_queue_capacity : ℕ
event_queue_capacity = 4

-- `HIL_Transport_Config_T`
pub record Config : Type 0 where
  pub max_application_message_size : ℕ
  pub max_encoded_frame_size : ℕ
  pub session_seed : ℕ
  pub initial_reliable_sequence : ℕ
  pub connection_timeout_ms : ℕ
  pub retransmit_timeout_ms : ℕ
  pub max_retries : ℕ

-- `HIL_Transport_Operating_Mode_T`
pub data OperatingMode : Type 0 where
  normal bulk_transfer quiet_real_time : OperatingMode

-- `HIL_Transport_Internal_State_T`
pub record InternalState : Type 0 where
  pub config : Config
  pub role : Role
  pub link_state : LinkState
  pub session_state : SessionState
  pub operating_mode : OperatingMode
  pub operating_mode_valid : ℕ
  pub last_failure : Failure

-- `HIL_Transport_Mvp_Session_T`
pub record Session : Type 0 where
  pub role : Role
  pub link_state : LinkState
  pub link_state_observed : ℕ
  pub state : SessionState
  pub handshake_phase : HandshakePhase
  pub session_identifier : ℕ
  pub session_identifier_valid : ℕ
  pub completed_confirm_sequence : ℕ
  pub completed_confirm_sequence_valid : ℕ
  pub next_host_session_identifier : ℕ
  pub initial_reliable_sequence : ℕ
  pub next_transmit_sequence : ℕ
  pub expected_receive_sequence : ℕ
  pub retained_transmit_sequence : ℕ
  pub retained_reliable_frame_type : FrameType
  pub last_accepted_receive_sequence : ℕ
  pub accepted_receive_sequence_valid : ℕ
  pub last_accepted_receive_frame_type : FrameType
  pub last_accepted_receive_acknowledgement_sequence : ℕ
  pub reliable_state : ReliableState
  pub retransmissions_committed : ℕ
  pub reliable_last_committed_ms : ℕ
  pub last_valid_receive_ms : ℕ
  pub last_failure : Failure

-- `HIL_Transport_Mvp_Root_T`, less the bytes of the codec's scratch region: they outlive no call.
pub record Root : Type 0 where
  pub base : InternalState
  pub session : Session
  pub parser : Parser
  pub submitted_message : List ℕ
  pub submitted_message_size : ℕ
  pub submitted_message_pending : ℕ
  pub encoded_output : List ℕ
  pub encoded_output_capacity : ℕ
  pub encoded_output_size : ℕ
  pub output_selection : OutputSelection
  pub control_output : List ℕ
  pub control_output_size : ℕ
  pub control_output_state : ControlOutputState
  pub recovery_reset_pending : ℕ
  pub recovery_reset_session_identifier : ℕ
  pub recently_abandoned_session_identifier : ℕ
  pub recently_abandoned_session_identifier_valid : ℕ
  pub codec_scratch_size : ℕ
  pub received_message : List ℕ
  pub received_message_size : ℕ
  pub received_message_pending : ℕ
  pub receive_protocol_error_pending : ℕ
  pub event_queue : List Event
  pub event_read_index : ℕ
  pub event_count : ℕ

-- A call that reports a status and leaves the endpoint in some state.
abbrev pub Reply : Type 0
Reply = Status × Root

-- What a peek leaves: its status, the caller's buffer (`none` for a null pointer), the size that it
-- reports and the endpoint.
pub record Peek : Type 0 where
  pub status : Status
  pub out_buffer : Option (List ℕ)
  pub output_size : ℕ
  pub root : Root

-- What the `Record_Invariant_Failure` functions of the components write: both views of the session
-- enter the fault state.
unfoldable pub record_fault : Root → Root
record_fault r = record r {
  base = record (r.base) { session_state = SessionState.fault; last_failure = Failure.internal };
  session = record (r.session) { state = SessionState.fault; last_failure = Failure.internal };
}
