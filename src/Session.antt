-- ===== src/Session.antt =====
-- src/transport/internal/mvp/transport_session_mvp.c: the session's setup, the start and the end of
-- an establishment, resets, faults and link notifications; Sequence has its sequence numbers. The
-- root is there, and enumerations are in range.
pub mod Clear
pub mod Coherent
mod Ended
pub mod Abandon
pub mod Establish
pub mod Reset
pub mod Link
mod Tests
use hil_rig_protocol.Common.{
  ℕ, ◌+◌, ◌-◌, ◌%◌, ◌^◌, Bool, true, false, not, ◌&&◌, ◌||◌, ltb, ◌==◌, ◌!=◌,
}
use hil_rig_protocol.Common.{◌is◌, ◌isnt◌, if◌then◌else◌, Option, none, some}
use hil_rig_protocol.Types.{Status, status_enum, Role, role_enum, LinkState, link_state_enum}
use hil_rig_protocol.Types.{
  SessionState, session_state_enum, Failure, failure_enum, EventType, Event,
}
use hil_rig_protocol.Types.{session_seed_invalid, session_seed_reserved}
use hil_rig_protocol.Root.{Root, Reply, Session, HandshakePhase, handshake_phase_enum, FrameType}
use hil_rig_protocol.Root.{frame_type_enum, ReliableState, reliable_state_enum, ControlOutputState}
use hil_rig_protocol.Root.{control_output_state_enum, OutputSelection, output_selection_enum}
use hil_rig_protocol.Parser
use hil_rig_protocol.Events
use hil_rig_protocol.Output

unfoldable pub set_link_state : Root → LinkState → Root
set_link_state r link_state = record r {
  base = record (r.base) { link_state = link_state };
  session = record (r.session) { link_state = link_state };
}

unfoldable pub set_state : Root → SessionState → Root
set_state r state = record r {
  base = record (r.base) { session_state = state };
  session = record (r.session) { state = state };
}

unfoldable pub set_failure : Root → Failure → Root
set_failure r failure = record r {
  base = record (r.base) { last_failure = failure };
  session = record (r.session) { last_failure = failure };
}

unfoldable pub set_fault : Root → Root
unfolding set_state set_failure
set_fault r = set_failure (set_state r SessionState.fault) Failure.internal

unfoldable pub identifier_is_valid : ℕ → Bool
identifier_is_valid identifier =
    (identifier != session_seed_invalid) && (identifier != session_seed_reserved)

unfoldable pub completed_confirm_metadata_is_valid : Root → Bool
unfolding identifier_is_valid
completed_confirm_metadata_is_valid r =
    if ltb 1 r.session.completed_confirm_sequence_valid
    then false
    else if r.session.completed_confirm_sequence_valid == 0
    then r.session.completed_confirm_sequence == 0
    else (r.base.role is Role.host)
      && (r.session.role is Role.host)
      && (r.base.session_state is SessionState.established)
      && (r.session.state is SessionState.established)
      && (r.session.handshake_phase is HandshakePhase.established)
      && (r.session.session_identifier_valid == 1)
      && identifier_is_valid r.session.session_identifier

unfoldable pub clear_recently_abandoned : Root → Root
clear_recently_abandoned r = record r {
  recently_abandoned_session_identifier = session_seed_invalid;
  recently_abandoned_session_identifier_valid = 0;
}

unfoldable pub recently_abandoned_metadata_is_valid : Root → Bool
unfolding identifier_is_valid
recently_abandoned_metadata_is_valid r =
    if ltb 1 r.recently_abandoned_session_identifier_valid
    then false
    else if r.recently_abandoned_session_identifier_valid == 0
    then r.recently_abandoned_session_identifier == session_seed_invalid
    else identifier_is_valid r.recently_abandoned_session_identifier

-- The assignments of `clear_scoped_work`.
unfoldable pub clear_fields : Root → Root
clear_fields r = record r {
  parser = Parser.reset r.parser;
  submitted_message_size = 0;
  submitted_message_pending = 0;
  received_message_size = 0;
  received_message_pending = 0;
  receive_protocol_error_pending = 0;
  session = record (r.session) {
    session_identifier = session_seed_invalid;
    session_identifier_valid = 0;
    completed_confirm_sequence = 0;
    completed_confirm_sequence_valid = 0;
    handshake_phase = HandshakePhase.inactive;
    next_transmit_sequence = r.session.initial_reliable_sequence;
    expected_receive_sequence = r.session.initial_reliable_sequence;
    last_accepted_receive_sequence = 0;
    accepted_receive_sequence_valid = 0;
    last_accepted_receive_frame_type = FrameType.invalid;
    last_accepted_receive_acknowledgement_sequence = 0;
    reliable_state = ReliableState.idle;
    retained_reliable_frame_type = FrameType.invalid;
    retained_transmit_sequence = 0;
    retransmissions_committed = 0;
    reliable_last_committed_ms = 0;
    last_valid_receive_ms = 0;
  };
  encoded_output_size = 0;
  control_output_size = 0;
  control_output_state = ControlOutputState.idle;
  output_selection = OutputSelection.none;
  recovery_reset_pending = 0;
  recovery_reset_session_identifier = session_seed_invalid;
}

unfoldable pub clear_scoped_work : Root → Reply
clear_scoped_work r =
    let (output_status, r') = Output.reset r in
    (if output_status isnt Status.ok then Status.internal_error else Status.ok, clear_fields r')

-- It and `enter_fault` do the same.
unfoldable pub record_invariant_failure : Root → Reply
record_invariant_failure r = (Status.internal_error, set_fault (clear_scoped_work r).1)

unfoldable pub enter_fault : Root → Reply
enter_fault r = (Status.internal_error, set_fault (clear_scoped_work r).1)

-- The status that a failure is reported with; `none` where the call refuses it.
unfoldable pub reset_status_for_failure : Failure → Option Status
reset_status_for_failure Failure.link_lost = some Status.not_ready
reset_status_for_failure Failure.protocol = some Status.not_ready
reset_status_for_failure Failure.connection_timeout = some Status.timeout
reset_status_for_failure Failure.delivery = some Status.delivery_failed
reset_status_for_failure Failure.capacity = some Status.capacity_exhausted
reset_status_for_failure failure = none

unfoldable pub link_event : LinkState → Event
link_event link_state = record {
  type = EventType.link_state_changed;
  status = Status.ok;
  failure = if link_state is LinkState.disconnected then Failure.link_lost else Failure.none;
  required_capacity = 0;
}

unfoldable pub publish_link_event : Root → LinkState → Reply
publish_link_event r link_state = Events.publish r (link_event link_state)

-- The assignments to zeroed memory.
unfoldable pub initial_session : Role → ℕ → ℕ → Session
initial_session role session_seed initial_reliable_sequence = record {
  role = role;
  link_state = LinkState.disconnected;
  link_state_observed = 0;
  state = SessionState.disconnected;
  handshake_phase = HandshakePhase.inactive;
  session_identifier = 0;
  session_identifier_valid = 0;
  completed_confirm_sequence = 0;
  completed_confirm_sequence_valid = 0;
  next_host_session_identifier = session_seed;
  initial_reliable_sequence = initial_reliable_sequence;
  next_transmit_sequence = initial_reliable_sequence;
  expected_receive_sequence = initial_reliable_sequence;
  retained_transmit_sequence = 0;
  retained_reliable_frame_type = FrameType.invalid;
  last_accepted_receive_sequence = 0;
  accepted_receive_sequence_valid = 0;
  last_accepted_receive_frame_type = FrameType.invalid;
  last_accepted_receive_acknowledgement_sequence = 0;
  reliable_state = ReliableState.idle;
  retransmissions_committed = 0;
  reliable_last_committed_ms = 0;
  last_valid_receive_ms = 0;
  last_failure = Failure.none;
}

-- `none` for a configuration that is refused.
unfoldable pub init : Role → ℕ → ℕ → Option Session
init role session_seed initial_reliable_sequence =
    if ((role is Role.host)
        && ((session_seed == session_seed_invalid) || (session_seed == session_seed_reserved)))
      || ((role is Role.rig) && (session_seed != session_seed_invalid))
    then none
    else some (initial_session role session_seed initial_reliable_sequence)

-- Both views of the session agree.
unfoldable pub views_differ : Root → Bool
views_differ r =
    (r.base.role isnt r.session.role)
    || (r.base.link_state isnt r.session.link_state)
    || ltb 1 r.session.link_state_observed
    || (r.base.session_state isnt r.session.state)
    || (r.base.last_failure isnt r.session.last_failure)

-- Work of an earlier session that is still there.
unfoldable pub has_scoped_work : Root → Bool
has_scoped_work r =
    (r.session.handshake_phase isnt HandshakePhase.inactive)
    || (r.session.session_identifier != session_seed_invalid)
    || (r.session.session_identifier_valid != 0)
    || (r.session.completed_confirm_sequence != 0)
    || (r.session.completed_confirm_sequence_valid != 0)
    || (r.session.reliable_state isnt ReliableState.idle)
    || (r.session.retained_reliable_frame_type isnt FrameType.invalid)
    || (r.session.retained_transmit_sequence != 0)
    || (r.session.retransmissions_committed != 0)
    || (r.session.reliable_last_committed_ms != 0)
    || (r.encoded_output_size != 0)
    || (r.control_output_state isnt ControlOutputState.idle)
    || (r.control_output_size != 0)
    || (r.output_selection isnt OutputSelection.none)
    || (r.submitted_message_size != 0)
    || (r.submitted_message_pending != 0)
    || (r.received_message_size != 0)
    || (r.received_message_pending != 0)
    || (r.receive_protocol_error_pending != 0)
    || (r.parser.accumulated_size != 0)
    || (r.parser.body_ready != 0)
    || (r.parser.discarding != 0)
    || (r.session.last_accepted_receive_sequence != 0)
    || (r.session.accepted_receive_sequence_valid != 0)
    || (r.session.last_accepted_receive_frame_type isnt FrameType.invalid)
    || (r.session.last_accepted_receive_acknowledgement_sequence != 0)
    || (r.session.last_valid_receive_ms != 0)

-- The identifier after one that a host used; 2 ^ 64 - 1 and 0 are skipped.
unfoldable pub next_identifier : ℕ → ℕ
next_identifier identifier =
    if identifier == session_seed_reserved - 1 then 1 else (identifier + 1) % 2 ^ 64

unfoldable pub restart_sequences : Root → Root
restart_sequences r = record r {
  session = record (r.session) {
    next_transmit_sequence = r.session.initial_reliable_sequence;
    expected_receive_sequence = r.session.initial_reliable_sequence;
    last_accepted_receive_sequence = 0;
    accepted_receive_sequence_valid = 0;
    last_accepted_receive_frame_type = FrameType.invalid;
    last_accepted_receive_acknowledgement_sequence = 0;
  };
}

-- What each role does next.
unfoldable pub take_role : Role → Root → Reply
unfolding next_identifier set_state
take_role Role.host r =
    if not (identifier_is_valid r.session.next_host_session_identifier)
    then record_invariant_failure r
    else (
      Status.ok,
      set_state
          (record r {
            session = record (r.session) {
              session_identifier = r.session.next_host_session_identifier;
              session_identifier_valid = 1;
              next_host_session_identifier = next_identifier r.session.next_host_session_identifier;
              handshake_phase = HandshakePhase.initiate_pending;
            };
          })
          SessionState.connecting,
    )
take_role Role.rig r =
    if r.session.next_host_session_identifier != session_seed_invalid
    then record_invariant_failure r
    else (
      Status.ok,
      set_state
          (record r {
            session = record (r.session) { handshake_phase = HandshakePhase.waiting_for_initiate };
          })
          SessionState.connecting,
    )

unfoldable pub begin_establishment : Root → Reply
begin_establishment r =
    if views_differ r
      || not (recently_abandoned_metadata_is_valid r)
      || not (completed_confirm_metadata_is_valid r)
    then record_invariant_failure r
    else if (r.session.state isnt SessionState.disconnected)
        && (r.session.state isnt SessionState.recovering)
    then (Status.not_ready, r)
    else if (r.session.link_state_observed == 0) || (r.session.link_state isnt LinkState.connected)
    then (Status.not_ready, r)
    else if has_scoped_work r
    then record_invariant_failure r
    else take_role r.session.role (restart_sequences r)

-- The state of a session that is over.
unfoldable pub ended_state : LinkState → SessionState
ended_state link_state =
    if link_state is LinkState.disconnected
    then SessionState.disconnected
    else SessionState.recovering

unfoldable pub end_session : Root → Root
end_session r = set_state r (ended_state r.session.link_state)

unfoldable pub reset_event : Failure → Status → Event
reset_event failure status = record {
  type = EventType.session_reset;
  status = status;
  failure = failure;
  required_capacity = 0;
}

-- The identifier of the abandoned session, if it was valid, is remembered.
unfoldable pub remember_abandoned : Root → ℕ → Bool → Root
remember_abandoned r identifier valid =
    if valid
    then record r {
      recently_abandoned_session_identifier = identifier;
      recently_abandoned_session_identifier_valid = 1;
    }
    else r

-- The tests on the status of the event that ends `abandon`.
unfoldable pub finish_abandon : Reply → Reply
finish_abandon (event_status, r) =
    if (event_status isnt Status.internal_error)
      && (event_status isnt Status.capacity_exhausted)
      && (event_status isnt Status.ok)
    then record_invariant_failure r
    else (event_status, r)

unfoldable pub abandon_with : Root → Failure → Status → Reply
abandon_with r failure status =
    if views_differ r || not (completed_confirm_metadata_is_valid r)
    then record_invariant_failure r
    else let identifier = r.session.session_identifier in
      let valid = (r.session.session_identifier_valid == 1) && identifier_is_valid identifier in
      let (cleared, r') = clear_scoped_work r in
      if cleared isnt Status.ok
      then (Status.internal_error, set_fault r')
      else if r'.session.state is SessionState.fault
      then (Status.internal_error, set_failure r' Failure.internal)
      else let r'' = set_failure (remember_abandoned r' identifier valid) failure in
        finish_abandon (Events.publish (end_session r'') (reset_event failure status))

-- `abandon`, once the failure's status is looked up.
unfoldable pub abandon_reported : Root → Failure → Option Status → Reply
abandon_reported r failure none = (Status.invalid_argument, r)
abandon_reported r failure (some status) = abandon_with r failure status

unfoldable pub abandon : Root → Failure → Reply
abandon r failure = abandon_reported r failure (reset_status_for_failure failure)

-- What `explicit_reset` repairs of the role and the link.
unfoldable pub repair_setup : Root → Root
repair_setup r =
    set_link_state
      (record r {
        session = record (r.session) {
          link_state_observed = if r.session.link_state_observed != 0 then 1 else 0;
          role = r.base.role;
          next_host_session_identifier =
              if r.base.role is Role.rig
              then session_seed_invalid
              else r.session.next_host_session_identifier;
        };
      })
      r.base.link_state

-- The end of `explicit_reset`, on the status of the cleanup.
unfoldable pub finish_reset : Status → Root → Reply
finish_reset cleanup_status r =
    if (cleanup_status isnt Status.ok)
      || not
          ((r.base.role is Role.rig) || identifier_is_valid r.session.next_host_session_identifier)
    then (Status.internal_error, set_fault r)
    else (Status.ok, set_state (set_failure r Failure.local_reset) (ended_state r.base.link_state))

unfoldable pub explicit_reset : Root → Reply
explicit_reset r =
    let (cleanup_status, r') = clear_scoped_work r in
    finish_reset cleanup_status (
      repair_setup
        (Events.reset
          (if recently_abandoned_metadata_is_valid r' then r' else clear_recently_abandoned r')).1)

unfoldable pub observe_link : Root → LinkState → Root
observe_link r link_state =
    set_link_state (record r { session = record (r.session) { link_state_observed = 1 } })
      link_state

-- A notification in the fault state.
unfoldable pub notify_faulted : Root → LinkState → Reply
notify_faulted r LinkState.disconnected =
    let (cleanup_status, r') = clear_scoped_work (observe_link r LinkState.disconnected) in
    (cleanup_status, set_fault (clear_recently_abandoned r'))
notify_faulted r LinkState.connected = (Status.ok, set_fault (observe_link r LinkState.connected))

-- What follows the link event.
unfoldable pub change_link : Root → LinkState → Reply
change_link r LinkState.disconnected =
    let (status, r') = abandon r Failure.link_lost in (status, clear_recently_abandoned r')
change_link r LinkState.connected = begin_establishment r

unfoldable pub finish_notify : Status → Reply → Reply
finish_notify event_status (transition_status, r) =
    if transition_status is Status.internal_error
    then (Status.internal_error, r)
    else if (event_status is Status.capacity_exhausted)
        || (transition_status is Status.capacity_exhausted)
    then (Status.capacity_exhausted, r)
    else if transition_status isnt Status.ok
    then record_invariant_failure r
    else (Status.ok, r)

unfoldable pub notify_changed : Root → LinkState → Reply
notify_changed r link_state =
    let (event_status, r') = publish_link_event r link_state in
    if (event_status isnt Status.ok) && (event_status isnt Status.capacity_exhausted)
    then record_invariant_failure r'
    else finish_notify event_status (change_link r' link_state)

unfoldable pub notify_link_state : Root → LinkState → Reply
notify_link_state r link_state =
    if Output.is_faulted r
    then notify_faulted r link_state
    else if views_differ r || not (completed_confirm_metadata_is_valid r)
    then record_invariant_failure r
    else let was_observed = r.session.link_state_observed != 0 in
      if was_observed && (r.session.link_state is link_state)
      then (Status.ok, r)
      else if not was_observed && (link_state is LinkState.disconnected)
      then (Status.ok, clear_recently_abandoned (observe_link r link_state))
      else notify_changed (observe_link r link_state) link_state
