-- ===== src/Handshake.antt =====
-- src/transport/internal/mvp/transport_handshake_mvp.c: the results, the checks and the publications
-- that the handshake's operations share; Host, Rig, Frames and Recovery have the operations. The
-- root and the frames are there, and enumerations are in range.
pub mod Host
pub mod Rig
pub mod Frames
pub mod Recovery
pub mod Chain
pub mod Publish
pub mod Sends
pub mod Accepts
pub mod Completes
pub mod Confirms
pub mod Connecting
pub mod Preserves
pub mod Crossing
pub mod Exchange
pub mod Concludes
pub mod Establishes
mod Tests
use hil_rig_protocol.Common.{
  ℕ, List, [], ◌∷◌, length, Bool, true, false, not, ◌&&◌, ◌||◌, ltb, ◌==◌, ◌!=◌, ◌is◌, ◌isnt◌,
  if◌then◌else◌, Enum,
}
use hil_rig_protocol.Types.{
  Status, status_enum, Role, role_enum, LinkState, link_state_enum, SessionState,
  session_state_enum, Failure, failure_enum, EventType, Event, session_seed_invalid,
  session_seed_reserved,
}
use hil_rig_protocol.Root.{
  Root, Reply, Session, HandshakePhase, handshake_phase_enum, FrameType, frame_type_enum,
  ReliableState, reliable_state_enum, control_output_capacity,
}
use hil_rig_protocol.Codec.{Frame}
use hil_rig_protocol.Codec.Cobs.{Cobs, Encoded}
use hil_rig_protocol.Codec.Encode.{encode_frame}
use hil_rig_protocol.Sequence
use hil_rig_protocol.Sequence.{RxSequence, reserve_sequence, accept_sequence, ack_result_enum}
use hil_rig_protocol.Reliability
use hil_rig_protocol.Reliability.{
  Acknowledged, Outcome, outcome_enum, accept_acknowledgement, request_retransmission,
}
use hil_rig_protocol.Control
use hil_rig_protocol.Events
use hil_rig_protocol.Session.{enter_fault, completed_confirm_metadata_is_valid}

-- `HIL_Transport_Mvp_Handshake_Frame_Result_T`
pub data FrameResult : Type 0 where
  accepted duplicate stale incompatible : FrameResult

-- `HIL_Transport_Mvp_Handshake_Ack_Result_T`
pub data AckResult : Type 0 where
  unexpected matched blocked_by_pinned_retry : AckResult

-- What a handler of a frame leaves; its result is `incompatible` where it writes none.
abbrev pub Handled : Type 0
Handled = Status × FrameResult × Root

-- A call whose failure ends the operation.
unfoldable pub then_reply : Reply → (Root → Reply) → Reply
then_reply (Status.ok, r) next = next r
then_reply (status, r) next = (status, r)

unfoldable pub then_handle : Reply → (Root → Handled) → Handled
then_handle (Status.ok, r) next = next r
then_handle (status, r) next = (status, FrameResult.incompatible, r)

-- A call whose failure is a fault.
unfoldable pub or_fault : Reply → Reply
or_fault (Status.ok, r) = (Status.ok, r)
or_fault (status, r) = enter_fault r

unfoldable pub validate_root : Root → Reply
validate_root r =
    if (r.base.role isnt r.session.role)
      || (r.base.link_state isnt r.session.link_state)
      || (r.base.session_state isnt r.session.state)
      || (r.base.last_failure isnt r.session.last_failure)
      || ltb 1 r.session.session_identifier_valid
      || not (completed_confirm_metadata_is_valid r)
    then enter_fault r
    else (Status.ok, r)

unfoldable pub session_identifier_is_valid : ℕ → Bool
session_identifier_is_valid session_identifier =
    (session_identifier != session_seed_invalid) && (session_identifier != session_seed_reserved)

unfoldable pub frame_is_exact_duplicate : Session → Frame → Bool
frame_is_exact_duplicate s frame =
    (s.accepted_receive_sequence_valid != 0)
    && (frame.sequence == s.last_accepted_receive_sequence)
    && (frame.type is s.last_accepted_receive_frame_type)
    && (frame.acknowledgement_sequence == s.last_accepted_receive_acknowledgement_sequence)

unfoldable pub record_accepted_frame : Session → Frame → Session
record_accepted_frame s frame = record s {
  last_accepted_receive_frame_type = frame.type;
  last_accepted_receive_acknowledgement_sequence = frame.acknowledgement_sequence;
}

unfoldable pub set_phase : Root → HandshakePhase → Root
set_phase r phase = record r { session = record (r.session) { handshake_phase = phase } }

-- A frame without payload.
unfoldable pub handshake_frame : FrameType → ℕ → ℕ → ℕ → Frame
handshake_frame type session_identifier sequence acknowledgement_sequence = record {
  type = type;
  session_identifier = session_identifier;
  sequence = sequence;
  acknowledgement_sequence = acknowledgement_sequence;
  payload = [];
}

unfoldable pub encode_for : Cobs → Root → Frame → List ℕ → ℕ → Encoded
encode_for cobs r frame out out_size =
    encode_frame cobs frame r.base.config.max_application_message_size r.codec_scratch_size out
      out_size

-- The part of `publish_reliable` behind the encoding, which has written to the output's storage.
unfoldable pub publish_reliable_encoded : Root → FrameType → ℕ → HandshakePhase → Encoded → Reply
publish_reliable_encoded r frame_type sequence next_phase e =
    let r' = record r { encoded_output = e.output } in
    if e.status isnt Status.ok
    then (e.status, r')
    else then_reply (Reliability.publish_encoded r' frame_type sequence e.output_size)
        (λ r''. (Status.ok, set_phase r'' next_phase))

unfoldable pub publish_reliable : Cobs → Root → FrameType → ℕ → HandshakePhase → Reply
publish_reliable cobs r frame_type acknowledgement_sequence next_phase =
    let (status, sequence) = reserve_sequence r.session in
    if status isnt Status.ok
    then (status, r)
    else publish_reliable_encoded r frame_type sequence next_phase (
        encode_for cobs r
          (handshake_frame frame_type r.session.session_identifier sequence
            acknowledgement_sequence)
          r.encoded_output r.encoded_output_capacity)

-- The local buffer; what it holds at first does not matter, as only what is encoded is read.
unfoldable pub encoded_control : List ℕ
encoded_control = 0 ∷ 0 ∷ 0 ∷ 0 ∷ 0 ∷ 0 ∷ 0 ∷ 0 ∷ 0 ∷ 0 ∷ 0 ∷ 0 ∷ 0 ∷ 0 ∷ 0 ∷ 0 ∷ 0 ∷ 0 ∷ 0 ∷ 0 ∷ []

unfoldable pub publish_control_encoded : Root → Encoded → Reply
publish_control_encoded r e =
    if e.status isnt Status.ok
    then (e.status, r)
    else Control.publish_encoded r e.output e.output_size

unfoldable pub publish_control : Cobs → Root → FrameType → ℕ → ℕ → Reply
publish_control cobs r frame_type session_identifier acknowledgement_sequence =
    publish_control_encoded r (
      encode_for cobs r (handshake_frame frame_type session_identifier 0 acknowledgement_sequence)
        encoded_control control_output_capacity)

-- An item that is still in the slot can leave it later.
unfoldable pub retry_later : Reply → Reply
retry_later (Status.not_ready, r) = (Status.capacity_exhausted, r)
retry_later (status, r) = (status, r)

unfoldable pub publish_acknowledgement : Cobs → Root → ℕ → Reply
publish_acknowledgement cobs r sequence =
    retry_later (publish_control cobs r FrameType.ack r.session.session_identifier sequence)

unfoldable pub established_event : Event
established_event = record {
  type = EventType.session_established;
  status = Status.ok;
  failure = Failure.none;
  required_capacity = 0;
}

unfoldable pub publish_established_event : Root → Reply
publish_established_event r = Events.publish r established_event

unfoldable pub set_established : Root → Root
set_established r = record r {
  base = record (r.base) { session_state = SessionState.established; last_failure = Failure.none };
  session = record (r.session) {
    state = SessionState.established;
    handshake_phase = HandshakePhase.established;
    last_failure = Failure.none;
  };
}

unfoldable pub classify_acknowledgement : Root → Frame → FrameType → Status × AckResult
classify_acknowledgement r frame expected_type =
    if r.session.retained_reliable_frame_type isnt expected_type
    then (Status.ok, AckResult.unexpected)
    else let (status, result) =
        Sequence.classify_acknowledgement r.session frame.acknowledgement_sequence in
      if status isnt Status.ok
      then (status, AckResult.unexpected)
      else if result is Sequence.AckResult.matched
      then (Status.ok, AckResult.matched)
      else if (r.session.reliable_state is ReliableState.retransmit_peeked)
          && (frame.acknowledgement_sequence == r.session.retained_transmit_sequence)
      then (Status.ok, AckResult.blocked_by_pinned_retry)
      else (Status.ok, AckResult.unexpected)

unfoldable pub check_completed : Acknowledged → FrameType → Reply
check_completed a expected_type =
    if a.status isnt Status.ok
    then (a.status, a.root)
    else if (a.outcome isnt Outcome.acknowledged) || (a.completed_frame_type isnt expected_type)
    then enter_fault a.root
    else (Status.ok, a.root)

unfoldable pub complete_acknowledgement : Root → ℕ → FrameType → Reply
complete_acknowledgement r acknowledgement_sequence expected_type =
    check_completed (accept_acknowledgement r acknowledgement_sequence) expected_type

unfoldable pub handle_duplicate_response_work : Root → FrameType → Reply
handle_duplicate_response_work r expected_response_type =
    if r.session.reliable_state is ReliableState.idle
    then (Status.ok, r)
    else let (status, outcome, r') = request_retransmission r expected_response_type in (status, r')

-- The branches on the class of a frame's sequence, which the handlers share.
unfoldable pub by_sequence : Status × RxSequence → Root → Handled → Handled → Handled
by_sequence (Status.ok, RxSequence.expected) r on_duplicate on_expected = on_expected
by_sequence (Status.ok, RxSequence.duplicate) r on_duplicate on_expected = on_duplicate
by_sequence (Status.ok, RxSequence.stale) r on_duplicate on_expected =
    (Status.ok, FrameResult.stale, r)
by_sequence (Status.ok, RxSequence.incompatible) r on_duplicate on_expected =
    (Status.ok, FrameResult.incompatible, r)
by_sequence (status, result) r on_duplicate on_expected = (status, FrameResult.incompatible, r)

-- A repeated frame: the work that answers it is done again where `answering` says so.
unfoldable pub handle_duplicate : Root → Frame → Bool → Reply → Handled
handle_duplicate r frame answering work =
    if not (frame_is_exact_duplicate r.session frame)
    then (Status.ok, FrameResult.incompatible, r)
    else if answering
    then then_handle work (λ r'. (Status.ok, FrameResult.duplicate, r'))
    else (Status.ok, FrameResult.stale, r)

-- The branches on the class of an acknowledgement; `unmatched` is the result of one that is not
-- for the frame retained.
unfoldable pub by_acknowledgement : Status × AckResult → Root → FrameResult → Handled → Handled
by_acknowledgement (Status.ok, AckResult.matched) r unmatched on_matched = on_matched
by_acknowledgement (Status.ok, AckResult.blocked_by_pinned_retry) r unmatched on_matched =
    (Status.capacity_exhausted, FrameResult.incompatible, r)
by_acknowledgement (Status.ok, AckResult.unexpected) r unmatched on_matched =
    (Status.ok, unmatched, r)
by_acknowledgement (status, result) r unmatched on_matched = (status, FrameResult.incompatible, r)

-- The frame's sequence is taken and the frame remembered.
unfoldable pub accept_frame : Root → Frame → Reply
accept_frame r frame =
    let (status, s) = accept_sequence r.session frame.sequence in
    if status isnt Status.ok
    then enter_fault r
    else (Status.ok, record r { session = record_accepted_frame s frame })
