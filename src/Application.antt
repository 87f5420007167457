-- ===== src/Application.antt =====
-- src/transport/internal/mvp/transport_application_mvp.c: application messages, from their submission
-- to the acknowledgement, and from their receipt to the read. The root and the frames are there, as
-- are the regions that initialisation sets, and enumerations are in range.
pub mod Deliver
pub mod Once
pub mod Delivered
mod Tests
use hil_rig_protocol.Common.{
  ℕ, ◌+◌, ◌-◌, List, length, take, memcpy, Bool, true, false, not, ◌&&◌, ◌||◌, ltb, leb, ◌==◌, ◌!=◌,
  ◌is◌, ◌isnt◌, if◌then◌else◌, Enum, Option, none, some, size_max,
}
use hil_rig_protocol.Types.{
  Status, status_enum, SessionState, session_state_enum, Failure, EventType, Event,
  session_seed_invalid, session_seed_reserved,
}
use hil_rig_protocol.Root.{
  Root, Reply, Session, HandshakePhase, handshake_phase_enum, FrameType, frame_type_enum,
  ReliableState, reliable_state_enum,
}
use hil_rig_protocol.Codec.{Frame, raw_overhead}
use hil_rig_protocol.Codec.Cobs.{Cobs, Encoded}
use hil_rig_protocol.Sequence
use hil_rig_protocol.Sequence.{
  RxSequence, reserve_sequence, classify_sequence, accept_sequence, ack_result_enum,
}
use hil_rig_protocol.Reliability
use hil_rig_protocol.Reliability.{Acknowledged, Outcome, outcome_enum, accept_acknowledgement}
use hil_rig_protocol.Control.{null_with_size}
use hil_rig_protocol.Events
use hil_rig_protocol.Session.{enter_fault}
use hil_rig_protocol.Handshake.{encode_for, publish_control, retry_later, then_reply, or_fault}
use hil_rig_protocol.Handshake.Recovery.{begin_local_recovery}

-- `HIL_Transport_Mvp_Application_Ack_Result_T`
pub data AckResult : Type 0 where
  stale accepted incompatible : AckResult

-- `HIL_Transport_Mvp_Application_Frame_Result_T`
pub data FrameResult : Type 0 where
  accepted duplicate stale incompatible : FrameResult

unfoldable pub has_required_storage : Root → Bool
has_required_storage r =
    (r.encoded_output_capacity != 0)
    && (r.base.config.max_application_message_size != 0)
    && (r.base.config.max_encoded_frame_size == r.encoded_output_capacity)
    && leb r.base.config.max_application_message_size (size_max - raw_overhead)
    && leb (r.base.config.max_application_message_size + raw_overhead) r.codec_scratch_size

unfoldable pub session_is_established : Root → Bool
session_is_established r =
    (r.base.session_state is SessionState.established)
    && (r.session.state is SessionState.established)
    && (r.session.handshake_phase is HandshakePhase.established)
    && (r.session.session_identifier_valid != 0)
    && (r.session.session_identifier != session_seed_invalid)
    && (r.session.session_identifier != session_seed_reserved)

unfoldable pub received_message_metadata_is_valid : Root → Bool
received_message_metadata_is_valid r =
    if ltb 1 r.received_message_pending
      || ltb r.base.config.max_application_message_size r.received_message_size
    then false
    else if r.received_message_pending == 0
    then r.received_message_size == 0
    else r.received_message_size != 0

-- The same statements as those of the handshake's function of this name.
unfoldable pub publish_acknowledgement : Cobs → Root → ℕ → Reply
publish_acknowledgement cobs r sequence =
    retry_later (publish_control cobs r FrameType.ack r.session.session_identifier sequence)

unfoldable pub publish_delivery_event : Root → EventType → Status → Failure → Reply
publish_delivery_event r event_type status failure =
    Events.publish r
      (record { type = event_type; status = status; failure = failure; required_capacity = 0 })

-- A frame that stays in the way can leave it later; every other failure is a fault.
unfoldable pub own_message : ℕ → Reply → Reply
own_message payload_size (Status.ok, r) =
    (Status.ok, record r { submitted_message_size = payload_size; submitted_message_pending = 1 })
own_message payload_size (Status.not_ready, r) = (Status.capacity_exhausted, r)
own_message payload_size (status, r) = enter_fault r

-- The part of `submit` behind the encoding, which has written to the output's storage.
unfoldable pub submit_encoded : Root → ℕ → ℕ → Encoded → Reply
submit_encoded r sequence payload_size e =
    let r' = record r { encoded_output = e.output } in
    if e.status isnt Status.ok
    then enter_fault r'
    else own_message payload_size
        (Reliability.publish_encoded r' FrameType.application_message sequence e.output_size)

unfoldable pub message_frame : Root → ℕ → ℕ → Frame
message_frame r sequence payload_size = record {
  type = FrameType.application_message;
  session_identifier = r.session.session_identifier;
  sequence = sequence;
  acknowledgement_sequence = 0;
  payload = take payload_size r.submitted_message;
}

-- The message is copied to its storage, and encoded from there.
unfoldable pub submit_copied : Cobs → Root → ℕ → ℕ → Reply
submit_copied cobs r sequence payload_size = submit_encoded r sequence payload_size (
    encode_for cobs r (message_frame r sequence payload_size) r.encoded_output
      r.encoded_output_capacity)

unfoldable pub submit : Cobs → Root → List ℕ → Reply
submit cobs r payload =
    if length payload == 0
    then (Status.invalid_argument, r)
    else if not (session_is_established r)
    then (Status.not_ready, r)
    else if not (has_required_storage r)
    then enter_fault r
    else if ltb r.base.config.max_application_message_size (length payload)
    then (Status.message_too_large, r)
    else if (r.submitted_message_pending != 0)
        || (r.submitted_message_size != 0)
        || (r.session.reliable_state isnt ReliableState.idle)
    then (Status.capacity_exhausted, r)
    else let (status, sequence) = reserve_sequence r.session in
      if status is Status.not_ready
      then (Status.capacity_exhausted, r)
      else if status isnt Status.ok
      then enter_fault r
      else submit_copied cobs
          (record r { submitted_message = memcpy r.submitted_message payload (length payload) })
          sequence (length payload)

abbrev pub HandledAck : Type 0
HandledAck = Status × AckResult × Root

unfoldable pub then_ack : Reply → (Root → HandledAck) → HandledAck
then_ack (Status.ok, r) next = next r
then_ack (status, r) next = (status, AckResult.stale, r)

unfoldable pub check_completed : Acknowledged → Reply
check_completed a =
    if a.status isnt Status.ok
    then enter_fault a.root
    else if (a.outcome isnt Outcome.acknowledged)
        || (a.completed_frame_type isnt FrameType.application_message)
    then enter_fault a.root
    else (Status.ok, record (a.root) { submitted_message_size = 0; submitted_message_pending = 0 })

-- An acknowledgement that matches, from the capacity check on.
unfoldable pub confirm_delivery : Root → ℕ → HandledAck
confirm_delivery r acknowledgement_sequence =
    then_ack
      (then_reply (Events.check_capacity r) (λ r₁.
        then_reply (check_completed (accept_acknowledgement r₁ acknowledgement_sequence)) (λ r₂.
          or_fault
            (publish_delivery_event r₂ EventType.delivery_confirmed Status.ok Failure.none))))
      (λ r'. (Status.ok, AckResult.accepted, r'))

unfoldable pub handle_acknowledgement : Root → Frame → HandledAck
handle_acknowledgement r frame =
    if frame.type isnt FrameType.ack
    then (Status.invalid_argument, AckResult.stale, r)
    else if not (has_required_storage r)
        || (r.session.retained_reliable_frame_type isnt FrameType.application_message)
        || (r.submitted_message_pending == 0)
        || (r.submitted_message_size == 0)
        || not (session_is_established r)
    then then_ack (enter_fault r) (λ r'. (Status.ok, AckResult.stale, r'))
    else if frame.session_identifier != r.session.session_identifier
    then (Status.ok, AckResult.incompatible, r)
    else let (status, result) =
        Sequence.classify_acknowledgement r.session frame.acknowledgement_sequence in
      if status isnt Status.ok
      then then_ack (enter_fault r) (λ r'. (Status.ok, AckResult.stale, r'))
      else if result isnt Sequence.AckResult.matched
      then (if (r.session.reliable_state is ReliableState.retransmit_peeked)
            && (frame.acknowledgement_sequence == r.session.retained_transmit_sequence)
          then (Status.capacity_exhausted, AckResult.stale, r)
          else (Status.ok, AckResult.stale, r))
      else confirm_delivery r frame.acknowledgement_sequence

unfoldable pub get_pending_status : Root → Status × ℕ × Root
get_pending_status r =
    if not (received_message_metadata_is_valid r)
    then (let (failed, r') = enter_fault r in (failed, 0, r'))
    else (Status.ok, r.received_message_pending, r)

-- The end of `handle_retry_exhaustion`: the delivery failed, unless the endpoint did.
unfoldable pub report_exhaustion : Reply → Reply
report_exhaustion (Status.ok, r) = (Status.delivery_failed, r)
report_exhaustion (Status.capacity_exhausted, r) = (Status.delivery_failed, r)
report_exhaustion (Status.internal_error, r) = (Status.internal_error, r)
report_exhaustion (status, r) = enter_fault r

unfoldable pub recover_exhausted : Cobs → Reply → Reply
recover_exhausted cobs (Status.ok, r) =
    report_exhaustion (begin_local_recovery cobs r Failure.delivery)
recover_exhausted cobs (Status.capacity_exhausted, r) = (Status.capacity_exhausted, r)
recover_exhausted cobs (status, r) = enter_fault r

unfoldable pub handle_retry_exhaustion : Cobs → Root → Reply
handle_retry_exhaustion cobs r =
    if not (has_required_storage r)
    then enter_fault r
    else if (r.session.reliable_state isnt ReliableState.exhausted)
        || (r.session.retained_reliable_frame_type isnt FrameType.application_message)
        || (r.submitted_message_pending == 0)
        || (r.submitted_message_size == 0)
    then enter_fault r
    else recover_exhausted cobs
        (publish_delivery_event r EventType.delivery_failed Status.delivery_failed Failure.delivery)
