-- ===== src/Receive/Turns.antt =====
-- Every turn of the receive loop that goes on leaves a parser that takes bytes.
use hil_rig_protocol.Common.{take, subst, ◌≡◌, sym, ◌∙◌, arith, inl, inr, some, none}
use hil_rig_protocol.Types.{Status, status_enum}
use hil_rig_protocol.Root.{Root, Reply, FrameType}
use hil_rig_protocol.Codec.{Frame, Decoded}
use hil_rig_protocol.Codec.Cobs.{Cobs}
use hil_rig_protocol.Codec.Decode.{decode_frame_view}
use hil_rig_protocol.Parser
use hil_rig_protocol.Session.{enter_fault}
use hil_rig_protocol.Handshake
use hil_rig_protocol.Events
use hil_rig_protocol.Handshake.{then_reply}
use hil_rig_protocol.Handshake.Chain.{Status-cases, then_reply-ok, then_reply-stops}
use hil_rig_protocol.Handshake.Host.{ApplicationProof, try_complete_host_from_application}
use hil_rig_protocol.Handshake.Frames.{handle_frame}
use hil_rig_protocol.Application
use hil_rig_protocol.Application.{handle_acknowledgement}
use hil_rig_protocol.Application.Deliver.{handle_received_frame}
use hil_rig_protocol.Receive.{
  Outcome, publish_protocol_error, reject_obsolete_body, abandon_incompatible_session,
  clear_pending_error, process_pending_error, try_advance_recovery, report_published,
  protocol_error_event,
}
use hil_rig_protocol.Receive.Dispatch.{
  unless_released, finish_handshake, dispatch_handshake_frame, finish_acknowledgement,
  dispatch_acknowledgement, finish_message, finish_proof, dispatch_message, dispatch_type,
  dispatch_frame, by_decoded, decode_retained_body, consume_body, finish_body,
  process_retained_body,
}
use hil_rig_protocol.Receive.Progress.{
  Frees, Settles, fault-Settles, reject_retained_body-Settles, consume_reported-Settles,
  abandon_reported-Settles, events_publish-parser, begin_establishment-parser,
}

reject_obsolete_body-Settles : (r : Root) → Settles (reject_obsolete_body r)
unfolding reject_obsolete_body
reject_obsolete_body-Settles r = consume_reported-Settles (publish_protocol_error r)

abandon_incompatible_session-Settles :
    (cobs : Cobs) (r : Root) → Settles (abandon_incompatible_session cobs r)
unfolding abandon_incompatible_session
abandon_incompatible_session-Settles cobs r =
    abandon_reported-Settles cobs (publish_protocol_error r)

finish_handshake-Settles : (cobs : Cobs) (h : Handshake.Handled) → Settles (finish_handshake cobs h)
unfolding finish_handshake unless_released
finish_handshake-Settles cobs (s, result, r) = ground (
  arith,
  fault-Settles r,
  reject_retained_body-Settles r,
  abandon_incompatible_session-Settles cobs r,
)

dispatch_handshake_frame-Settles :
    (cobs : Cobs) (r : Root) (frame : Frame) → Settles (dispatch_handshake_frame cobs r frame)
unfolding dispatch_handshake_frame
dispatch_handshake_frame-Settles cobs r frame =
    finish_handshake-Settles cobs (handle_frame cobs r frame)

finish_acknowledgement-Settles :
    (cobs : Cobs) (h : Application.HandledAck) → Settles (finish_acknowledgement cobs h)
unfolding finish_acknowledgement
finish_acknowledgement-Settles cobs (s, result, r) = ground (
  arith,
  fault-Settles r,
  reject_retained_body-Settles r,
  abandon_incompatible_session-Settles cobs r,
)

dispatch_acknowledgement-Settles :
    (cobs : Cobs) (r : Root) (frame : Frame) → Settles (dispatch_acknowledgement cobs r frame)
unfolding dispatch_acknowledgement
dispatch_acknowledgement-Settles cobs r frame = ground (
  arith,
  reject_retained_body-Settles r,
  dispatch_handshake_frame-Settles cobs r frame,
  finish_acknowledgement-Settles cobs (handle_acknowledgement r frame),
)

finish_message-Settles :
    (cobs : Cobs) (h : Status × Application.FrameResult × Root) → Settles (finish_message cobs h)
unfolding finish_message
finish_message-Settles cobs (s, result, r) = ground (
  arith,
  fault-Settles r,
  reject_retained_body-Settles r,
  abandon_incompatible_session-Settles cobs r,
)

finish_proof-Settles :
    (cobs : Cobs) (frame : Frame) (h : Status × ApplicationProof × Root)
    → Settles (finish_proof cobs frame h)
unfolding finish_proof
finish_proof-Settles cobs frame (s, result, r) = ground (
  arith,
  fault-Settles r,
  reject_retained_body-Settles r,
  abandon_incompatible_session-Settles cobs r,
  finish_message-Settles cobs (handle_received_frame cobs r frame),
)

dispatch_message-Settles :
    (cobs : Cobs) (r : Root) (frame : Frame) → Settles (dispatch_message cobs r frame)
unfolding dispatch_message
dispatch_message-Settles cobs r frame =
    finish_proof-Settles cobs frame (try_complete_host_from_application r frame)

dispatch_type-Settles :
    (cobs : Cobs) (t : FrameType) (r : Root) (frame : Frame)
    → Settles (dispatch_type cobs t r frame)
unfolding dispatch_type
dispatch_type-Settles cobs t r frame = ground (
  arith,
  fault-Settles r,
  dispatch_handshake_frame-Settles cobs r frame,
  dispatch_acknowledgement-Settles cobs r frame,
  dispatch_message-Settles cobs r frame,
)

dispatch_frame-Settles :
    (cobs : Cobs) (r : Root) (frame : Frame) → Settles (dispatch_frame cobs r frame)
unfolding dispatch_frame
dispatch_frame-Settles cobs r frame = ground (
  arith,
  reject_obsolete_body-Settles r,
  abandon_incompatible_session-Settles cobs r,
  dispatch_type-Settles cobs frame.type r frame,
)

by_decoded-Settles : (cobs : Cobs) (d : Decoded) (r : Root) → Settles (by_decoded cobs d r)
unfolding by_decoded
by_decoded-Settles cobs (s, result, none) r = ground (
  arith,
  fault-Settles r,
  reject_retained_body-Settles r,
  abandon_incompatible_session-Settles cobs r,
)
by_decoded-Settles cobs (s, result, some frame) r = ground (
  arith,
  fault-Settles r,
  reject_retained_body-Settles r,
  abandon_incompatible_session-Settles cobs r,
  dispatch_frame-Settles cobs r frame,
)

decode_retained_body-Settles : (cobs : Cobs) (r : Root) → Settles (decode_retained_body cobs r)
unfolding decode_retained_body
decode_retained_body-Settles cobs r =
    let (status, body, body_size) = Parser.peek_body r.parser in
    ground (
      arith,
      fault-Settles r,
      by_decoded-Settles cobs
          (decode_frame_view cobs (take body_size body) r.codec_scratch_size
            r.base.config.max_application_message_size)
          r,
    )

consume_body-Frees : (s : Status) (r : Root) → Frees (consume_body s r)
unfolding consume_body Parser.consume_body enter_fault
consume_body-Frees s r h = ground (arith, h)

finish_body-Frees : (o : Outcome) → Settles o → Frees (finish_body o)
unfolding finish_body
finish_body-Frees (s, action, r) settles h = ground (arith, h, settles, consume_body-Frees s r)

pub process_retained_body-Frees : (cobs : Cobs) (r : Root) → Frees (process_retained_body cobs r)
unfolding process_retained_body
process_retained_body-Frees cobs r =
    finish_body-Frees (decode_retained_body cobs r) (decode_retained_body-Settles cobs r)

pub try_advance_recovery-Frees :
    (r : Root) → r.parser.body_ready ≡ 0 → Frees (try_advance_recovery r)
unfolding try_advance_recovery
try_advance_recovery-Frees r free h = ground (arith, h, begin_establishment-parser r)

report_published-parser :
    (x : Reply) → (report_published x).0 ≡ Status.ok → (report_published x).1.parser ≡ x.1.parser
unfolding report_published enter_fault
report_published-parser (s, r) h = ground arith

publish_protocol_error-parser :
    (r : Root)
    → (publish_protocol_error r).0 ≡ Status.ok
    → (publish_protocol_error r).1.parser ≡ r.parser
unfolding publish_protocol_error
publish_protocol_error-parser r h =
    report_published-parser (Events.publish r protocol_error_event) h
    ∙ events_publish-parser r protocol_error_event

pub process_pending_error-Frees :
    (r : Root) → r.parser.body_ready ≡ 0 → Frees (process_pending_error r)
unfolding process_pending_error clear_pending_error
process_pending_error-Frees r free h = ground (arith, h, publish_protocol_error-parser r)

-- A chain of two calls frees the parser when its second call does.
pub then_reply-Frees :
    (x : Reply) (next : Root → Reply)
    → Frees x
    → ((r : Root) → r.parser.body_ready ≡ 0 → Frees (next r))
    → Frees (then_reply x next)
then_reply-Frees x next free go = elim (Status-cases x.0) [
  | inl e ↦ subst Frees (sym (then_reply-ok x next e)) (go x.1 (free e))
  | inr n ↦ subst Frees (sym (then_reply-stops x next n)) free
]
