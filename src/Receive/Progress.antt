-- ===== src/Receive/Progress.antt =====
-- Every turn of the receive loop frees the parser for the next bytes.
use hil_rig_protocol.Common.{
  ℕ, List, ◌≡◌, ◌≢◌, refl, ap, arith, ◌∙◌, ◌==◌, ◌&&◌, true, false, Bool, Option, some, none,
}
use hil_rig_protocol.Types.{
  Status, status_enum, role_enum, link_state_enum, session_state_enum, Failure, failure_enum, Event,
}
use hil_rig_protocol.Root.{
  Root, Reply, record_fault, FrameType, control_output_capacity, handshake_phase_enum,
}
use hil_rig_protocol.Events
use hil_rig_protocol.Control
use hil_rig_protocol.Codec.Cobs.{Cobs, Encoded}
use hil_rig_protocol.Session.{
  identifier_is_valid, reset_event, abandon, abandon_reported, abandon_with, finish_abandon,
  record_invariant_failure, end_session, set_state, set_failure, remember_abandoned,
  clear_scoped_work, clear_fields, begin_establishment, enter_fault, take_role, restart_sequences,
  reset_status_for_failure,
}
use hil_rig_protocol.Parser
use hil_rig_protocol.Session.Coherent.{Reported}
use hil_rig_protocol.Handshake.{
  encode_for, handshake_frame, encoded_control, publish_control, publish_control_encoded,
}
use hil_rig_protocol.Handshake.Recovery.{
  publish_reset, raise_barrier, announce_failure, begin_local_recovery,
}
use hil_rig_protocol.Receive.{
  BodyAction, Outcome, fault, validate_root, report_published, publish_protocol_error,
  clear_pending_error, process_pending_error, try_advance_recovery, retain_reported,
  reject_retained_body, consume_reported, reject_obsolete_body, note_error, finish_recovery,
  abandon_incompatible_session,
}
use hil_rig_protocol.Receive as Receive

pub events_publish-parser : (r : Root) (e : Event) → (Events.publish r e).1.parser ≡ r.parser
unfolding Events.publish Events.validate_state Events.record_invariant_failure record_fault
events_publish-parser r e = ground arith

control_publish-parser :
    (r : Root) (item : List ℕ) (size : ℕ)
    → (Control.publish_encoded r item size).1.parser ≡ r.parser
unfolding Control.publish_encoded Control.validate_state Control.validate_item
    Control.record_invariant_failure record_fault
control_publish-parser r item size = ground arith

pub begin_establishment-parser :
    (r : Root) → (begin_establishment r).0 ≡ Status.ok → (begin_establishment r).1.parser ≡ r.parser
unfolding begin_establishment take_role restart_sequences record_invariant_failure set_state
begin_establishment-parser r h = ground arith

-- A call that succeeds leaves a parser that takes bytes.
abbrev pub Frees : Reply → Type 0
Frees (status, r) = status ≡ Status.ok → r.parser.body_ready ≡ 0

finish_abandon-parser :
    (x : Reply) → Reported (finish_abandon x).0 → (finish_abandon x).1.parser ≡ x.1.parser
unfolding finish_abandon record_invariant_failure
finish_abandon-parser (s, r) h = ground arith

clear_scoped_work-parser : (r : Root) → (clear_scoped_work r).1.parser.body_ready ≡ 0
unfolding clear_scoped_work clear_fields Parser.reset
clear_scoped_work-parser r = refl

ended-parser :
    (r : Root) (identifier : ℕ) (valid : Bool) (failure : Failure)
    → (end_session (set_failure (remember_abandoned r identifier valid) failure)).parser ≡ r.parser
unfolding end_session set_failure set_state remember_abandoned
ended-parser r identifier true failure = refl
ended-parser r identifier false failure = refl

-- The end of an abandonment.
abandon_end :
    (r : Root) (e : Event)
    → Reported (finish_abandon (Events.publish r e)).0
    → r.parser.body_ready ≡ 0
    → (finish_abandon (Events.publish r e)).1.parser.body_ready ≡ 0
abandon_end r e h free =
    ap (λ p. p.body_ready)
      (finish_abandon-parser (Events.publish r e) h ∙ events_publish-parser r e)
    ∙ free

abandon_with-parser :
    (r : Root) (failure : Failure) (status : Status)
    → Reported (abandon_with r failure status).0
    → (abandon_with r failure status).1.parser.body_ready ≡ 0
unfolding abandon_with record_invariant_failure
abandon_with-parser r failure status h =
    let (cleared, r') = clear_scoped_work r in
    let identifier = r.session.session_identifier in
    let valid = (r.session.session_identifier_valid == 1) && identifier_is_valid identifier in
    let ended = end_session (set_failure (remember_abandoned r' identifier valid) failure) in
    let free =
      ap (λ p. p.body_ready) (ended-parser r' identifier valid failure)
      ∙ clear_scoped_work-parser r in
    ground (arith, abandon_end ended (reset_event failure status))

abandon_reported-parser :
    (r : Root) (failure : Failure) (s : Option Status)
    → Reported (abandon_reported r failure s).0
    → (abandon_reported r failure s).1.parser.body_ready ≡ 0
unfolding abandon_reported
abandon_reported-parser r failure none h = ground arith
abandon_reported-parser r failure (some status) h = abandon_with-parser r failure status h

abandon-parser :
    (r : Root) (failure : Failure)
    → Reported (abandon r failure).0
    → (abandon r failure).1.parser.body_ready ≡ 0
unfolding abandon
abandon-parser r failure h = abandon_reported-parser r failure (reset_status_for_failure failure) h

publish_control_encoded-parser :
    (r : Root) (e : Encoded) → (publish_control_encoded r e).1.parser ≡ r.parser
unfolding publish_control_encoded
publish_control_encoded-parser r e = ground (arith, control_publish-parser r e.output e.output_size)

publish_reset-parser :
    (cobs : Cobs) (r : Root) (identifier : ℕ)
    → (publish_reset cobs r identifier).1.parser ≡ r.parser
unfolding publish_reset publish_control
publish_reset-parser cobs r identifier = ground (
  arith,
  publish_control_encoded-parser r (
      encode_for cobs r (handshake_frame FrameType.reset identifier 0 0) encoded_control
        control_output_capacity),
)

raise_barrier-parser :
    (s : Status) (identifier : ℕ) (x : Reply)
    → Reported (raise_barrier s identifier x).0
    → (raise_barrier s identifier x).1.parser ≡ x.1.parser
unfolding raise_barrier enter_fault
raise_barrier-parser s identifier (t, r) h = ground arith

announce_failure-Frees :
    (cobs : Cobs) (identifier : ℕ) (valid : Bool) (x : Reply)
    → (Reported x.0 → x.1.parser.body_ready ≡ 0)
    → Reported (announce_failure cobs identifier valid x).0
    → (announce_failure cobs identifier valid x).1.parser.body_ready ≡ 0
unfolding announce_failure
announce_failure-Frees cobs identifier true (s, r) free h =
    let published = publish_reset cobs r identifier in
    ground
      (arith, raise_barrier-parser s identifier published, publish_reset-parser cobs r identifier)
announce_failure-Frees cobs identifier false (s, r) free h = ground arith

begin_local_recovery-parser :
    (cobs : Cobs) (r : Root) (failure : Failure)
    → Reported (begin_local_recovery cobs r failure).0
    → (begin_local_recovery cobs r failure).1.parser.body_ready ≡ 0
unfolding begin_local_recovery
begin_local_recovery-parser cobs r failure h =
    announce_failure-Frees cobs _ _ (abandon r failure) (abandon-parser r failure) h

-- What the outcome of a body promises where its status is `ok`.
abbrev pub Settles : Outcome → Type 0
Settles (status, action, r) =
    (status ≡ Status.ok → action ≢ BodyAction.retain)
    × (status ≡ Status.ok → action ≡ BodyAction.already_released → r.parser.body_ready ≡ 0)

pub fault-Settles : (r : Root) → Settles (fault r)
unfolding fault
fault-Settles r = (λ h. ground arith, λ h. ground arith)

pub retain_reported-Settles : (x : Reply) → Settles (retain_reported x)
unfolding retain_reported fault
retain_reported-Settles (s, r) = (λ h. ground arith, λ h. ground arith)

pub reject_retained_body-Settles : (r : Root) → Settles (reject_retained_body r)
unfolding reject_retained_body
reject_retained_body-Settles r = retain_reported-Settles (publish_protocol_error r)

pub consume_reported-Settles : (x : Reply) → Settles (consume_reported x)
unfolding consume_reported fault
consume_reported-Settles (s, r) = (λ h. ground arith, λ h. ground arith)

finish_recovery-Settles :
    (s : Status) (x : Reply)
    → (Reported x.0 → x.1.parser.body_ready ≡ 0)
    → Settles (finish_recovery s x)
unfolding finish_recovery note_error fault
finish_recovery-Settles s (t, r) free = (λ h. ground arith, λ h k. ground arith)

pub abandon_reported-Settles : (cobs : Cobs) (x : Reply) → Settles (Receive.abandon_reported cobs x)
unfolding Receive.abandon_reported
abandon_reported-Settles cobs (s, r) = ground (
  arith,
  fault-Settles r,
  consume_reported-Settles (s, r),
  finish_recovery-Settles s (begin_local_recovery cobs r Failure.protocol)
      (begin_local_recovery-parser cobs r Failure.protocol),
)
