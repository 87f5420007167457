-- ===== src/Handshake/Confirms.antt =====
-- What the CONFIRM leaves at a rig where nothing is in its way.
use hil_rig_protocol.Common.{ℕ, ◌<◌, ◌≡◌, ◌≢◌, refl, ap, ◌∙◌, arith, List, false, ◌!=◌, ◌isnt◌}
use hil_rig_protocol.Types.{Status, status_enum, link_state_enum, session_state_enum}
use hil_rig_protocol.Root.{
  Root, HandshakePhase, handshake_phase_enum, FrameType, frame_type_enum, reliable_state_enum,
  event_queue_capacity, ControlOutputState,
}
use hil_rig_protocol.Codec.{Frame, serialize}
use hil_rig_protocol.Codec.Cobs.{Cobs, Encodes}
use hil_rig_protocol.Events.Entries as Entries
use hil_rig_protocol.Events.Fifo.{queued, publish-queued, check_capacity-free, IsValid-ring}
use hil_rig_protocol.Sequence.{RxSequence, classify_sequence}
use hil_rig_protocol.Reliability
use hil_rig_protocol.Reliability.{clear_metadata}
use hil_rig_protocol.Control.Validity as ControlValidity
use hil_rig_protocol.Handshake.{
  FrameResult, Handled, accept_frame, then_reply, then_handle, or_fault, by_sequence,
  by_acknowledgement, handshake_frame, publish_established_event, established_event,
  set_established,
}
use hil_rig_protocol.Handshake.Rig.{accept_confirm, handle_expected_confirm, handle_rig_confirm}
use hil_rig_protocol.Handshake.Publish.{HasScratch, with_item, publish_acknowledgement-idle}
use hil_rig_protocol.Handshake.Accepts.{
  Awaits, acknowledged, remembered, classify_acknowledgement-matched,
  complete_acknowledgement-matched, accept_frame-expected,
}
use hil_rig_protocol.Handshake.Completes.{established_event-is_valid}

with_item-Awaits :
    {r : Root} {t : FrameType} {sequence : ℕ} (wire : List ℕ)
    → Awaits r t sequence
    → Awaits (with_item wire r) t sequence
unfolding with_item Reliability.validate_state Reliability.has_storage
with_item-Awaits {r} wire a = record {
  valid = record {
    consistent = ground (arith, a.valid.consistent);
    provisioned = a.valid.provisioned;
    stored = a.valid.stored;
    retries_in = a.valid.retries_in;
    next_in = a.valid.next_in;
  };
  state = a.state;
  type = a.type;
  number = a.number;
}

-- The rig once it has the session: the ACK of the CONFIRM is in the slot, and the event is queued.
unfoldable pub rig_confirmed : List ℕ → Frame → Root → Root
rig_confirmed wire f r = set_established (remembered f (acknowledged (with_item wire r)))

unfoldable pub rig_established : List ℕ → Frame → Root → Root
rig_established wire f r = queued established_event (rig_confirmed wire f r)

module _ {cobs : Cobs} {r : Root} (f : Frame) {wire : List ℕ}
    (a : Awaits r FrameType.response f.acknowledgement_sequence)
    (e : Encodes cobs
      (serialize (handshake_frame FrameType.ack r.session.session_identifier 0 f.sequence))
      wire)
    (v : HasScratch r) (c : ControlValidity.IsValid r)
    (idle : r.control_output_state ≡ ControlOutputState.idle)
    (named : r.session.session_identifier ≢ 0) (events : Entries.IsValid r)
    (room : r.event_count < event_queue_capacity)
    (next : classify_sequence r.session f.sequence ≡ (Status.ok, RxSequence.expected)) where
  -- The last two calls.
  confirmed :
      then_reply
        (accept_frame (acknowledged (with_item wire r)) f)
        (λ r₄. or_fault (publish_established_event (set_established r₄)))
      ≡ (Status.ok, rig_established wire f r)
  unfolding then_reply or_fault publish_established_event rig_established rig_confirmed acknowledged
      clear_metadata with_item classify_sequence remembered set_established
  confirmed =
      let r' = rig_confirmed wire f r in
      let published =
        publish-queued established_event (IsValid-ring r' events refl refl refl)
          established_event-is_valid room in
      ap (λ x. then_reply x (λ r₄. or_fault (publish_established_event (set_established r₄))))
        (accept_frame-expected (acknowledged (with_item wire r)) f next)
      ∙ ap or_fault published

  accept_confirm-established :
      accept_confirm cobs r f ≡ (Status.ok, FrameResult.accepted, rig_established wire f r)
  unfolding accept_confirm then_reply then_handle
  accept_confirm-established =
      let finish : Root → Handled = λ r'. (Status.ok, FrameResult.accepted, r') in
      let acked = publish_acknowledgement-idle f.sequence e v c named idle in
      let completed = complete_acknowledgement-matched (with_item-Awaits wire a) in
      rw (check_capacity-free events room, acked, completed)
        (ap (λ x. then_handle x finish) confirmed)

  -- A rig that waits for it takes the CONFIRM, acknowledges it, and is established.
  pub handle_rig_confirm-established :
      r.session.handshake_phase ≡ HandshakePhase.waiting_for_confirm
      → f.session_identifier ≡ r.session.session_identifier
      → handle_rig_confirm cobs r f ≡ (Status.ok, FrameResult.accepted, rig_established wire f r)
  unfolding handle_rig_confirm handle_expected_confirm by_sequence by_acknowledgement
  handle_rig_confirm-established phase same =
      let mine : (f.session_identifier != r.session.session_identifier) ≡ false =
        ground (arith, same) in
      let waiting : (r.session.handshake_phase isnt HandshakePhase.waiting_for_confirm) ≡ false =
        ground (arith, phase) in
      rw (mine, next, waiting)
        (ap (λ k. by_acknowledgement k r FrameResult.incompatible (accept_confirm cobs r f))
            (classify_acknowledgement-matched f a refl)
          ∙ accept_confirm-established)
