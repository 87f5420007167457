-- ===== src/Application/Once.antt =====
-- A message that is received is delivered, once, and a repetition of its frame is acknowledged again.
use hil_rig_protocol.Common.{
  ℕ, ◌+◌, ◌^◌, ◌<◌, ◌≤◌, ◌≡◌, ◌≢◌, refl, sym, subst, ap, ◌∙◌, arith, List, length, take, memcpy,
  u16, true, false, ◌||◌, ◌!=◌, ◌isnt◌,
}
use hil_rig_protocol.Types.{Status, status_enum}
use hil_rig_protocol.Root.{
  Root, Session, FrameType, frame_type_enum, ControlOutputState, control_output_state_enum,
}
use hil_rig_protocol.Codec.{Frame, serialize}
use hil_rig_protocol.Codec.Cobs.{Cobs, Encodes}
use hil_rig_protocol.Sequence.{RxSequence, classify_sequence, accept_sequence, rx_sequence_enum}
use hil_rig_protocol.Control.Validity as ControlValidity
use hil_rig_protocol.Control.Slot.{held}
use hil_rig_protocol.Handshake.{handshake_frame, then_reply}
use hil_rig_protocol.Handshake
use hil_rig_protocol.Handshake.Publish.{
  HasScratch, with_item, item, publish_acknowledgement-idle, publish_acknowledgement-busy,
}
use hil_rig_protocol.Application.{
  FrameResult, has_required_storage, session_is_established, received_message_metadata_is_valid,
  publish_acknowledgement,
}
use hil_rig_protocol.Application.Deliver.{
  then_handle, retain_message, accept_message, acknowledge_again, by_sequence,
  handle_received_frame,
}

-- An established endpoint that owns no received message, and a message frame of its session.
pub record Expects (r : Root) (f : Frame) : Type 0 where
  pub established : session_is_established r ≡ true
  pub storage : has_required_storage r ≡ true
  pub free : r.received_message_pending ≡ 0
  pub empty : r.received_message_size ≡ 0
  pub room : r.base.config.max_application_message_size ≤ length r.received_message
  pub message : f.type ≡ FrameType.application_message
  pub plain : f.acknowledgement_sequence ≡ 0
  pub some_payload : 0 < length f.payload
  pub fits : length f.payload ≤ r.base.config.max_application_message_size
  pub same_session : f.session_identifier ≡ r.session.session_identifier
  pub next : classify_sequence r.session f.sequence ≡ (Status.ok, RxSequence.expected)
  pub in_range : f.sequence < 2 ^ 16

-- The session after the message.
unfoldable pub taken : Session → ℕ → Session
taken s sequence = record s {
  last_accepted_receive_sequence = sequence;
  expected_receive_sequence = u16 (sequence + 1);
  accepted_receive_sequence_valid = 1;
  last_accepted_receive_frame_type = FrameType.application_message;
  last_accepted_receive_acknowledgement_sequence = 0;
}

-- The endpoint that has taken the message, with the ACK in the slot.
unfoldable pub retained : List ℕ → Frame → Root → Root
retained wire f r =
    record (with_item wire
      (record r { received_message = memcpy r.received_message f.payload (length f.payload) })) {
        session = taken r.session f.sequence;
        received_message_size = length f.payload;
        received_message_pending = 1;
      }

accept_sequence-expected :
    (s : Session) (sequence : ℕ)
    → classify_sequence s sequence ≡ (Status.ok, RxSequence.expected)
    → accept_sequence s sequence ≡ (
      Status.ok,
      record s {
        last_accepted_receive_sequence = sequence;
        expected_receive_sequence = u16 (sequence + 1);
        accepted_receive_sequence_valid = 1;
      },
    )
unfolding accept_sequence
accept_sequence-expected s sequence h = rw h refl

retain_message-expected :
    (r : Root) (f : Frame)
    → classify_sequence r.session f.sequence ≡ (Status.ok, RxSequence.expected)
    → retain_message r f ≡ (
      Status.ok,
      record r {
        session = taken r.session f.sequence;
        received_message_size = length f.payload;
        received_message_pending = 1;
      },
    )
unfolding retain_message taken
retain_message-expected r f h = rw (accept_sequence-expected r.session f.sequence h) refl

taken-duplicate :
    (s : Session) (sequence : ℕ)
    → sequence < 2 ^ 16
    → classify_sequence (taken s sequence) sequence ≡ (Status.ok, RxSequence.duplicate)
unfolding classify_sequence taken
taken-duplicate s sequence h = ground arith

module _ {cobs : Cobs} {r : Root} {f : Frame} {wire : List ℕ} (x : Expects r f)
    (e : Encodes cobs
      (serialize (handshake_frame FrameType.ack r.session.session_identifier 0 f.sequence))
      wire)
    (v : HasScratch r) (c : ControlValidity.IsValid r) where
  named : r.session.session_identifier ≢ 0
  unfolding session_is_established
  named = ground (arith, x.established)

  accept_message-retained :
      r.control_output_state ≡ ControlOutputState.idle
      → accept_message cobs r f ≡ (Status.ok, FrameResult.accepted, retained wire f r)
  unfolding accept_message publish_acknowledgement retained with_item then_reply then_handle
      Handshake.retry_later Handshake.publish_acknowledgement
  accept_message-retained idle =
      let copied = record r {
        received_message = memcpy r.received_message f.payload (length f.payload);
      } in
      let v' : HasScratch copied = record { scratch = v.scratch; bounded = v.bounded } in
      let c' = ControlValidity.IsValid-slot copied c refl refl refl in
      let acked = publish_acknowledgement-idle f.sequence e v' c' named idle in
      let published =
        ap
          (λ a.
            then_handle (then_reply a (λ r'. retain_message r' f))
              (λ r'. (Status.ok, FrameResult.accepted, r')))
          acked in
      let kept =
        ap (λ a. then_handle a (λ r'. (Status.ok, FrameResult.accepted, r')))
          (retain_message-expected (with_item wire copied) f x.next) in
      let free : (r.received_message_pending != 0) ≡ false = ground (arith, x.free) in
      rw free (published ∙ kept)

  metadata : received_message_metadata_is_valid r ≡ true
  unfolding received_message_metadata_is_valid
  metadata = ground (arith, x.free, x.empty)

  pub handle_received_frame-retained :
      r.control_output_state ≡ ControlOutputState.idle
      → handle_received_frame cobs r f ≡ (Status.ok, FrameResult.accepted, retained wire f r)
  unfolding handle_received_frame by_sequence
  handle_received_frame-retained idle =
      rw (x.message, x.storage, metadata, x.established, x.plain, x.same_session, x.next)
        (ground (arith, accept_message-retained idle, x.some_payload, x.fits))

  answered :
      (r' : Root)
      → r'.session ≡ taken r.session f.sequence
      → ((r'.session.last_accepted_receive_frame_type isnt FrameType.application_message)
          || (r'.session.last_accepted_receive_acknowledgement_sequence != 0))
        ≡ false
  unfolding taken
  answered r' session =
      ap
        (λ s.
          (s.last_accepted_receive_frame_type isnt FrameType.application_message)
          || (s.last_accepted_receive_acknowledgement_sequence != 0))
        session

  -- The ACK of the frame is in the slot of `r'`, where the frame was the last one accepted.
  pub acknowledge_again-done :
      (r' : Root)
      → r'.session ≡ taken r.session f.sequence
      → HasScratch r'
      → ControlValidity.IsValid r'
      → r'.control_output_state ≢ ControlOutputState.idle
      → held r' ≡ take (length wire + 1) (item wire)
      → acknowledge_again cobs r' f ≡ (Status.ok, FrameResult.duplicate, r')
  unfolding acknowledge_again publish_acknowledgement then_handle taken
      Handshake.publish_acknowledgement
  acknowledge_again-done r' session scratch control busy same =
      let identifier = ap (λ s. s.session_identifier) session in
      let e' =
        subst (λ n. Encodes cobs (serialize (handshake_frame FrameType.ack n 0 f.sequence)) wire)
          (sym identifier) e in
      let published =
        (publish_acknowledgement-busy f.sequence e' scratch control
            (λ h. named (sym identifier ∙ h)) busy).0
          same in
      rw (answered r' session)
        (ap (λ a. then_handle a (λ a'. (Status.ok, FrameResult.duplicate, a'))) published)

  -- The slot of `r'` is free, so that the ACK of the frame is published again.
  pub acknowledge_again-sent :
      (r' : Root)
      → r'.session ≡ taken r.session f.sequence
      → HasScratch r'
      → ControlValidity.IsValid r'
      → r'.control_output_state ≡ ControlOutputState.idle
      → acknowledge_again cobs r' f ≡ (Status.ok, FrameResult.duplicate, with_item wire r')
  unfolding acknowledge_again publish_acknowledgement then_handle taken
      Handshake.publish_acknowledgement
  acknowledge_again-sent r' session scratch control idle =
      let identifier = ap (λ s. s.session_identifier) session in
      let e' =
        subst (λ n. Encodes cobs (serialize (handshake_frame FrameType.ack n 0 f.sequence)) wire)
          (sym identifier) e in
      let published =
        publish_acknowledgement-idle f.sequence e' scratch control (λ h. named (sym identifier ∙ h))
          idle in
      rw (answered r' session)
        (ap (λ a. then_handle a (λ a'. (Status.ok, FrameResult.duplicate, a'))) published)

  pub handle_received_frame-again :
      (r' r_after : Root)
      → session_is_established r' ≡ true
      → has_required_storage r' ≡ true
      → received_message_metadata_is_valid r' ≡ true
      → r'.session ≡ taken r.session f.sequence
      → r'.base ≡ r.base
      → acknowledge_again cobs r' f ≡ (Status.ok, FrameResult.duplicate, r_after)
      → handle_received_frame cobs r' f ≡ (Status.ok, FrameResult.duplicate, r_after)
  unfolding handle_received_frame by_sequence taken
  handle_received_frame-again r' r_after established storage valid session base done =
      let duplicate =
        ap (λ s. classify_sequence s f.sequence) session
        ∙ taken-duplicate r.session f.sequence x.in_range in
      let identifier = x.same_session ∙ sym (ap (λ s. s.session_identifier) session) in
      let maximum = ap (λ b. b.config.max_application_message_size) base in
      rw (x.message, storage, valid, established, x.plain, duplicate)
        (ground (arith, done, identifier, maximum, x.some_payload, x.fits))
