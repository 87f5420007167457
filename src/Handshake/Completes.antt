-- ===== src/Handshake/Completes.antt =====
-- What the handlers of the handshake leave where nothing is in their way: the rig's INITIATE, and
-- the two ends of an establishment.
use hil_rig_protocol.Common.{
  ℕ, ◌<◌, ◌≡◌, refl, ap, ◌∙◌, arith, true, false, not, ◌&&◌, ◌||◌, ◌!=◌, ◌isnt◌,
}
use hil_rig_protocol.Types.{
  Status, status_enum, LinkState, link_state_enum, SessionState, session_state_enum,
}
use hil_rig_protocol.Root.{
  Root, Session, HandshakePhase, handshake_phase_enum, FrameType, frame_type_enum,
  reliable_state_enum, event_queue_capacity,
}
use hil_rig_protocol.Codec.{Frame}
use hil_rig_protocol.Events.{value_is_valid}
use hil_rig_protocol.Events.Entries as Entries
use hil_rig_protocol.Events.Fifo.{queued, publish-queued, check_capacity-free, IsValid-ring}
use hil_rig_protocol.Sequence.{RxSequence, classify_sequence}
use hil_rig_protocol.Reliability.{clear_metadata}
use hil_rig_protocol.Handshake.{
  FrameResult, Handled, then_reply, then_handle, or_fault, set_phase, by_sequence,
  by_acknowledgement, session_identifier_is_valid, publish_established_event, established_event,
  set_established,
}
use hil_rig_protocol.Handshake.Host.{set_host_established, establish_host, handle_host_ack}
use hil_rig_protocol.Handshake.Rig.{bind_session, handle_expected_initiate, handle_rig_initiate}
use hil_rig_protocol.Handshake.Accepts.{
  Awaits, acknowledged, remembered, classify_acknowledgement-matched,
  complete_acknowledgement-matched, accept_frame-expected,
}

pub classify_sequence-first :
    (s : Session) (sequence : ℕ)
    → s.accepted_receive_sequence_valid ≡ 0
    → classify_sequence s sequence ≡ (Status.ok, RxSequence.expected)
unfolding classify_sequence
classify_sequence-first s sequence h = ground (arith, h)

-- A rig that waits for it takes the INITIATE of a usable identifier, and with it the session.
pub handle_rig_initiate-accepted :
    (r : Root) (f : Frame)
    → session_identifier_is_valid f.session_identifier ≡ true
    → f.acknowledgement_sequence ≡ 0
    → r.session.session_identifier_valid ≡ 0
    → r.session.accepted_receive_sequence_valid ≡ 0
    → r.session.link_state ≡ LinkState.connected
    → r.session.state ≡ SessionState.connecting
    → r.session.handshake_phase ≡ HandshakePhase.waiting_for_initiate
    → handle_rig_initiate r f ≡ (
      Status.ok,
      FrameResult.accepted,
      set_phase
          (remembered f (bind_session r f.session_identifier))
          HandshakePhase.response_pending,
    )
unfolding handle_rig_initiate handle_expected_initiate by_sequence then_handle bind_session
handle_rig_initiate-accepted r f usable plain unbound fresh up connecting phase =
    let next : classify_sequence r.session f.sequence ≡ (Status.ok, RxSequence.expected) =
      classify_sequence-first r.session f.sequence fresh in
    let next' : classify_sequence (bind_session r f.session_identifier).session f.sequence
        ≡ (Status.ok, RxSequence.expected) =
      classify_sequence-first (bind_session r f.session_identifier).session f.sequence fresh in
    let refused : (not (session_identifier_is_valid f.session_identifier)
          || (f.acknowledgement_sequence != 0))
        ≡ false =
      ground (arith, usable, plain) in
    let bound : ((r.session.session_identifier_valid != 0)
          && (f.session_identifier != r.session.session_identifier))
        ≡ false =
      ground (arith, unbound) in
    let early : ((r.session.link_state isnt LinkState.connected)
          || (r.session.state isnt SessionState.connecting)
          || (r.session.handshake_phase isnt HandshakePhase.waiting_for_initiate))
        ≡ false =
      ground (arith, up, connecting, phase) in
    rw (refused, bound, next, early)
      (ap
        (λ x.
          then_handle x
            (λ r'. (Status.ok, FrameResult.accepted, set_phase r' HandshakePhase.response_pending)))
        (accept_frame-expected (bind_session r f.session_identifier) f next'))

-- The endpoint once its host has the session: the CONFIRM is acknowledged, and the event is queued.
unfoldable pub host_established : Root → Root
host_established r =
    queued established_event
      (set_host_established (acknowledged r) r.session.retained_transmit_sequence)

pub established_event-is_valid : value_is_valid established_event ≡ true
unfolding value_is_valid established_event
established_event-is_valid = refl

pub establish_host-established :
    {r : Root} {sequence : ℕ}
    → Awaits r FrameType.confirm sequence
    → Entries.IsValid r
    → r.event_count < event_queue_capacity
    → establish_host r sequence ≡ (Status.ok, host_established r)
unfolding establish_host host_established then_reply or_fault publish_established_event acknowledged
    clear_metadata set_host_established set_established
establish_host-established {r} {sequence} a events room =
    let r' = set_host_established (acknowledged r) r.session.retained_transmit_sequence in
    let published =
      publish-queued established_event (IsValid-ring r' events refl refl refl)
        established_event-is_valid room in
    rw (check_capacity-free events room) (
      ap
        (λ x. then_reply x (λ r₂. or_fault (
          publish_established_event
            (set_host_established r₂ r.session.retained_transmit_sequence))))
        (complete_acknowledgement-matched a)
      ∙ ap or_fault published)

-- A host that waits for it takes the ACK of its CONFIRM, and is established.
pub handle_host_ack-established :
    {r : Root} (f : Frame)
    → Awaits r FrameType.confirm f.acknowledgement_sequence
    → Entries.IsValid r
    → r.event_count < event_queue_capacity
    → r.session.handshake_phase ≡ HandshakePhase.waiting_for_confirm_ack
    → f.session_identifier ≡ r.session.session_identifier
    → handle_host_ack r f ≡ (Status.ok, FrameResult.accepted, host_established r)
unfolding handle_host_ack by_acknowledgement then_handle
handle_host_ack-established {r} f a events room phase same =
    let mine : (f.session_identifier != r.session.session_identifier) ≡ false =
      ground (arith, same) in
    let waiting : (r.session.handshake_phase isnt HandshakePhase.waiting_for_confirm_ack) ≡ false =
      ground (arith, phase) in
    let finish : Root → Handled = λ r'. (Status.ok, FrameResult.accepted, r') in
    rw (mine, waiting)
      (ap
          (λ c.
            by_acknowledgement c r FrameResult.stale
              (then_handle (establish_host r f.acknowledgement_sequence) finish))
          (classify_acknowledgement-matched f a refl)
        ∙ ap (λ x. then_handle x finish) (establish_host-established a events room))
