-- ===== src/Handshake/Accepts.antt =====
-- What the handlers of the handshake leave where nothing is in their way.
use hil_rig_protocol.Common.{ℕ, ◌+◌, ◌≡◌, refl, ap, ◌∙◌, arith, u16, false, ◌!=◌, ◌isnt◌, ◌⊎◌}
use hil_rig_protocol.Types.{Status, status_enum, link_state_enum, session_state_enum}
use hil_rig_protocol.Root.{
  Root, HandshakePhase, handshake_phase_enum, FrameType, frame_type_enum, ReliableState,
  reliable_state_enum,
}
use hil_rig_protocol.Codec.{Frame}
use hil_rig_protocol.Sequence
use hil_rig_protocol.Sequence.{
  RxSequence, classify_sequence, accept_sequence, rx_sequence_enum, ack_result_enum,
}
use hil_rig_protocol.Reliability.{outcome_enum, accept_acknowledgement, clear_metadata}
use hil_rig_protocol.Reliability.Validity as ReliabilityValidity
use hil_rig_protocol.Handshake.{
  AckResult, FrameResult, Handled, classify_acknowledgement, check_completed,
  complete_acknowledgement, accept_frame, record_accepted_frame, then_reply, then_handle, set_phase,
  by_sequence, by_acknowledgement,
}
use hil_rig_protocol.Handshake.Host.{
  handle_host_response, handle_expected_response, accept_response,
}

-- A frame of this type with this sequence was transmitted, and no retry of it is pinned.
pub record Awaits (r : Root) (t : FrameType) (sequence : ℕ) : Type 0 where
  pub valid : ReliabilityValidity.IsValid r
  pub state :
      (r.session.reliable_state ≡ ReliableState.awaiting_ack)
      ⊎ (r.session.reliable_state ≡ ReliableState.retransmit_ready)
  pub type : r.session.retained_reliable_frame_type ≡ t
  pub number : sequence ≡ r.session.retained_transmit_sequence

-- The endpoint once that frame is acknowledged.
unfoldable pub acknowledged : Root → Root
acknowledged r = clear_metadata (record r {
  session = record (r.session) {
    next_transmit_sequence = u16 (r.session.retained_transmit_sequence + 1);
  };
})

pub classify_acknowledgement-matched :
    {r : Root} {t : FrameType} {sequence : ℕ} (f : Frame)
    → Awaits r t sequence
    → f.acknowledgement_sequence ≡ sequence
    → classify_acknowledgement r f t ≡ (Status.ok, AckResult.matched)
unfolding classify_acknowledgement Sequence.classify_acknowledgement
classify_acknowledgement-matched f a h = ground (arith, a.state, a.type, a.number, h)

pub complete_acknowledgement-matched :
    {r : Root} {t : FrameType} {sequence : ℕ}
    → Awaits r t sequence
    → complete_acknowledgement r sequence t ≡ (Status.ok, acknowledged r)
unfolding complete_acknowledgement check_completed accept_acknowledgement acknowledged
    Sequence.classify_acknowledgement
complete_acknowledgement-matched {r} {t} {sequence} a = ground (
  arith,
  ReliabilityValidity.validate_state-IsValid a.valid,
  a.valid.provisioned,
  a.state,
  a.type,
  a.number,
)

-- The endpoint once a frame is taken.
unfoldable pub remembered : Frame → Root → Root
remembered f r = record r {
  session = record (r.session) {
    last_accepted_receive_sequence = f.sequence;
    expected_receive_sequence = u16 (f.sequence + 1);
    accepted_receive_sequence_valid = 1;
    last_accepted_receive_frame_type = f.type;
    last_accepted_receive_acknowledgement_sequence = f.acknowledgement_sequence;
  };
}

pub accept_frame-expected :
    (r : Root) (f : Frame)
    → classify_sequence r.session f.sequence ≡ (Status.ok, RxSequence.expected)
    → accept_frame r f ≡ (Status.ok, remembered f r)
unfolding accept_frame accept_sequence record_accepted_frame remembered
accept_frame-expected r f h = rw h refl

accept_response-accepted :
    {r : Root} (f : Frame)
    → Awaits r FrameType.initiate f.acknowledgement_sequence
    → classify_sequence r.session f.sequence ≡ (Status.ok, RxSequence.expected)
    → accept_response r f ≡ (
      Status.ok,
      FrameResult.accepted,
      set_phase (remembered f (acknowledged r)) HandshakePhase.confirm_pending,
    )
unfolding accept_response then_reply then_handle acknowledged clear_metadata classify_sequence
accept_response-accepted {r} f a next =
    let finish : Root → Handled =
      λ r'. (Status.ok, FrameResult.accepted, set_phase r' HandshakePhase.confirm_pending) in
    ap (λ x. then_handle (then_reply x (λ r'. accept_frame r' f)) finish)
      (complete_acknowledgement-matched a)
    ∙ ap (λ x. then_handle x finish) (accept_frame-expected (acknowledged r) f next)

-- A host that waits for it takes the RESPONSE of its session with the sequence expected that
-- acknowledges its INITIATE.
pub handle_host_response-accepted :
    {r : Root} (f : Frame)
    → Awaits r FrameType.initiate f.acknowledgement_sequence
    → r.session.handshake_phase ≡ HandshakePhase.waiting_for_response
    → f.session_identifier ≡ r.session.session_identifier
    → classify_sequence r.session f.sequence ≡ (Status.ok, RxSequence.expected)
    → handle_host_response r f ≡ (
      Status.ok,
      FrameResult.accepted,
      set_phase (remembered f (acknowledged r)) HandshakePhase.confirm_pending,
    )
unfolding handle_host_response handle_expected_response by_sequence by_acknowledgement
handle_host_response-accepted {r} f a phase same next =
    let mine : (f.session_identifier != r.session.session_identifier) ≡ false =
      ground (arith, same) in
    let waiting : (r.session.handshake_phase isnt HandshakePhase.waiting_for_response) ≡ false =
      ground (arith, phase) in
    rw (mine, next, waiting)
      (ap (λ c. by_acknowledgement c r FrameResult.incompatible (accept_response r f))
          (classify_acknowledgement-matched f a refl)
        ∙ accept_response-accepted f a next)
