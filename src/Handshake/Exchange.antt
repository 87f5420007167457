-- ===== src/Handshake/Exchange.antt =====
-- The four frames of an establishment, from one endpoint to the other.
use hil_rig_protocol.Common.{◌<◌, ◌^◌, ℕ, ◌+◌, ◌≡◌, refl, ◌∙◌, arith, List, u16, true, inl}
use hil_rig_protocol.Types.{
  Status, status_enum, Role, role_enum, link_state_enum, session_state_enum,
}
use hil_rig_protocol.Root.{
  Root, HandshakePhase, handshake_phase_enum, FrameType, frame_type_enum, ReliableState,
}
use hil_rig_protocol.Codec.{Frame, serialize, validate_control}
use hil_rig_protocol.Codec.Cobs.{Cobs, Encodes}
use hil_rig_protocol.Reliability.{is_reliable_type}
use hil_rig_protocol.Reliability.Loading.{loaded, transmitted}
use hil_rig_protocol.Handshake.{
  FrameResult, handshake_frame, session_identifier_is_valid, set_phase,
}
use hil_rig_protocol.Handshake.Rig.{bind_session}
use hil_rig_protocol.Handshake.Frames.{
  process, publish_pending, handle_frame, dispatch_role, dispatch_host, dispatch_rig,
}
use hil_rig_protocol.Handshake.Publish.{handshake_frame-fits, empty_payload}
use hil_rig_protocol.Handshake.Sends.{with_output, publish_reliable-loaded}
use hil_rig_protocol.Handshake.Accepts.{
  Awaits, acknowledged, remembered, handle_host_response-accepted,
}
use hil_rig_protocol.Handshake.Completes.{classify_sequence-first, handle_rig_initiate-accepted}
use hil_rig_protocol.Handshake.Connecting.{Connecting, process-pending, handle_frame-dispatched}
use hil_rig_protocol.Handshake.{publish_reliable}
use hil_rig_protocol.Handshake.Preserves.{
  published, published-Connecting, transmitted-Connecting, remembered-Connecting,
  acknowledged-Connecting, bind_session-Connecting,
}

pub process-published :
    {cobs : Cobs} {role : Role} {r : Root} (t : FrameType) (acknowledgement : ℕ)
    (phase : HandshakePhase) {wire : List ℕ}
    → Connecting role r
    → r.session.reliable_state ≡ ReliableState.idle
    → r.session.session_identifier_valid ≡ 1
    → session_identifier_is_valid r.session.session_identifier ≡ true
    → publish_pending cobs r.session.handshake_phase r
      ≡ publish_reliable cobs r t acknowledgement phase
    → is_reliable_type t ≡ true
    → validate_control t (
        handshake_frame t r.session.session_identifier r.session.next_transmit_sequence
          acknowledgement)
      ≡ Status.ok
    → Encodes cobs
        (serialize (
          handshake_frame t r.session.session_identifier r.session.next_transmit_sequence
            acknowledgement))
        wire
    → (process cobs r ≡ (Status.ok, published t phase wire r))
      × Connecting role (published t phase wire r)
unfolding published session_identifier_is_valid
process-published {cobs} {role} {r} t acknowledgement phase {wire} c idle bound usable pending
      reliable ok e =
    let fits =
      handshake_frame-fits _
        (empty_payload t r.session.session_identifier r.session.next_transmit_sequence
          acknowledgement)
        e in
    (
      process-pending cobs c bound usable
          ∙ pending
          ∙ publish_reliable-loaded t acknowledgement phase e c.scratch c.reliable idle reliable
              (ground (arith, usable)) ok (omega (arith, c.capacity, fits)) c.bounded,
      published-Connecting t phase wire c idle reliable fits,
    )

-- A host and a rig that are to establish a session, with the identifier that the host chose.
pub record Meets (h g : Root) : Type 0 where
  pub host : Connecting Role.host h
  pub rig : Connecting Role.rig g
  pub host_phase : h.session.handshake_phase ≡ HandshakePhase.initiate_pending
  pub rig_phase : g.session.handshake_phase ≡ HandshakePhase.waiting_for_initiate
  pub host_idle : h.session.reliable_state ≡ ReliableState.idle
  pub rig_idle : g.session.reliable_state ≡ ReliableState.idle
  pub host_bound : h.session.session_identifier_valid ≡ 1
  pub rig_unbound : g.session.session_identifier_valid ≡ 0
  pub identifier_in : h.session.session_identifier < 2 ^ 64
  pub usable : session_identifier_is_valid h.session.session_identifier ≡ true
  pub host_fresh : h.session.accepted_receive_sequence_valid ≡ 0
  pub rig_fresh : g.session.accepted_receive_sequence_valid ≡ 0

-- The frames that they exchange.
unfoldable pub initiate_frame : Root → Frame
initiate_frame h =
    handshake_frame FrameType.initiate h.session.session_identifier h.session.next_transmit_sequence
      0

unfoldable pub response_frame : Root → Root → Frame
response_frame h g =
    handshake_frame FrameType.response h.session.session_identifier g.session.next_transmit_sequence
      h.session.next_transmit_sequence

unfoldable pub confirm_frame : Root → Root → Frame
confirm_frame h g =
    handshake_frame FrameType.confirm h.session.session_identifier
      (u16 (h.session.next_transmit_sequence + 1)) g.session.next_transmit_sequence

unfoldable pub ack_frame : Root → Frame
ack_frame h =
    handshake_frame FrameType.ack h.session.session_identifier 0
      (u16 (h.session.next_transmit_sequence + 1))

-- The endpoints between the frames, with the encodings and the times of the transmissions.
abbrev pub waiting_host : List ℕ → ℕ → Root → Root
waiting_host wire now_ms h =
    transmitted now_ms (published FrameType.initiate HandshakePhase.waiting_for_response wire h)

abbrev pub bound_rig : Root → Root → Root
bound_rig h g =
    set_phase (remembered (initiate_frame h) (bind_session g h.session.session_identifier))
      HandshakePhase.response_pending

abbrev pub waiting_rig : List ℕ → ℕ → Root → Root → Root
waiting_rig wire now_ms h g =
    transmitted now_ms
      (published FrameType.response HandshakePhase.waiting_for_confirm wire (bound_rig h g))

abbrev pub confirming_host : List ℕ → ℕ → Root → Root → Root
confirming_host wire now_ms h g =
    set_phase (remembered (response_frame h g) (acknowledged (waiting_host wire now_ms h)))
      HandshakePhase.confirm_pending

abbrev pub waiting_for_ack : Root → List ℕ → ℕ → Root
waiting_for_ack r wire now_ms =
    transmitted now_ms (published FrameType.confirm HandshakePhase.waiting_for_confirm_ack wire r)

module _ (cobs : Cobs) {h g : Root} (m : Meets h g) where
  pub initiate_published :
      {wire : List ℕ}
      → Encodes cobs (serialize (initiate_frame h)) wire
      → let h₁ = published FrameType.initiate HandshakePhase.waiting_for_response wire h in
        (process cobs h ≡ (Status.ok, h₁)) × Connecting Role.host h₁
  unfolding initiate_frame publish_pending is_reliable_type validate_control handshake_frame
  initiate_published {wire} e =
      process-published FrameType.initiate 0 HandshakePhase.waiting_for_response m.host m.host_idle
        m.host_bound m.usable (rw (m.host_phase, m.host.session_role) refl) refl refl e

  pub initiate_accepted :
      (handle_frame cobs g (initiate_frame h) ≡ (Status.ok, FrameResult.accepted, bound_rig h g))
      × Connecting Role.rig (bound_rig h g)
  unfolding initiate_frame dispatch_role dispatch_rig handshake_frame
  initiate_accepted =
      let f = initiate_frame h in
      (
        handle_frame-dispatched cobs f m.rig refl (λ e. ground (arith, e))
            ∙ handle_rig_initiate-accepted g f m.usable refl m.rig_unbound m.rig_fresh
                m.rig.session_up m.rig.session_state m.rig_phase,
        remembered-Connecting f HandshakePhase.response_pending
            (bind_session-Connecting h.session.session_identifier m.rig),
      )

  pub response_published :
      {wire : List ℕ}
      → Encodes cobs (serialize (response_frame h g)) wire
      → let g₂ =
          published FrameType.response HandshakePhase.waiting_for_confirm wire (bound_rig h g) in
        (process cobs (bound_rig h g) ≡ (Status.ok, g₂)) × Connecting Role.rig g₂
  unfolding set_phase remembered bind_session initiate_frame response_frame publish_pending
      is_reliable_type validate_control handshake_frame
  response_published {wire} e =
      process-published FrameType.response h.session.next_transmit_sequence
        HandshakePhase.waiting_for_confirm initiate_accepted.1 m.rig_idle refl m.usable
        (rw m.rig.session_role refl) refl refl e

  pub response_accepted :
      {wire : List ℕ} (now_ms : ℕ)
      → Encodes cobs (serialize (initiate_frame h)) wire
      → (handle_frame cobs (waiting_host wire now_ms h) (response_frame h g)
          ≡ (Status.ok, FrameResult.accepted, confirming_host wire now_ms h g))
        × Connecting Role.host (confirming_host wire now_ms h g)
  unfolding response_frame initiate_frame dispatch_role dispatch_host handshake_frame published
      transmitted set_phase loaded with_output
  response_accepted {wire} now_ms e =
      let f = response_frame h g in
      let c = transmitted-Connecting now_ms (initiate_published e).1 refl in
      let awaits : Awaits (waiting_host wire now_ms h) FrameType.initiate
          f.acknowledgement_sequence =
        record { valid = c.reliable; state = inl refl; type = refl; number = refl } in
      (
        handle_frame-dispatched cobs f c refl (λ e. ground (arith, e))
            ∙ handle_host_response-accepted f awaits refl refl
                (classify_sequence-first _ _ m.host_fresh),
        remembered-Connecting f HandshakePhase.confirm_pending (acknowledged-Connecting c),
      )
