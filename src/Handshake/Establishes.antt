-- ===== src/Handshake/Establishes.antt =====
-- An establishment from its first frame to its end.
use hil_rig_protocol.Common.{◌≢◌, ℕ, ◌≤◌, ◌≡◌, refl, arith, List, some}
use hil_rig_protocol.Types.{
  Status, status_enum, role_enum, link_state_enum, SessionState, session_state_enum,
}
use hil_rig_protocol.Root.{
  Root, HandshakePhase, handshake_phase_enum, FrameType, frame_type_enum, control_output_capacity,
}
use hil_rig_protocol.Codec.{serialize, validate_control}
use hil_rig_protocol.Codec.Cobs.{Cobs, Encodes}
use hil_rig_protocol.Events.Fifo.{queued}
use hil_rig_protocol.Reliability.{clear_metadata, commit_output, peek_output}
use hil_rig_protocol.Reliability.Loading.{loaded, transmitted}
use hil_rig_protocol.Handshake.{
  FrameResult, handshake_frame, session_identifier_is_valid, set_phase, set_established,
}
use hil_rig_protocol.Handshake.Rig.{bind_session}
use hil_rig_protocol.Handshake.Frames.{process, handle_frame}
use hil_rig_protocol.Handshake.Publish.{with_item, handshake_frame-fits, with_item-IsValid}
use hil_rig_protocol.Control
use hil_rig_protocol.Control.{release}
use hil_rig_protocol.Control.Validity as ControlValidity
use hil_rig_protocol.Handshake.Crossing.{Carries, published-Carries, control-Carries}
use hil_rig_protocol.Handshake.Sends.{with_output}
use hil_rig_protocol.Handshake.Accepts.{acknowledged, remembered}
use hil_rig_protocol.Handshake.Confirms.{rig_established, rig_confirmed}
use hil_rig_protocol.Handshake.Preserves.{published, transmitted-Connecting}
use hil_rig_protocol.Handshake.Exchange.{
  Meets, initiate_frame, response_frame, confirm_frame, ack_frame, bound_rig, confirming_host,
  initiate_published, initiate_accepted, response_published, response_accepted,
}
use hil_rig_protocol.Handshake.Concludes.{
  sent, no_payload, confirm_published, confirm_accepted, ack_accepted, ends_established, ends_agree,
  last_rig, answering_rig,
}

module _ (cobs : Cobs) {h g : Root} (m : Meets h g) {w₁ w₂ w₃ w₄ : List ℕ} (t₁ t₂ t₃ : ℕ)
    (e₁ : Encodes cobs (serialize (initiate_frame h)) w₁)
    (e₂ : Encodes cobs (serialize (response_frame h g)) w₂)
    (e₃ : Encodes cobs (serialize (confirm_frame h g)) w₃)
    (e₄ : Encodes cobs (serialize (ack_frame h)) w₄) (out : List ℕ) (out_size : ℕ)
    (enough : control_output_capacity ≤ out_size) where
  named : h.session.session_identifier ≢ 0
  unfolding session_identifier_is_valid
  named = ground (arith, m.usable)

  initiate_crosses :
      Carries cobs
        (peek_output
          (published FrameType.initiate HandshakePhase.waiting_for_response w₁ h)
          (some out)
          out_size)
        out
        g
        w₁
        (initiate_frame h)
  unfolding initiate_frame validate_control handshake_frame
  initiate_crosses =
      published-Carries m.rig FrameType.initiate e₁ named m.identifier_in m.host.reliable.next_in
        (omega arith) refl (handshake_frame-fits (initiate_frame h) refl e₁) out out_size enough h
        FrameType.initiate HandshakePhase.waiting_for_response (initiate_published cobs m e₁).1

  response_crosses :
      Carries cobs
        (peek_output
          (published FrameType.response HandshakePhase.waiting_for_confirm w₂ (bound_rig h g))
          (some out)
          out_size)
        out
        h
        w₂
        (response_frame h g)
  unfolding response_frame validate_control handshake_frame
  response_crosses =
      published-Carries m.host FrameType.response e₂ named m.identifier_in m.rig.reliable.next_in
        m.host.reliable.next_in refl (handshake_frame-fits (response_frame h g) refl e₂) out
        out_size enough (bound_rig h g) FrameType.response HandshakePhase.waiting_for_confirm
        (response_published cobs m e₂).1

  confirm_crosses :
      Carries cobs
        (peek_output
          (published FrameType.confirm HandshakePhase.waiting_for_confirm_ack w₃
            (confirming_host w₁ t₁ h g))
          (some out)
          out_size)
        out
        g
        w₃
        (confirm_frame h g)
  unfolding confirm_frame validate_control handshake_frame
  confirm_crosses =
      published-Carries m.rig FrameType.confirm e₃ named m.identifier_in (omega arith)
        m.rig.reliable.next_in refl (handshake_frame-fits (confirm_frame h g) refl e₃) out out_size
        enough (confirming_host w₁ t₁ h g) FrameType.confirm HandshakePhase.waiting_for_confirm_ack
        (confirm_published cobs m t₁ t₂ t₃ e₁ e₂ e₃ e₄).1

  -- The rig's answer to the CONFIRM.
  ack_crosses :
      let g₄ = answering_rig h g w₂ w₄ t₂ in
      let shown = Control.peek_output g₄ (some out) out_size in
      Carries cobs shown out h w₄ (ack_frame h)
      × (Control.commit_output shown.root ≡ (Status.ok, last_rig h g w₂ w₄ t₂))
  unfolding ack_frame validate_control handshake_frame rig_established rig_confirmed set_established
      queued acknowledged clear_metadata with_item remembered confirm_frame response_frame
      initiate_frame published transmitted set_phase loaded with_output bind_session
  ack_crosses =
      let c = transmitted-Connecting t₂ (response_published cobs m e₂).1 refl in
      let slot = with_item-IsValid (confirm_frame h g).sequence e₄ c.scratch c.control named in
      control-Carries m.host FrameType.ack e₄ named m.identifier_in (omega arith) (omega arith) refl
        (handshake_frame-fits (ack_frame h) refl e₄) out out_size enough
        (answering_rig h g w₂ w₄ t₂) g.control_output
        (ControlValidity.IsValid-slot (answering_rig h g w₂ w₄ t₂) slot refl refl refl) refl refl
        refl

-- A host with an INITIATE to publish and a rig that waits for one, both connected, able to publish
-- and receive, and with room for an event and the buffer of the caller for a frame, establish a
-- session. The frames are INITIATE, RESPONSE, CONFIRM, and the ACK that the rig publishes on the
-- CONFIRM. Each is published, a peek shows its encoding and the delimiter, the transmission is
-- committed, the codec of the peer decodes the encoding to the frame, and the peer accepts it. Both
-- endpoints are then established with the host's identifier, and each expects the sequence that the
-- other uses next. COBS is as documented for the four frames.
pub handshake_establishes :
    {cobs : Cobs} {h g : Root} {w₁ w₂ w₃ w₄ : List ℕ} (out : List ℕ) (out_size t₁ t₂ t₃ : ℕ)
    → Meets h g
    → Encodes cobs (serialize (initiate_frame h)) w₁
    → Encodes cobs (serialize (response_frame h g)) w₂
    → Encodes cobs (serialize (confirm_frame h g)) w₃
    → Encodes cobs (serialize (ack_frame h)) w₄
    → control_output_capacity ≤ out_size
    → let (s₁, h₁) = process cobs h in
      let shown₁ = peek_output h₁ (some out) out_size in
      let (c₁, h₂) = commit_output shown₁.root t₁ in
      let (s₂, x₂, g₁) = handle_frame cobs g (initiate_frame h) in
      let (s₃, g₂) = process cobs g₁ in
      let shown₂ = peek_output g₂ (some out) out_size in
      let (c₂, g₃) = commit_output shown₂.root t₂ in
      let (s₄, x₄, h₃) = handle_frame cobs h₂ (response_frame h g) in
      let (s₅, h₄) = process cobs h₃ in
      let shown₃ = peek_output h₄ (some out) out_size in
      let (c₃, h₅) = commit_output shown₃.root t₃ in
      let (s₆, x₆, g₄) = handle_frame cobs g₃ (confirm_frame h g) in
      let shown₄ = Control.peek_output g₄ (some out) out_size in
      let (c₄, g₅) = Control.commit_output shown₄.root in
      let (s₇, x₇, h₆) = handle_frame cobs h₅ (ack_frame h) in
      ((s₁ ≡ Status.ok) × (c₁ ≡ Status.ok) × (s₂ ≡ Status.ok) × (x₂ ≡ FrameResult.accepted))
      × ((s₃ ≡ Status.ok) × (c₂ ≡ Status.ok) × (s₄ ≡ Status.ok) × (x₄ ≡ FrameResult.accepted))
      × ((s₅ ≡ Status.ok) × (c₃ ≡ Status.ok) × (s₆ ≡ Status.ok) × (x₆ ≡ FrameResult.accepted))
      × ((c₄ ≡ Status.ok) × (s₇ ≡ Status.ok) × (x₇ ≡ FrameResult.accepted))
      × (Carries cobs shown₁ out g w₁ (initiate_frame h)
          × Carries cobs shown₂ out h w₂ (response_frame h g)
          × Carries cobs shown₃ out g w₃ (confirm_frame h g)
          × Carries cobs shown₄ out h w₄ (ack_frame h))
      × ((h₆.session.state ≡ SessionState.established)
          × (g₅.session.state ≡ SessionState.established)
          × (h₆.session.session_identifier ≡ h.session.session_identifier)
          × (g₅.session.session_identifier ≡ h.session.session_identifier))
      × ((g₅.session.expected_receive_sequence ≡ h₆.session.next_transmit_sequence)
          × (h₆.session.expected_receive_sequence ≡ g₅.session.next_transmit_sequence))
handshake_establishes {cobs} {h} {g} {w₁} {w₂} {w₃} {w₄} out out_size t₁ t₂ t₃ m e₁ e₂ e₃ e₄
      enough =
    let (p₁, k₁) = initiate_published cobs m e₁ in
    let (p₂, k₂) = response_published cobs m e₂ in
    let (p₃, k₃) = confirm_published cobs m t₁ t₂ t₃ e₁ e₂ e₃ e₄ in
    let (n₁, n₂, n₃) = no_payload h g in
    let x₁ = initiate_crosses cobs m t₁ t₂ t₃ e₁ e₂ e₃ e₄ out out_size enough in
    let x₂ = response_crosses cobs m t₁ t₂ t₃ e₁ e₂ e₃ e₄ out out_size enough in
    let x₃ = confirm_crosses cobs m t₁ t₂ t₃ e₁ e₂ e₃ e₄ out out_size enough in
    let (x₄, c₄) = ack_crosses cobs m t₁ t₂ t₃ e₁ e₂ e₃ e₄ out out_size enough in
    let c₁ =
      sent h _ _ w₁ out out_size t₁ k₁ (handshake_frame-fits (initiate_frame h) n₁ e₁) enough in
    let c₂ =
      sent (bound_rig h g) _ _ w₂ out out_size t₂ k₂
        (handshake_frame-fits (response_frame h g) n₂ e₂) enough in
    let c₃ =
      sent (confirming_host w₁ t₁ h g) _ _ w₃ out out_size t₃ k₃
        (handshake_frame-fits (confirm_frame h g) n₃ e₃) enough in
    rw
      (
        p₁,
        c₁,
        (initiate_accepted cobs m).0,
        p₂,
        c₂,
        (response_accepted cobs m t₁ e₁).0,
        p₃,
        c₃,
        confirm_accepted cobs m t₁ t₂ t₃ e₁ e₂ e₃ e₄,
        c₄,
        ack_accepted cobs m t₁ t₂ t₃ e₁ e₂ e₃ e₄,
      )
      (
        (refl, refl, refl, refl),
        (refl, refl, refl, refl),
        (refl, refl, refl, refl),
        (refl, refl, refl),
        (x₁, x₂, x₃, x₄),
        ends_established h g w₁ w₂ w₃ w₄ t₁ t₂ t₃,
        ends_agree h g w₁ w₂ w₃ w₄ t₁ t₂ t₃,
      )
