-- ===== src/Handshake/Concludes.antt =====
-- The CONFIRM and the ACK of an establishment, and the endpoints at its end.
use hil_rig_protocol.Common.{ℕ, ◌<◌, ◌≤◌, ◌≡◌, refl, ◌∙◌, arith, List, [], length, some, inl}
use hil_rig_protocol.Types.{
  Status, status_enum, Role, role_enum, link_state_enum, SessionState, session_state_enum,
}
use hil_rig_protocol.Root.{
  Root, Session, HandshakePhase, handshake_phase_enum, FrameType, frame_type_enum,
  control_output_capacity,
}
use hil_rig_protocol.Codec.{serialize, validate_control}
use hil_rig_protocol.Codec.Cobs.{Cobs, Encodes}
use hil_rig_protocol.Events.Fifo.{queued}
use hil_rig_protocol.Sequence.{RxSequence, classify_sequence}
use hil_rig_protocol.Reliability.{clear_metadata, is_reliable_type, commit_output, peek_output}
use hil_rig_protocol.Reliability.Loading.{loaded, transmitted, transmit_once}
use hil_rig_protocol.Handshake.{
  FrameResult, handshake_frame, session_identifier_is_valid, set_phase, set_established,
}
use hil_rig_protocol.Handshake.Host.{set_host_established}
use hil_rig_protocol.Handshake.Rig.{bind_session}
use hil_rig_protocol.Handshake.Frames.{
  process, publish_pending, handle_frame, dispatch_role, dispatch_host, dispatch_rig,
}
use hil_rig_protocol.Handshake.Publish.{with_item}
use hil_rig_protocol.Control.{release}
use hil_rig_protocol.Handshake.Sends.{with_output}
use hil_rig_protocol.Handshake.Accepts.{Awaits, acknowledged, remembered}
use hil_rig_protocol.Handshake.Completes.{host_established, handle_host_ack-established}
use hil_rig_protocol.Handshake.Confirms.{
  rig_established, rig_confirmed, handle_rig_confirm-established,
}
use hil_rig_protocol.Handshake.Connecting.{Connecting, handle_frame-dispatched}
use hil_rig_protocol.Handshake.Preserves.{published, transmitted-Connecting}
use hil_rig_protocol.Handshake.Exchange.{
  Meets, process-published, initiate_frame, response_frame, confirm_frame, ack_frame, waiting_rig,
  confirming_host, waiting_for_ack, response_published, response_accepted,
}

classify_sequence-next :
    (s : Session) (sequence : ℕ)
    → s.accepted_receive_sequence_valid ≡ 1
    → sequence ≡ s.expected_receive_sequence
    → classify_sequence s sequence ≡ (Status.ok, RxSequence.expected)
unfolding classify_sequence
classify_sequence-next s sequence h k = ground (arith, h, k)

-- A published frame of the handshake is peeked at and committed.
pub sent :
    {role : Role} (r : Root) (t : FrameType) (phase : HandshakePhase) (wire : List ℕ) (out : List ℕ)
    (out_size now_ms : ℕ)
    → Connecting role (published t phase wire r)
    → length wire < control_output_capacity
    → control_output_capacity ≤ out_size
    → commit_output (peek_output (published t phase wire r) (some out) out_size).root now_ms
      ≡ (Status.ok, transmitted now_ms (published t phase wire r))
unfolding published set_phase loaded with_output
sent r t phase wire out out_size now_ms c fits enough =
    transmit_once out out_size now_ms c.reliable refl (omega (arith, fits, enough))

module _ (cobs : Cobs) {h g : Root} (m : Meets h g) {w₁ w₂ w₃ w₄ : List ℕ} (t₁ t₂ t₃ : ℕ)
    (e₁ : Encodes cobs (serialize (initiate_frame h)) w₁)
    (e₂ : Encodes cobs (serialize (response_frame h g)) w₂)
    (e₃ : Encodes cobs (serialize (confirm_frame h g)) w₃)
    (e₄ : Encodes cobs (serialize (ack_frame h)) w₄) where
  pub confirm_published :
      let h₃ = confirming_host w₁ t₁ h g in
      let h₄ = published FrameType.confirm HandshakePhase.waiting_for_confirm_ack w₃ h₃ in
      (process cobs h₃ ≡ (Status.ok, h₄)) × Connecting Role.host h₄
  unfolding confirm_frame publish_pending is_reliable_type validate_control handshake_frame
      response_frame published transmitted set_phase loaded with_output remembered acknowledged
      clear_metadata
  confirm_published =
      let c = (response_accepted cobs m t₁ e₁).1 in
      process-published FrameType.confirm g.session.next_transmit_sequence
        HandshakePhase.waiting_for_confirm_ack c refl m.host_bound m.usable
        (rw m.host.session_role refl) refl refl e₃

  pub confirm_accepted :
      let g₃ = waiting_rig w₂ t₂ h g in
      handle_frame cobs g₃ (confirm_frame h g)
      ≡ (Status.ok, FrameResult.accepted, rig_established w₄ (confirm_frame h g) g₃)
  unfolding confirm_frame ack_frame dispatch_role dispatch_rig handshake_frame published transmitted
      set_phase loaded with_output remembered bind_session initiate_frame
      session_identifier_is_valid
  confirm_accepted =
      let f = confirm_frame h g in
      let c = transmitted-Connecting t₂ (response_published cobs m e₂).1 refl in
      let awaits : Awaits (waiting_rig w₂ t₂ h g) FrameType.response f.acknowledgement_sequence =
        record { valid = c.reliable; state = inl refl; type = refl; number = refl } in
      handle_frame-dispatched cobs f c refl (λ e. ground (arith, e))
      ∙ handle_rig_confirm-established f awaits e₄ c.scratch c.control c.free
          (ground (arith, m.usable)) c.events c.room (classify_sequence-next _ _ refl refl) refl
          refl

  pub ack_accepted :
      let h₅ = waiting_for_ack (confirming_host w₁ t₁ h g) w₃ t₃ in
      handle_frame cobs h₅ (ack_frame h) ≡ (Status.ok, FrameResult.accepted, host_established h₅)
  unfolding ack_frame dispatch_role dispatch_host handshake_frame published transmitted set_phase
      loaded with_output remembered response_frame acknowledged clear_metadata
  ack_accepted =
      let f = ack_frame h in
      let h₅ = waiting_for_ack (confirming_host w₁ t₁ h g) w₃ t₃ in
      let c = transmitted-Connecting t₃ confirm_published.1 refl in
      let awaits : Awaits h₅ FrameType.confirm f.acknowledgement_sequence = record {
        valid = c.reliable;
        state = inl refl;
        type = refl;
        number = refl;
      } in
      handle_frame-dispatched cobs f c refl (λ e. ground (arith, e))
      ∙ handle_host_ack-established f awaits c.events c.room refl refl

pub no_payload :
    (h g : Root)
    → ((initiate_frame h).payload ≡ [])
      × ((response_frame h g).payload ≡ [])
      × ((confirm_frame h g).payload ≡ [])
unfolding initiate_frame response_frame confirm_frame handshake_frame
no_payload h g = (refl, refl, refl)

-- The endpoints at the end.
abbrev pub last_host : Root → Root → List ℕ → List ℕ → ℕ → ℕ → Root
last_host h g w₁ w₃ t₁ t₃ = host_established (waiting_for_ack (confirming_host w₁ t₁ h g) w₃ t₃)

abbrev pub answering_rig : Root → Root → List ℕ → List ℕ → ℕ → Root
answering_rig h g w₂ w₄ t₂ = rig_established w₄ (confirm_frame h g) (waiting_rig w₂ t₂ h g)

abbrev pub last_rig : Root → Root → List ℕ → List ℕ → ℕ → Root
last_rig h g w₂ w₄ t₂ = release (answering_rig h g w₂ w₄ t₂)

module _ (h g : Root) (w₁ w₂ w₃ w₄ : List ℕ) (t₁ t₂ t₃ : ℕ) where
  pub ends_established :
      ((last_host h g w₁ w₃ t₁ t₃).session.state ≡ SessionState.established)
      × ((last_rig h g w₂ w₄ t₂).session.state ≡ SessionState.established)
      × ((last_host h g w₁ w₃ t₁ t₃).session.session_identifier ≡ h.session.session_identifier)
      × ((last_rig h g w₂ w₄ t₂).session.session_identifier ≡ h.session.session_identifier)
  unfolding host_established rig_established rig_confirmed set_host_established set_established
      queued published transmitted set_phase loaded with_output remembered bind_session acknowledged
      clear_metadata with_item release
  ends_established = (refl, refl, refl, refl)

  pub ends_agree :
      ((last_rig h g w₂ w₄ t₂).session.expected_receive_sequence
        ≡ (last_host h g w₁ w₃ t₁ t₃).session.next_transmit_sequence)
      × ((last_host h g w₁ w₃ t₁ t₃).session.expected_receive_sequence
          ≡ (last_rig h g w₂ w₄ t₂).session.next_transmit_sequence)
  unfolding host_established rig_established rig_confirmed set_host_established set_established
      queued published transmitted set_phase loaded with_output remembered bind_session acknowledged
      clear_metadata with_item release response_frame confirm_frame handshake_frame
  ends_agree = (refl, refl)
